-- ===== src/Memory/Cases/Create.antt =====
-- The ways in which `CreateAccount` ends, as data: what each check found, the reply and the final
-- state.
use secure_ledger.Prelude.{
  ◌≡◌, true, false, Bool-cases, inl, inr, Error, ok, err, Result-cases, Context, check_context,
  arith,
}
use secure_ledger.Prelude.Int.{pos, ltb_ℤ}
use secure_ledger.Domain.{Account, validate_balanced}
use secure_ledger.Store.{CreateAccountInput}
use secure_ledger.Memory.{
  Store, check_account, check_opening_ids, system_account, opening_postings, write_opening,
  write_account, create_account,
}

-- What an opening entry has passed.
pub record Opened (input : CreateAccountInput) (s : Store) (a : Account) : Type 0 where
  pub fresh : check_opening_ids input s ≡ ok tt
  pub system : system_account input.account s ≡ ok a
  pub balanced : validate_balanced (opening_postings input s.sequence) ≡ ok tt

abbrev pub opened_state : CreateAccountInput → Account → Store → Store
opened_state input a s =
    write_account input (write_opening input a (opening_postings input s.sequence) s)

pub data CreateCase (ctx : Context) (input : CreateAccountInput) (s : Store) : Type 0 where
  rejected : (e : Error) → create_account ctx input s ≡ (err e, s) → CreateCase ctx input s
  empty :
      check_account input s ≡ ok tt
      → ltb_ℤ (pos 0) input.account.balance_minor ≡ false
      → create_account ctx input s ≡ (ok tt, write_account input s)
      → CreateCase ctx input s
  funded :
      (a : Account)
      → check_account input s ≡ ok tt
      → ltb_ℤ (pos 0) input.account.balance_minor ≡ true
      → Opened input s a
      → create_account ctx input s ≡ (ok tt, opened_state input a s)
      → CreateCase ctx input s

module _ (ctx : Context) (input : CreateAccountInput) (s : Store) where
  funded_case :
      check_context ctx ≡ ok tt
      → check_account input s ≡ ok tt
      → ltb_ℤ (pos 0) input.account.balance_minor ≡ true
      → CreateCase ctx input s
  funded_case live valid positive = elim (Result-cases (check_opening_ids input s)) [
    | inl (e, bad) ↦ rejected e (unfold create_account in ground arith)
    | inr (_, fresh) ↦ elim (Result-cases (system_account input.account s)) [
      | inl (e, bad) ↦ rejected e (unfold create_account in ground arith)
      | inr (a, system) ↦
          elim (Result-cases (validate_balanced (opening_postings input s.sequence))) [
            | inl (e, bad) ↦ rejected e (unfold create_account in ground arith)
            | inr (_, balanced) ↦
                funded a valid positive
                  (record { fresh = fresh; system = system; balanced = balanced })
                  (unfold create_account in ground arith)
          ]
    ]
  ]

  pub create_account-cases : CreateCase ctx input s
  create_account-cases = elim (Result-cases (check_context ctx)) [
    | inl (e, dead) ↦ rejected e (unfold create_account in ground arith)
    | inr (_, live) ↦ elim (Result-cases (check_account input s)) [
      | inl (e, bad) ↦ rejected e (unfold create_account in ground arith)
      | inr (_, valid) ↦ elim (Bool-cases (ltb_ℤ (pos 0) input.account.balance_minor)) [
        | inl positive ↦ funded_case live valid positive
        | inr zero ↦ empty valid zero (unfold create_account in ground arith)
      ]
    ]
  ]
