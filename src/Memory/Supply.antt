-- ===== src/Memory/Supply.antt =====
-- The sum of all balances, customers' and system accounts', is zero.
use secure_ledger.Prelude.{
  String, ◌≡◌, ◌≢◌, refl, sym, ap, ◌∙◌, Bool-cases, inl, inr, true, false, List, [], ◌∷◌, arith, ok,
  ◌==◌, string_Eq, All, Context,
}
use secure_ledger.Prelude.Int.{
  ℤ, pos, ◌+ℤ◌, ◌-ℤ◌, pos_part, neg_part, int_laws, +ℤ_assoc, +ℤ-zero, zero-+ℤ, eq_of_parts, ltb_ℤ,
  ◌≤ℤ◌,
}
use secure_ledger.Prelude.Int64.{IsInt64}
use secure_ledger.Prelude.Map.{Map, lookup, insert, lookup-insert_ne}
use secure_ledger.Domain.{Account}
use secure_ledger.Store.{CreateAccountInput, ApplyTransferInput}
use secure_ledger.Memory.{
  Store, new, system_account_id, move_balances, write_transfer, write_account, write_opening,
  create_account, apply_transfer, check_account, Call, creates, transfers, step, run,
}
use secure_ledger.Memory.Cases.{
  TransferCase, refused, replayed, accepted, apply_transfer-cases, CreateCase, rejected, empty,
  funded, create_account-cases, Opened, opened_state,
}
use secure_ledger.Memory.Sound.{IsSound, balance_of, stored_balance}
use secure_ledger.Memory.Sound.Applied
use secure_ledger.Memory.Sound.Created
use secure_ledger.Memory.Sound.Run.{IsTyped, new-IsSound, step-IsSound}

-- The sum of the balances of all accounts.
abbrev pub supply : Map String Account → ℤ
supply [] = pos 0
supply ((_, a) ∷ m) = a.balance_minor +ℤ supply m

-- Writing an account replaces the balance that stood under its id.
supply-insert :
    (id : String) (a : Account) (m : Map String Account)
    → supply (insert id a m) +ℤ balance_of id m ≡ supply m +ℤ a.balance_minor
unfolding insert lookup
supply-insert id a [] = omega int_laws
supply-insert id a ((j, b) ∷ m) = elim (Bool-cases (id == j)) [
  | inl same ↦ rw same (omega int_laws)
  | inr other ↦ rw other (
      +ℤ_assoc b.balance_minor (supply (insert id a m)) (balance_of id m)
      ∙ ap (λ x. b.balance_minor +ℤ x) (supply-insert id a m)
      ∙ sym (+ℤ_assoc b.balance_minor (supply m) a.balance_minor))
]

-- An account's balance before and after.
supply_change :
    (id : String) (a : Account) (m : Map String Account) (d : ℤ)
    → a.balance_minor ≡ balance_of id m +ℤ d
    → supply (insert id a m) ≡ supply m +ℤ d
supply_change id a m d e = regroup _ _ _ d (supply-insert id a m ∙ ap (λ x. supply m +ℤ x) e)
  where
    regroup : (x y z d : ℤ) → x +ℤ y ≡ z +ℤ (y +ℤ d) → x ≡ z +ℤ d
    regroup x y z d h = omega (int_laws, ap pos_part h, ap neg_part h)

-- Two accounts move by opposite amounts.
supply_pair :
    (i j : String) (a b : Account) (m : Map String Account) (d : ℤ)
    → j ≢ i
    → a.balance_minor ≡ balance_of i m -ℤ d
    → b.balance_minor ≡ balance_of j m +ℤ d
    → supply (insert j b (insert i a m)) ≡ supply m
supply_pair i j a b m d ne ea eb =
    supply_change j b (insert i a m) d
      (eb ∙ ap (λ o. stored_balance o +ℤ d) (sym (lookup-insert_ne j i a m ne)))
    ∙ ap (λ x. x +ℤ d) (supply_change i a m (pos 0 -ℤ d) (ea ∙ minus (balance_of i m) d))
    ∙ back (supply m) d
  where
    minus : (x d : ℤ) → x -ℤ d ≡ x +ℤ (pos 0 -ℤ d)
    minus x d = omega int_laws

    back : (x d : ℤ) → x +ℤ (pos 0 -ℤ d) +ℤ d ≡ x
    back x d = omega int_laws

apply_transfer-supply :
    (ctx : Context) (input : ApplyTransferInput) (s : Store)
    → IsSound s
    → supply (apply_transfer ctx input s).1.accounts ≡ supply s.accounts
apply_transfer-supply ctx input s sound = go (apply_transfer-cases ctx input s)
  where
    go :
        TransferCase ctx input s
        → supply (apply_transfer ctx input s).1.accounts ≡ supply s.accounts
    go (refused e eq) = ap (λ x. supply x.1.accounts) eq
    go (replayed t known same eq) = ap (λ x. supply x.1.accounts) eq
    go (accepted p a eq) =
        ap (λ x. supply x.1.accounts) eq
        ∙ unfold write_transfer move_balances in
          supply_pair p.from.id p.to.id _ _ s.accounts input.transfer.intent.amount_minor
            (λ e. (Applied.parties input s p sound a).distinct (sym e))
            (Applied.from_exact input s p sound a
              ∙ ap (λ o. stored_balance o -ℤ input.transfer.intent.amount_minor)
                  (sym (Applied.from_stored input s p sound a)))
            (Applied.to_exact input s p sound a
              ∙ ap (λ o. stored_balance o +ℤ input.transfer.intent.amount_minor)
                  (sym (Applied.to_stored input s p sound a)))

-- A balance that is neither negative nor positive.
zero_balance : (b : ℤ) → pos 0 ≤ℤ b → ltb_ℤ (pos 0) b ≡ false → b ≡ pos 0
zero_balance b h e = ground (arith, eq_of_parts b (pos 0))

module _ (input : CreateAccountInput) (s : Store) (sound : IsSound s)
    (typed : IsInt64 input.account.balance_minor) (valid : check_account input s ≡ ok tt) where
  abbrev balance : ℤ
  balance = input.account.balance_minor

  -- A new account's balance is a change from nothing.
  new_balance : (d : ℤ) → balance ≡ d → balance ≡ balance_of input.account.id s.accounts +ℤ d
  new_balance d e =
      e ∙ sym (zero-+ℤ d) ∙ ap (λ b. b +ℤ d) (sym (Created.unheld input s sound typed valid))

  empty_state-supply :
      ltb_ℤ (pos 0) balance ≡ false → supply (write_account input s).accounts ≡ supply s.accounts
  unfolding write_account
  empty_state-supply zero =
      supply_change input.account.id input.account s.accounts (pos 0) (
        new_balance (pos 0)
          (zero_balance balance (Created.fresh input s sound typed valid).nonneg zero))
      ∙ +ℤ-zero (supply s.accounts)

  opened_state-supply :
      (a : Account)
      → ltb_ℤ (pos 0) balance ≡ true
      → Opened input s a
      → supply (opened_state input a s).accounts ≡ supply s.accounts
  unfolding write_account write_opening
  opened_state-supply a positive o =
      supply_pair (system_account_id input.account.currency) input.account.id _ input.account
        s.accounts balance (Created.distinct input s sound typed valid positive a o)
        (Created.system_exact input s sound typed valid positive a o
          ∙ ap (λ b. b -ℤ balance) (sym (Created.held input s sound typed valid positive a o)))
        (new_balance balance refl)

create_account-supply :
    (ctx : Context) (input : CreateAccountInput) (s : Store)
    → IsSound s
    → IsInt64 input.account.balance_minor
    → supply (create_account ctx input s).1.accounts ≡ supply s.accounts
create_account-supply ctx input s sound typed = go (create_account-cases ctx input s)
  where
    go : CreateCase ctx input s → supply (create_account ctx input s).1.accounts ≡ supply s.accounts
    go (rejected e eq) = ap (λ x. supply x.1.accounts) eq
    go (empty valid zero eq) =
        ap (λ x. supply x.1.accounts) eq ∙ empty_state-supply input s sound typed valid zero
    go (funded a valid positive o eq) =
        ap (λ x. supply x.1.accounts) eq
        ∙ opened_state-supply input s sound typed valid a positive o

-- No call of a sound store makes or destroys money.
pub step-supply :
    (c : Call) (s : Store) → IsTyped c → IsSound s → supply (step c s).accounts ≡ supply s.accounts
unfolding step
step-supply (creates ctx input) s t h = create_account-supply ctx input s h t
step-supply (transfers ctx input) s t h = apply_transfer-supply ctx input s h

run-supply :
    (cs : List Call) (s : Store)
    → All IsTyped cs
    → IsSound s
    → supply (run cs s).accounts ≡ supply s.accounts
unfolding run
run-supply [] s t h = refl
run-supply (c ∷ cs) s t h =
    run-supply cs (step c s) t.1 (step-IsSound c s t.0 h) ∙ step-supply c s t.0 h

-- Whatever calls the clients of a new store make, with amounts that are int64 values, the balances of
-- all accounts, system accounts included, sum to zero.
pub run-new-supply : (cs : List Call) → All IsTyped cs → supply (run cs new).accounts ≡ pos 0
run-new-supply cs t = run-supply cs new t new-IsSound
