-- ===== src/Memory/Effects/Created.antt =====
-- What `CreateAccount` of the in-memory store does to the accounts, the journal and the trail.
use secure_ledger.Prelude.{
  String, ◌≡◌, ◌≢◌, refl, sym, ap, ◌∙◌, subst, false, true, none, some, [], ◌∷◌, ◌++◌, arith,
  string_Eq, ok, Context, if◌then◌else◌,
}
use mathlib.Core.List.{append-nil}
use secure_ledger.Prelude.Int.{pos, ℤ, ◌-ℤ◌, ◌≤ℤ◌, ltb_ℤ, eq_of_parts, -ℤ_parts}
use secure_ledger.Prelude.Int64.{IsInt64}
use secure_ledger.Prelude.Map.{lookup, lookup-insert_self, lookup-insert_ne}
use secure_ledger.Domain.{Account}
use secure_ledger.Store.{CreateAccountInput}
use secure_ledger.Memory.{
  Store, system_account_id, opening_postings, write_account, write_opening, clone_audit,
  create_account, check_account,
}
use secure_ledger.Memory.Cases.{
  CreateCase, rejected, empty, funded, create_account-cases, Opened, opened_state,
}
use secure_ledger.Memory.Facts.{system_account_id-ne}
use secure_ledger.Memory.Sound.{IsSound, balance_of, stored_balance}
use secure_ledger.Memory.Sound.Created

-- What one account creation has done.
pub record HasOpened (input : CreateAccountInput) (s s' : Store) : Type 0 where
  pub unknown : lookup input.account.id s.accounts ≡ none
  pub nonneg : pos 0 ≤ℤ input.account.balance_minor
  pub stored : lookup input.account.id s'.accounts ≡ some input.account
  pub funded :
      balance_of (system_account_id input.account.currency) s'.accounts
      ≡ balance_of (system_account_id input.account.currency) s.accounts
        -ℤ input.account.balance_minor
  pub others :
      (id : String)
      → id ≢ input.account.id
      → id ≢ system_account_id input.account.currency
      → lookup id s'.accounts ≡ lookup id s.accounts
  pub posted :
      s'.journal
      ≡ s.journal
        ++ (if ltb_ℤ (pos 0) input.account.balance_minor
            then opening_postings input s.sequence
            else [])
  pub audited : s'.audit ≡ s.audit ++ clone_audit input.audit ∷ []

module _ (input : CreateAccountInput) (s : Store) (sound : IsSound s)
    (typed : IsInt64 input.account.balance_minor) (valid : check_account input s ≡ ok tt) where
  abbrev system_id : String
  system_id = system_account_id input.account.currency

  distinct : system_id ≢ input.account.id
  distinct e =
      system_account_id-ne input.account.id input.account.currency
        (Created.fresh input s sound typed valid).not_reserved (sym e)

  minus_nothing : (b d : ℤ) → pos 0 ≤ℤ d → ltb_ℤ (pos 0) d ≡ false → b ≡ b -ℤ d
  minus_nothing b d n z = ground (arith, -ℤ_parts b d, eq_of_parts b (b -ℤ d))

  empty_state-HasOpened :
      ltb_ℤ (pos 0) input.account.balance_minor ≡ false → HasOpened input s (write_account input s)
  unfolding write_account
  empty_state-HasOpened zero = record {
    unknown = (Created.fresh input s sound typed valid).unknown;
    nonneg = (Created.fresh input s sound typed valid).nonneg;
    stored = lookup-insert_self input.account.id input.account s.accounts;
    funded =
        ap stored_balance
          (lookup-insert_ne system_id input.account.id input.account s.accounts distinct)
        ∙ minus_nothing _ _ (Created.fresh input s sound typed valid).nonneg zero;
    others = λ id a b. lookup-insert_ne id input.account.id input.account s.accounts a;
    posted = rw zero (sym (append-nil s.journal));
    audited = refl;
  }

  opened_state-HasOpened :
      (a : Account)
      → ltb_ℤ (pos 0) input.account.balance_minor ≡ true
      → Opened input s a
      → HasOpened input s (opened_state input a s)
  unfolding write_account write_opening
  opened_state-HasOpened a positive o = record {
    unknown = (Created.fresh input s sound typed valid).unknown;
    nonneg = (Created.fresh input s sound typed valid).nonneg;
    stored = lookup-insert_self input.account.id input.account _;
    funded =
        ap stored_balance (
          lookup-insert_ne system_id input.account.id input.account _ distinct
          ∙ lookup-insert_self system_id _ s.accounts)
        ∙ Created.system_exact input s sound typed valid positive a o
        ∙ ap (λ b. b -ℤ input.account.balance_minor)
            (sym (Created.held input s sound typed valid positive a o));
    others = λ id n m.
        lookup-insert_ne id input.account.id input.account _ n
        ∙ lookup-insert_ne id system_id _ s.accounts m;
    posted = rw positive refl;
    audited = refl;
  }

-- An account creation that succeeds on a sound store, with an int64 balance, has stored exactly the
-- account under its new id, taken its balance, which is not negative, from the system account of the
-- currency, changed no other account, and appended the two opening postings, if the balance is not
-- zero, and the audit record.
pub create_account-HasOpened :
    (ctx : Context) (input : CreateAccountInput) (s : Store)
    → IsSound s
    → IsInt64 input.account.balance_minor
    → (create_account ctx input s).0 ≡ ok tt
    → HasOpened input s (create_account ctx input s).1
create_account-HasOpened ctx input s sound typed h = go (create_account-cases ctx input s)
  where
    go : CreateCase ctx input s → HasOpened input s (create_account ctx input s).1
    go (rejected e eq) = cc (h, ap (λ x. x.0) eq)
    go (empty valid zero eq) =
        subst (HasOpened input s) (sym (ap (λ x. x.1) eq))
          (empty_state-HasOpened input s sound typed valid zero)
    go (funded a valid positive o eq) =
        subst (HasOpened input s) (sym (ap (λ x. x.1) eq))
          (opened_state-HasOpened input s sound typed valid a positive o)
