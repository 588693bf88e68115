-- ===== src/Memory/Refines/Opening.antt =====
-- An account that the in-memory store creates is opened in the abstract ledger.
use secure_ledger.Prelude.{
  String, ◌≡◌, refl, ap, ◌∙◌, true, false, Option, none, some, Bool-cases, inl, inr, ◌==◌,
  string_Eq, arith, eq_iff, ok,
}
use secure_ledger.Prelude.Int.{pos, ltb_ℤ}
use secure_ledger.Prelude.Int64.{IsInt64, sub64}
use secure_ledger.Prelude.Map.{lookup, lookup-insert}
use secure_ledger.Domain.{Account}
use secure_ledger.Store.{CreateAccountInput}
use secure_ledger.Contract.{holding_of, held, open_account, open_accounts, equity}
use secure_ledger.Memory.{Store, scope_Eq}
use secure_ledger.Memory.Cases.{
  TransferCase, refused, replayed, accepted, apply_transfer-cases, Accepted, accepted_state,
}
use secure_ledger.Memory.Sound.{IsSound, stored_balance}
use secure_ledger.Memory.Sound.Created
use secure_ledger.Memory.{write_account, write_opening, system_account_id, check_account}
use secure_ledger.Memory.Cases.{
  CreateCase, rejected, empty, funded, create_account-cases, opened_state,
}
use secure_ledger.Memory.Cases
use secure_ledger.Memory.Refines.{view, view_account}

held-view_account : (m : Option Account) → held (view_account m) ≡ stored_balance m
held-view_account none = refl
held-view_account (some a) = refl

module _ (input : CreateAccountInput) (s : Store) (sound : IsSound s)
    (typed : IsInt64 input.account.balance_minor) (valid : check_account input s ≡ ok tt) where
  empty_accounts :
      ltb_ℤ (pos 0) input.account.balance_minor ≡ false
      → (id : String)
      → view_account (lookup id (write_account input s).accounts)
        ≡ open_accounts input.account (view s).accounts id
  unfolding write_account
  empty_accounts zero id =
      ground (arith, lookup-insert id input.account.id input.account s.accounts)

  pub empty-open :
      ltb_ℤ (pos 0) input.account.balance_minor ≡ false
      → view (write_account input s) ≡ open_account input.account (view s)
  unfolding write_account
  empty-open zero = λ i. record { accounts = λ id. empty_accounts zero id i; paid = (view s).paid }

  module _ (positive : ltb_ℤ (pos 0) input.account.balance_minor ≡ true) (a : Account)
      (o : Cases.Opened input s a) where
    abbrev system_id : String
    system_id = system_account_id input.account.currency

    abbrev system' : Account
    system' = record a { balance_minor = sub64 a.balance_minor input.account.balance_minor }

    system_held : held ((view s).accounts system_id) ≡ a.balance_minor
    system_held =
        held-view_account (lookup system_id s.accounts)
        ∙ Created.held input s sound typed valid positive a o

    equity_row : holding_of system' ≡ equity input.account ((view s).accounts system_id)
    equity_row = ground (
      arith,
      system_held,
      (Created.system input s sound typed valid positive a o).system,
      (Created.system input s sound typed valid positive a o).owner,
      (Created.system input s sound typed valid positive a o).currency,
      Created.system_exact input s sound typed valid positive a o,
    )

    opened_accounts :
        (id : String)
        → view_account (lookup id (opened_state input a s).accounts)
          ≡ open_accounts input.account (view s).accounts id
    unfolding write_account write_opening
    opened_accounts id =
        ap view_account (Created.lookup-opened input s sound typed valid positive a o id)
        ∙ elim (Bool-cases (id == input.account.id)) [
          | inl new ↦ ground (arith, new)
          | inr other ↦ elim (Bool-cases (id == system_id)) [
            | inl system ↦ rw ((eq_iff id system_id).0 system) (
                ground (
                  arith,
                  equity_row,
                  positive,
                  eq_iff input.account.id system_id,
                  eq_iff system_id system_id,
                  Created.distinct input s sound typed valid positive a o,
                ))
            | inr old ↦ ground (arith, other, old, positive)
          ]
        ]

    pub opened-open : view (opened_state input a s) ≡ open_account input.account (view s)
    unfolding write_account write_opening
    opened-open = λ i. record { accounts = λ id. opened_accounts id i; paid = (view s).paid }
