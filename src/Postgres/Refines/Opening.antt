-- ===== src/Postgres/Refines/Opening.antt =====
-- An account that `createAccountTx` creates is opened in the abstract ledger.
use secure_ledger.Prelude.{
  String, ◌≡◌, ◌≢◌, refl, sym, ap, ◌∙◌, subst, Bool, true, false, Done, none, Bool-cases, inl, inr,
  arith, eq_iff, ◌==◌, string_Eq, ok, >>=-eq-ok, raise_if, invalid_input,
}
use secure_ledger.Prelude.Exec.{>>=-runs, pure}
use secure_ledger.Prelude.Int.{pos, ◌≤ℤ◌, ltb_ℤ}
use secure_ledger.Prelude.Int64.{IsInt64}
use secure_ledger.Prelude.Map.{lookup, contains, lookup-insert}
use secure_ledger.Store.{CreateAccountInput}
use secure_ledger.Memory.{system_account_id}
use secure_ledger.Memory.Facts.{system_account_id-ne}
use secure_ledger.Contract.{holding_of, held, equity, open_accounts, open_account, Opened}
use secure_ledger.Postgres.{
  Server, Numbers, Tables, find_rows, account_row, opening_transaction, add_account,
  create_account_tx, open_if, insert_audit, insert_audit_row, validate_create_account,
  unusable_account, AccountRow,
}
use secure_ledger.Postgres.Sound.{IsSound}
use secure_ledger.Postgres.Sound.Booked.{statement-ok}
use secure_ledger.Postgres.Sound.Opened.{IsOpened, insert_opening-IsOpened, fresh_account}
use secure_ledger.Postgres.Sound.Funded
use secure_ledger.Postgres.Sound.Kept.{account_valid}
use secure_ledger.Postgres.Refines.{view, view_row, view_rows}
use secure_ledger.Postgres.Refines.Keys.{find_rows-other}
use secure_ledger.Postgres.Refines.Paid.{rows-AreKeyed}

account_customer :
    (input : CreateAccountInput)
    → validate_create_account input ≡ ok tt
    → input.account.system ≡ false
unfolding validate_create_account
account_customer input h =
    let (_, passed, _) = >>=-eq-ok (raise_if (unusable_account input.account) invalid_input) _ h in
    ground arith

module _ (server : Server) (n : Numbers) (input : CreateAccountInput) (t t' : Tables)
    (sound : IsSound server t) (fresh : contains input.account.id t.accounts ≡ false)
    (outside : input.account.system ≡ false) where
  abbrev row : AccountRow
  row = account_row server input.account input.account.balance_minor

  unknown_row : view_row (lookup input.account.id t.accounts) ≡ none
  unfolding contains
  unknown_row = ground arith

  empty_accounts :
      ltb_ℤ (pos 0) input.account.balance_minor ≡ false
      → (id : String)
      → view_row (lookup id (add_account row t).accounts)
        ≡ open_accounts input.account (view server t).accounts id
  empty_accounts zero id = ground (arith, lookup-insert id input.account.id row t.accounts, outside)

  pub empty-open :
      ltb_ℤ (pos 0) input.account.balance_minor ≡ false
      → view server (add_account row t) ≡ open_account input.account (view server t)
  empty-open zero =
      λ i. record { accounts = λ id. empty_accounts zero id i; paid = (view server t).paid }

  module _ (opened : IsOpened server n input t t')
      (customer : input.account.id ≢ system_account_id input.account.currency)
      (typed : IsInt64 input.account.balance_minor)
      (positive : pos 1 ≤ℤ input.account.balance_minor) where
    abbrev system_id : String
    system_id = system_account_id input.account.currency

    system_held :
        held (view_row (lookup system_id t.accounts)) ≡ opened.system.account.balance_minor
    unfolding contains
    system_held = ground (
      arith,
      Funded.lookup-with server n input t t' sound opened fresh customer typed positive (pos 0)
          system_id,
      Funded.base_found server n input t t' sound opened fresh customer typed positive,
      eq_iff system_id input.account.id,
      eq_iff system_id system_id,
      customer,
    )

    equity_row :
        holding_of
          (Funded.system' server n input t t' sound opened fresh customer typed positive).account
        ≡ equity input.account (view_row (lookup system_id t.accounts))
    equity_row = ground (
      arith,
      system_held,
      opened.is_system,
      opened.its_owner,
      opened.its_currency,
      Funded.system_exact server n input t t' sound opened fresh customer typed positive,
    )

    opened_accounts :
        (id : String)
        → view_row (lookup id t'.accounts) ≡ open_accounts input.account (view server t).accounts id
    opened_accounts id =
        ap view_row (Funded.found server n input t t' sound opened fresh customer typed positive id)
        ∙ elim (Bool-cases (id == system_id)) [
          | inl system ↦ rw ((eq_iff id system_id).0 system) (
              ground (
                arith,
                equity_row,
                positive,
                customer,
                eq_iff system_id input.account.id,
                eq_iff system_id system_id,
              ))
          | inr old ↦ ground (
            arith,
            old,
            positive,
            outside,
            Funded.lookup-with server n input t t' sound opened fresh customer typed positive
                (pos 0) id,
          )
        ]

    opened_paid :
        (actor key : String)
        → view_rows server key (find_rows server actor key t'.transactions t'.intents)
          ≡ (view server t).paid actor key
    opened_paid actor key =
        ap (λ rows. view_rows server key (find_rows server actor key rows t'.intents))
          opened.transactions
        ∙ ap (view_rows server key) (
            find_rows-other server actor key (opening_transaction server input) t.transactions
              t.intents t'.intents (rows-AreKeyed server t sound) opened.fresh refl
              (λ id other. ap (λ m. lookup id m) opened.intents))

    pub opened-open : view server t' ≡ open_account input.account (view server t)
    opened-open = λ i. record {
      accounts = λ id. opened_accounts id i;
      paid = λ actor key. opened_paid actor key i;
    }

module _ (server : Server) (n : Numbers) (input : CreateAccountInput) (t t' : Tables)
    (sound : IsSound server t) (valid : validate_create_account input ≡ ok tt)
    (typed : IsInt64 input.account.balance_minor) where
  open_if-open :
      (b : Bool) {u : Unit {0}}
      → ltb_ℤ (pos 0) input.account.balance_minor ≡ b
      → contains input.account.id t.accounts ≡ false
      → open_if server b n input
          (add_account (account_row server input.account input.account.balance_minor) t)
        ≡ (ok u, t')
      → view server t' ≡ open_account input.account (view server t)
  unfolding open_if pure
  open_if-open true {u} e fresh h =
      opened-open server n input t t' sound fresh (account_customer input valid)
        (insert_opening-IsOpened server n input t t' h)
        (system_account_id-ne input.account.id input.account.currency (account_valid input valid).0)
        typed (ground arith)
  open_if-open false {u} e fresh h =
      ap (view server) (sym (ap (λ (x : Done × Tables). x.1) h))
      ∙ empty-open server n input t t' sound fresh (account_customer input valid) e

pub create_account_tx-Opened :
    (server : Server) (n : Numbers) (input : CreateAccountInput) (t t' : Tables) {u : Unit {0}}
    → IsSound server t
    → validate_create_account input ≡ ok tt
    → IsInt64 input.account.balance_minor
    → create_account_tx server n input t ≡ (ok u, t')
    → Opened input.account (view server t) (view server t')
unfolding create_account_tx insert_audit insert_audit_row
create_account_tx-Opened server n input t t' sound v typed h =
    let (_, t₁, m₁, h₁) = >>=-runs _ _ t h in
    let (fresh, w₁) = fresh_account _ t t₁ m₁ in
    let (_, t₂, m₂, m₃) = >>=-runs _ _ t₁ h₁ in
    let opened = open_if-open server n input t t₂ sound v typed _ refl fresh (
      subst
        (λ (s : Tables).
          open_if server (ltb_ℤ (pos 0) input.account.balance_minor) n input s ≡ (ok tt, t₂))
        w₁ m₂) in
    record {
      unknown = unknown_row server n input t t' sound fresh (account_customer input v);
      customer = account_customer input v;
      nonneg = (account_valid input v).1;
      after = ap (view server) (statement-ok _ _ t₂ t' m₃).1 ∙ opened;
    }
