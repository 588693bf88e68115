-- ===== src/Postgres/Sound/Opened.antt =====
-- What `createAccountTx` has done when it opens an account.
use secure_ledger.Prelude.{
  ◌≡◌, refl, sym, ap, ◌∙◌, true, false, Option, none, some, [], ◌∷◌, ◌++◌, Bool-cases, inl, inr,
  arith, string_Eq, eq_iff, Result, ok, >>=-eq-ok,
}
use secure_ledger.Prelude.Int.{ℤ, ◌≤ℤ◌}
use secure_ledger.Prelude.Int64.{min_int64, add64, sub64}
use secure_ledger.Prelude.Map.{lookup, insert, contains}
use secure_ledger.Prelude.Exec.{asks, >>=-runs}
use secure_ledger.Domain.{Account}
use secure_ledger.Store.{CreateAccountInput}
use secure_ledger.Memory.{system_account_id}
use secure_ledger.Postgres.{
  Server, Numbers, Tables, AccountRow, insert_account, insert_account_if_new, update_balance,
  insert_opening, insert_postings, account_row, system_row, check_system, opening_transaction,
  first_opening, second_opening, add_account, add_account_if_new, add_transaction, add_postings,
  set_balance, check_account_row,
}
use secure_ledger.Postgres.Sound.Booked.{statement-ok, not_taken, fresh_transaction}

-- The new account and the system account, before any money moves.
abbrev pub with_accounts : Server → CreateAccountInput → ℤ → Tables → Tables
with_accounts server input balance t =
    add_account_if_new (system_row server input.account)
      (add_account (account_row server input.account balance) t)

pub record IsOpened (server : Server) (n : Numbers) (input : CreateAccountInput) (t t' : Tables)
    : Type 0 where
  pub system : AccountRow
  pub found :
      lookup
        (system_account_id input.account.currency)
        (with_accounts server input input.account.balance_minor t).accounts
      ≡ some system
  pub is_system : system.account.system ≡ true
  pub its_owner : system.account.owner_id ≡ "system"
  pub its_currency : system.account.currency ≡ input.account.currency
  pub room : add64 min_int64 input.account.balance_minor ≤ℤ system.account.balance_minor
  pub fresh : contains input.opening_transaction_id t.transactions ≡ false
  pub accounts :
      t'.accounts
      ≡ (set_balance
          (system_account_id input.account.currency)
          (sub64 system.account.balance_minor input.account.balance_minor)
          (server.stamp input.account.created_at)
          (with_accounts server input input.account.balance_minor t)).accounts
  pub transactions :
      t'.transactions
      ≡ insert input.opening_transaction_id (opening_transaction server input) t.transactions
  pub postings :
      t'.postings ≡ t.postings ++ first_opening server n input ∷ second_opening server n input ∷ []
  pub intents : t'.intents ≡ t.intents

-- A row of an account that may be there is in no other table.
pub if_new-elsewhere :
    (r : AccountRow) (t : Tables)
    → record (add_account_if_new r t) { accounts = [] } ≡ record t { accounts = [] }
if_new-elsewhere r t = elim (Bool-cases (contains r.account.id t.accounts)) [
  | inl known ↦ rw known refl
  | inr fresh ↦ rw fresh refl
]

check_system-ok :
    (server : Server) (a : Account) (o : Option AccountRow) (balance : ℤ)
    → check_system server a o ≡ ok balance
    → (r : AccountRow) × (o ≡ some r)
      × (r.account.system ≡ true)
      × (r.account.owner_id ≡ "system")
      × (r.account.currency ≡ a.currency)
      × (r.account.balance_minor ≡ balance)
      × (add64 min_int64 a.balance_minor ≤ℤ r.account.balance_minor)
check_system-ok server a none balance h = cc
check_system-ok server a (some r) balance h =
    let owner = eq_iff r.account.owner_id "system" in
    let currency = eq_iff r.account.currency a.currency in
    (r, refl, ground arith, ground arith, ground arith, ground arith, ground arith)

pub fresh_account :
    (r : AccountRow) (t t' : Tables) {u : Unit {0}}
    → insert_account r t ≡ (ok u, t')
    → (contains r.account.id t.accounts ≡ false) × (t' ≡ add_account r t)
unfolding insert_account
fresh_account r t t' h =
    let (c, w) = statement-ok _ _ t t' h in
    let (_, _, c₁) = >>=-eq-ok (check_account_row r) _ c in (not_taken _ _ c₁, w)

pub insert_opening-IsOpened :
    (server : Server) (n : Numbers) (input : CreateAccountInput) (t t' : Tables) {u : Unit {0}}
    → insert_opening server n input
        (add_account (account_row server input.account input.account.balance_minor) t)
      ≡ (ok u, t')
    → IsOpened server n input t t'
unfolding insert_opening insert_account_if_new update_balance insert_postings asks
insert_opening-IsOpened server n input t t' h =
    let t₁ = add_account (account_row server input.account input.account.balance_minor) t in
    let id = system_account_id input.account.currency in
    let (_, t₂, m₂, h₂) = >>=-runs _ _ t₁ h in
    let (balance, t₃, m₃, h₃) = >>=-runs _ _ t₂ h₂ in
    let (_, t₄, m₄, h₄) = >>=-runs _ _ t₃ h₃ in
    let (_, t₅, m₅, m₆) = >>=-runs _ _ t₄ h₄ in
    let w₂ = (statement-ok _ _ t₁ t₂ m₂).1 in
    let w₃ : t₃ ≡ with_accounts server input input.account.balance_minor t =
      sym (ap (λ (x : Result ℤ × Tables). x.1) m₃) ∙ w₂ in
    let (system, found, is_system, its_owner, its_currency, its_balance, room) =
      check_system-ok server input.account _ balance (ap (λ (x : Result ℤ × Tables). x.0) m₃) in
    let w₄ =
      (statement-ok _ _ t₃ t₄ m₄).1
      ∙ ap
          (set_balance id (sub64 balance input.account.balance_minor)
            (server.stamp input.account.created_at))
          w₃ in
    let (fresh, _, w₅) = fresh_transaction _ t₄ t₅ m₅ in
    let w₆ = (statement-ok _ _ t₅ t' m₆).1 in
    let moved =
      w₆
      ∙ ap (add_postings (first_opening server n input) (second_opening server n input))
          (w₅ ∙ ap (add_transaction (opening_transaction server input)) w₄) in
    let elsewhere = if_new-elsewhere (system_row server input.account) t₁ in
    let other =
      ap (λ (s : Tables). record s { accounts = [] }) moved
      ∙ ap
          (λ (s : Tables).
            add_postings (first_opening server n input) (second_opening server n input)
              (add_transaction (opening_transaction server input) s))
          elsewhere in
    record {
      system = system;
      found = ap (λ (s : Tables). lookup id s.accounts) (sym w₂) ∙ found;
      is_system = is_system;
      its_owner = its_owner;
      its_currency = its_currency;
      room = room;
      fresh =
          ap (λ (s : Tables). contains input.opening_transaction_id s.transactions)
            (sym (ap (λ (s : Tables). record s { accounts = [] }) w₄ ∙ elsewhere))
          ∙ fresh;
      accounts =
          ap (λ (s : Tables). s.accounts) moved
          ∙ ap
              (λ b.
                (set_balance id (sub64 b input.account.balance_minor)
                  (server.stamp input.account.created_at)
                  (with_accounts server input input.account.balance_minor t)).accounts)
              (sym its_balance);
      transactions = ap (λ (s : Tables). s.transactions) other;
      postings = ap (λ (s : Tables). s.postings) other;
      intents = ap (λ (s : Tables). s.intents) other;
    }
