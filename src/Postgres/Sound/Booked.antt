-- ===== src/Postgres/Sound/Booked.antt =====
-- What `applyTransferTx` has done when it books a new transfer.
use secure_ledger.Prelude.{
  String, ◌≡◌, ◌≢◌, refl, sym, ap, ◌∙◌, true, false, none, some, [], ◌∷◌, ◌++◌, Bool-cases, inl,
  inr, arith, eq_iff, string_Eq, ◌==◌, Result, Done, ok, err, Bool, raise_if, invalid_input,
  >>=-eq-ok, Option,
}
use secure_ledger.Prelude.Int.{◌≤ℤ◌}
use secure_ledger.Prelude.Int64.{max_int64, add64, sub64}
use secure_ledger.Prelude.Map.{lookup, insert, contains}
use secure_ledger.Prelude.Exec.{pure, >>=-runs}
use secure_ledger.Domain.{Account, Transfer, RiskEvent}
use secure_ledger.Store.{ApplyTransferInput, TransferResult}
use secure_ledger.Postgres.{
  Server, Numbers, Tables, AccountRow, TransactionRow, written, statement, insert_transaction,
  insert_intent, update_balance, insert_postings, insert_audit_row, insert_audit, insert_risk,
  insert_risk_row, record_transfer, transfer_transaction, intent_row, first_posting, second_posting,
  audit_row, find_accounts, check_accounts, customer, both, set_balance, add_postings, has_key,
  check_transaction_row, unique, add_transaction, add_intent, add_audit,
}

-- A statement that succeeds has its constraints and writes its row.
pub statement-ok :
    (check : Tables → Done) (write : Tables → Tables) (t t' : Tables) {u : Unit {0}}
    → statement check write t ≡ (ok u, t')
    → (check t ≡ ok tt) × (t' ≡ write t)
unfolding statement
statement-ok check write t t' {u} h = go (check t) refl h
  where
    go :
        (d : Done)
        → check t ≡ d
        → written d (write t) t ≡ (ok u, t')
        → (check t ≡ ok tt) × (t' ≡ write t)
    go (ok _) e h' = (e, sym (ap (λ x. x.1) h'))
    go (err c) e h' = cc

-- The accounts of a transfer that passes the tests.
pub record AreAccounts (t : Transfer) (s : Tables) (from to : Account) : Type 0 where
  pub from_row : AccountRow
  pub to_row : AccountRow
  pub from_found : lookup t.intent.from_account_id s.accounts ≡ some from_row
  pub to_found : lookup t.intent.to_account_id s.accounts ≡ some to_row
  pub from_account : from_row.account ≡ from
  pub to_account : to_row.account ≡ to
  pub from_customer : from.system ≡ false
  pub to_customer : to.system ≡ false
  pub distinct : t.intent.from_account_id ≢ t.intent.to_account_id
  pub one_currency : from.currency ≡ to.currency
  pub its_currency : from.currency ≡ t.currency
  pub covered : t.intent.amount_minor ≤ℤ from.balance_minor
  pub room : to.balance_minor ≤ℤ sub64 max_int64 t.intent.amount_minor

customer_found :
    (server : Server) (o : Option AccountRow) (a : Account)
    → customer server o ≡ some a
    → (r : AccountRow) × (o ≡ some r) × (r.account ≡ a) × (a.system ≡ false)
customer_found server none a h = cc
customer_found server (some r) a h = elim (Bool-cases r.account.system) [
  | inl system ↦ ground arith
  | inr outside ↦ (r, refl, ground arith, ground arith)
]

both-ok :
    (server : Server) (x y : Option Account) (a b : Account)
    → both server x y ≡ ok (a, b)
    → (x ≡ some a) × (y ≡ some b)
both-ok server (some x) (some y) a b h = ground arith
both-ok server (some x) none a b h = cc
both-ok server none y a b h = cc

-- What the tests on the accounts say.
check_accounts-ok :
    (server : Server) (t : Transfer) (from to : Account)
    → check_accounts server t (from, to) ≡ ok tt
    → (from.currency ≡ to.currency)
      × (from.currency ≡ t.currency)
      × (t.intent.amount_minor ≤ℤ from.balance_minor)
      × (to.balance_minor ≤ℤ sub64 max_int64 t.intent.amount_minor)
unfolding check_accounts
check_accounts-ok server t from to h =
    ground (arith, eq_iff from.currency to.currency, eq_iff from.currency t.currency)

pub find_accounts-AreAccounts :
    (server : Server) (t : Transfer) (s : Tables) (from to : Account)
    → find_accounts server t s ≡ ok (from, to)
    → AreAccounts t s from to
unfolding find_accounts
find_accounts-AreAccounts server t s from to h =
    let (_, other, h₁) =
      >>=-eq-ok (raise_if (t.intent.from_account_id == t.intent.to_account_id) invalid_input) _ h in
    let (pair, found, h₂) =
      >>=-eq-ok
        (both server (customer server (lookup t.intent.from_account_id s.accounts))
          (customer server (lookup t.intent.to_account_id s.accounts)))
        _ h₁ in
    let (_, passed, h₃) = >>=-eq-ok (check_accounts server t pair) _ h₂ in
    let same : pair ≡ (from, to) = ground arith in
    let (x, y) = both-ok server _ _ from to (found ∙ ap ok same) in
    let (from_row, from_found, from_account, from_customer) = customer_found server _ from x in
    let (to_row, to_found, to_account, to_customer) = customer_found server _ to y in
    let (one, its, covered, room) =
      check_accounts-ok server t from to (ap (check_accounts server t) (sym same) ∙ passed) in
    record {
      from_row = from_row;
      to_row = to_row;
      from_found = from_found;
      to_found = to_found;
      from_account = from_account;
      to_account = to_account;
      from_customer = from_customer;
      to_customer = to_customer;
      distinct = λ e. ground (arith, eq_iff t.intent.from_account_id t.intent.to_account_id);
      one_currency = one;
      its_currency = its;
      covered = covered;
      room = room;
    }

-- A new transfer, booked: the tables after it.
pub record IsBooked (server : Server) (n : Numbers) (input : ApplyTransferInput) (from to : Account)
    (t t' : Tables) : Type 0 where
  pub fresh : contains input.transfer.id t.transactions ≡ false
  pub unkeyed :
      has_key input.transfer.actor_id (some input.transfer.idempotency_key) t.transactions ≡ false
  pub accounts :
      t'.accounts
      ≡ (set_balance to.id
          (add64 to.balance_minor input.transfer.intent.amount_minor)
          (server.stamp input.transfer.created_at)
          (set_balance from.id
            (sub64 from.balance_minor input.transfer.intent.amount_minor)
            (server.stamp input.transfer.created_at)
            t)).accounts
  pub transactions :
      t'.transactions
      ≡ insert input.transfer.id (transfer_transaction server input.transfer from) t.transactions
  pub postings :
      t'.postings
      ≡ t.postings ++ first_posting server n input from ∷ second_posting server n input to ∷ []
  pub intents :
      t'.intents ≡ insert input.transfer.id (intent_row server input.transfer from to) t.intents
  pub audits : t'.audits ≡ t.audits ++ audit_row server n.audit input.audit ∷ []

-- The outbox row is in no other table.
insert_risk-ok :
    (server : Server) (risk : Option RiskEvent) (x : Transfer) (t t' : Tables) {u : Unit {0}}
    → insert_risk server risk x t ≡ (ok u, t')
    → record t' { risks = [] } ≡ record t { risks = [] }
unfolding insert_risk insert_risk_row pure
insert_risk-ok server none x t t' h = ap (λ (m : Done × Tables). record m.1 { risks = [] }) (sym h)
insert_risk-ok server (some e) x t t' h =
    ap (λ (s : Tables). record s { risks = [] }) (statement-ok _ _ t t' h).1

pub not_taken : (taken : Bool) (name : String) → unique taken name ≡ ok tt → taken ≡ false
not_taken true name h = cc
not_taken false name h = refl

pub fresh_transaction :
    (r : TransactionRow) (t t' : Tables) {u : Unit {0}}
    → insert_transaction r t ≡ (ok u, t')
    → (contains r.id t.transactions ≡ false)
      × (has_key r.actor_id r.idempotency_key t.transactions ≡ false)
      × (t' ≡ add_transaction r t)
unfolding insert_transaction
fresh_transaction r t t' h =
    let (c, w) = statement-ok _ _ t t' h in
    let (_, _, c₁) = >>=-eq-ok (check_transaction_row r) _ c in
    let (_, id, c₂) =
      >>=-eq-ok (unique (contains r.id t.transactions) "journal_transactions_pkey") _ c₁ in
    (not_taken _ _ id, not_taken _ _ c₂, w)

pub record_transfer-IsBooked :
    (server : Server) (n : Numbers) (input : ApplyTransferInput) (from to : Account) (t t' : Tables)
    (r : TransferResult)
    → record_transfer server n input (from, to) t ≡ (ok r, t')
    → IsBooked server n input from to t t'
      × (r ≡ record { transfer = input.transfer; replayed = false })
unfolding record_transfer insert_intent update_balance insert_postings insert_audit insert_audit_row
    pure
record_transfer-IsBooked server n input from to t t' r h =
    let (_, t₁, m₁, h₁) = >>=-runs _ _ t h in
    let (_, t₂, m₂, h₂) = >>=-runs _ _ t₁ h₁ in
    let (_, t₃, m₃, h₃) = >>=-runs _ _ t₂ h₂ in
    let (_, t₄, m₄, h₄) = >>=-runs _ _ t₃ h₃ in
    let (_, t₅, m₅, h₅) = >>=-runs _ _ t₄ h₄ in
    let (_, t₆, m₆, h₆) = >>=-runs _ _ t₅ h₅ in
    let (_, t₇, m₇, h₇) = >>=-runs _ _ t₆ h₆ in
    let (fresh, unkeyed, w₁) = fresh_transaction _ t t₁ m₁ in
    let w₂ =
      (statement-ok _ _ t₁ t₂ m₂).1
      ∙ ap (add_intent (intent_row server input.transfer from to)) w₁ in
    let now = server.stamp input.transfer.created_at in
    let w₃ =
      (statement-ok _ _ t₂ t₃ m₃).1
      ∙ ap (set_balance from.id (sub64 from.balance_minor input.transfer.intent.amount_minor) now)
          w₂ in
    let w₄ =
      (statement-ok _ _ t₃ t₄ m₄).1
      ∙ ap (set_balance to.id (add64 to.balance_minor input.transfer.intent.amount_minor) now) w₃ in
    let w₅ =
      (statement-ok _ _ t₄ t₅ m₅).1
      ∙ ap (add_postings (first_posting server n input from) (second_posting server n input to))
          w₄ in
    let w₆ =
      (statement-ok _ _ t₅ t₆ m₆).1 ∙ ap (add_audit (audit_row server n.audit input.audit)) w₅ in
    let w =
      ap (λ (x : Result TransferResult × Tables). record x.1 { risks = [] }) (sym h₇)
      ∙ insert_risk-ok server input.risk input.transfer t₆ t₇ m₇
      ∙ ap (λ (s : Tables). record s { risks = [] }) w₆ in
    (
      record {
        fresh = fresh;
        unkeyed = unkeyed;
        accounts = ap (λ (s : Tables). s.accounts) w;
        transactions = ap (λ (s : Tables). s.transactions) w;
        postings = ap (λ (s : Tables). s.postings) w;
        intents = ap (λ (s : Tables). s.intents) w;
        audits = ap (λ (s : Tables). s.audits) w;
      },
      ground arith,
    )
