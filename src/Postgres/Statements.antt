-- ===== src/Postgres/Statements.antt =====
-- The statements of internal/store/postgres/store.go on the tables, with the constraints of
-- deploy/postgres/001_init.sql that they meet.
use Prim.Native.Nat.{ℕ, ◌+◌}
use text.Mathlib.Text.{starts_with}
use secure_ledger.Prelude.{
  String, count, Bool, true, false, not, ◌&&◌, ◌||◌, Option, none, some, List, [], ◌∷◌, ◌++◌,
  length, ltb, if◌then◌else◌, ◌==◌, string_Eq, nat_Eq, database, Done, ok, err, ◌>>◌, raise_if,
  ◌++ˢ◌,
}
use secure_ledger.Prelude.Int.{ℤ, pos, ltb_ℤ, leb_ℤ}
use secure_ledger.Prelude.Map.{Map, lookup, insert, contains}
use secure_ledger.Prelude.Exec.{Exec}
use secure_ledger.Domain.{Time, validate_currency}
use secure_ledger.Postgres.Schema.{
  Tables, AccountRow, TransactionRow, PostingRow, IntentRow, AuditRow, RiskRow,
}

-- `check_violation`, `unique_violation` and `foreign_key_violation`, of a constraint.
abbrev pub checked : Bool → String → Done
checked holds name = raise_if (not holds) (database "23514" name)

abbrev pub unique : Bool → String → Done
unique taken name = raise_if taken (database "23505" name)

abbrev pub refers : Bool → String → Done
refers known name = raise_if (not known) (database "23503" name)

-- `length(s) BETWEEN 1 AND most`
abbrev sized : ℕ → String → Bool
sized most s = not (count s == 0) && not (ltb most (count s))

-- `currency::text ~ '^[A-Z]{3}$'`
abbrev accepts : Done → Bool
accepts (ok _) = true
accepts (err _) = false

-- A statement that writes: its constraints hold and the row is written, or it fails with the first
-- one that does not and nothing is written.
abbrev pub written : Done → Tables → Tables → Done × Tables
written (ok _) t' t = (ok tt, t')
written (err e) t' t = (err e, t)

unfoldable pub statement : (Tables → Done) → (Tables → Tables) → Exec Tables Unit
statement check write t = written (check t) (write t) t

-- The CHECK constraints of `accounts`.
unfoldable pub check_account_row : AccountRow → Done
check_account_row r =
    checked
      (accepts (validate_currency r.account.currency)
        && sized 128 r.account.id
        && sized 128 r.account.owner_id
        && (r.account.system || leb_ℤ (pos 0) r.account.balance_minor)
        && (not r.account.system || r.account.owner_id == "system")
        && (if r.account.system
            then r.account.id == ("system:equity:" ++ˢ r.account.currency)
            else not (starts_with r.account.id "system:")))
      "accounts_check"

abbrev pub add_account : AccountRow → Tables → Tables
add_account r t = record t { accounts = insert r.account.id r t.accounts }

unfoldable pub insert_account : AccountRow → Exec Tables Unit
insert_account r =
    statement
      (λ t. check_account_row r >> unique (contains r.account.id t.accounts) "accounts_pkey")
      (add_account r)

abbrev pub add_account_if_new : AccountRow → Tables → Tables
add_account_if_new r t = if contains r.account.id t.accounts then t else add_account r t

-- `INSERT INTO accounts ... ON CONFLICT (id) DO NOTHING`
unfoldable pub insert_account_if_new : AccountRow → Exec Tables Unit
insert_account_if_new r = statement (λ t. check_account_row r) (add_account_if_new r)

-- The row of an `UPDATE accounts SET balance_minor = ..., version = version + 1, updated_at = ...`.
abbrev pub with_balance : ℤ → Time → AccountRow → AccountRow
with_balance balance now r = record {
  account = record r.account { balance_minor = balance };
  version = r.version + 1;
  updated_at = now;
}

abbrev check_update : Option AccountRow → ℤ → Time → Done
check_update none balance now = ok tt
check_update (some r) balance now = check_account_row (with_balance balance now r)

abbrev pub set_row : Option AccountRow → ℤ → Time → Map String AccountRow → Map String AccountRow
set_row none balance now rows = rows
set_row (some r) balance now rows = insert r.account.id (with_balance balance now r) rows

abbrev pub set_balance : String → ℤ → Time → Tables → Tables
set_balance id balance now t = record t {
  accounts = set_row (lookup id t.accounts) balance now t.accounts;
}

unfoldable pub update_balance : String → ℤ → Time → Exec Tables Unit
update_balance id balance now =
    statement (λ t. check_update (lookup id t.accounts) balance now) (set_balance id balance now)

-- `UNIQUE (actor_id, idempotency_key)`, where no NULL equals another.
abbrev pub has_key : String → Option String → Map String TransactionRow → Bool
has_key actor none rows = false
has_key actor (some key) [] = false
has_key actor (some key) ((_, r) ∷ rows) =
    r.actor_id == actor && elim r.idempotency_key [ none ↦ false | some k ↦ k == key ]
    || has_key actor (some key) rows

-- The last CHECK of `journal_transactions`.
abbrev keyed_rightly : String → Option String → Bool
keyed_rightly kind none = kind == "opening"
keyed_rightly kind (some key) =
    kind == "transfer" && not (ltb (count key) 8) && not (ltb 128 (count key))

unfoldable pub check_transaction_row : TransactionRow → Done
check_transaction_row r =
    checked
      (accepts (validate_currency r.currency)
        && not (ltb 200 (count r.description))
        && not (ltb r.expected_postings 2)
        && sized 128 r.id
        && sized 128 r.actor_id
        && keyed_rightly r.kind r.idempotency_key)
      "journal_transactions_check"

abbrev pub add_transaction : TransactionRow → Tables → Tables
add_transaction r t = record t { transactions = insert r.id r t.transactions }

unfoldable pub insert_transaction : TransactionRow → Exec Tables Unit
insert_transaction r =
    statement
      (λ t.
        check_transaction_row r
        >> (unique (contains r.id t.transactions) "journal_transactions_pkey"
            >> unique (has_key r.actor_id r.idempotency_key t.transactions)
                "journal_transactions_actor_id_idempotency_key_key"))
      (add_transaction r)

abbrev pub has_posting : PostingRow → List PostingRow → Bool
has_posting r [] = false
has_posting r (p ∷ ps) =
    p.id == r.id
    || p.transaction_id == r.transaction_id && p.account_id == r.account_id
    || has_posting r ps

unfoldable pub check_posting_row : PostingRow → Tables → Done
check_posting_row r t =
    checked (not (leb_ℤ r.amount_minor (pos 0) && leb_ℤ (pos 0) r.amount_minor) && sized 128 r.id)
      "postings_check"
    >> (unique (has_posting r t.postings) "postings_pkey"
        >> (refers (contains r.transaction_id t.transactions) "postings_transaction_id_fkey"
            >> refers (contains r.account_id t.accounts) "postings_account_id_fkey"))

abbrev pub add_posting : PostingRow → Tables → Tables
add_posting r t = record t { postings = t.postings ++ r ∷ [] }

abbrev pub add_postings : PostingRow → PostingRow → Tables → Tables
add_postings p q t = record t { postings = t.postings ++ p ∷ q ∷ [] }

-- The two rows of one INSERT.
unfoldable pub insert_postings : PostingRow → PostingRow → Exec Tables Unit
insert_postings p q =
    statement (λ t. check_posting_row p t >> check_posting_row q (add_posting p t))
      (add_postings p q)

abbrev pub add_intent : IntentRow → Tables → Tables
add_intent r t = record t { intents = insert r.transaction_id r t.intents }

unfoldable pub insert_intent : IntentRow → Exec Tables Unit
insert_intent r =
    statement
      (λ t.
        checked
          (ltb_ℤ (pos 0) r.amount_minor
            && length r.request_fingerprint == 32
            && not (r.from_account_id == r.to_account_id))
          "transfer_intents_check"
        >> (unique (contains r.transaction_id t.intents) "transfer_intents_pkey"
            >> (refers (contains r.transaction_id t.transactions)
                  "transfer_intents_transaction_id_fkey"
                >> (refers (contains r.from_account_id t.accounts)
                      "transfer_intents_from_account_id_fkey"
                    >> refers (contains r.to_account_id t.accounts)
                        "transfer_intents_to_account_id_fkey"))))
      (add_intent r)

abbrev pub has_audit : String → List AuditRow → Bool
has_audit id [] = false
has_audit id (r ∷ rs) = r.id == id || has_audit id rs

abbrev pub add_audit : AuditRow → Tables → Tables
add_audit r t = record t { audits = t.audits ++ r ∷ [] }

unfoldable pub insert_audit_row : AuditRow → Exec Tables Unit
insert_audit_row r =
    statement
      (λ t.
        checked
          (sized 128 r.id
            && sized 128 r.actor_id
            && sized 128 r.action
            && sized 128 r.resource_id
            && sized 64 r.outcome)
          "audit_records_check"
        >> unique (has_audit r.id t.audits) "audit_records_id_key")
      (add_audit r)

abbrev pub add_risk : RiskRow → Tables → Tables
add_risk r t = record t { risks = insert r.id r t.risks }

-- The CHECK constraints of `risk_events`.
unfoldable pub check_risk_row : RiskRow → Done
check_risk_row r =
    checked
      ((r.severity == "low"
          || r.severity == "medium"
          || r.severity == "high"
          || r.severity == "critical")
        && sized 128 r.id
        && sized 64 r.event_type
        && sized 500 r.reason)
      "risk_events_check"

unfoldable pub insert_risk_row : RiskRow → Exec Tables Unit
insert_risk_row r =
    statement
      (λ t.
        check_risk_row r
        >> (unique (contains r.id t.risks) "risk_events_pkey"
            >> refers (contains r.transaction_id t.transactions) "risk_events_transaction_id_fkey"))
      (add_risk r)
