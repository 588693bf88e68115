-- ===== src/Postgres/Tests/Bank.antt =====
-- The data of the tests: a server, and the tables after two openings and a payment.
use Prim.Native.Nat.{ℕ, ◌+◌, ◌/◌, ◌*◌}
use secure_ledger.Prelude.{count, some, List, [], ◌∷◌, arith, All, ltb, string_Eq}
use secure_ledger.Prelude.Int.{pos, ◌+ℤ◌, ◌-ℤ◌}
use secure_ledger.Prelude.Int64.{add64, sub64, neg64, wrap64}
use secure_ledger.Prelude.Map.{lookup, insert, contains}
use secure_ledger.Prelude.Text.{is_blank}
use secure_ledger.Prelude.Exec.{pure, lift, asks, gets, ◌>>=◌}
use secure_ledger.Domain.{
  validate_balanced, sum_postings, validate_audit_record, validate_risk_event, validate_currency,
  intent_equal,
}
use secure_ledger.Store.{ApplyTransferInput}
use secure_ledger.Memory.{system_account_id}
use secure_ledger.Memory.Tests.Bank.{opening, payment}
use secure_ledger.Postgres.{
  Server, Numbers, Tables, migrated, statement, check_account_row, insert_account,
  insert_account_if_new, update_balance, check_transaction_row, insert_transaction,
  check_posting_row, insert_postings, insert_intent, insert_audit_row, check_risk_row,
  insert_risk_row, validate_create_account, validate_transfer, is_retryable, is_idempotency_race,
  map_database_error, find_idempotent_transfer, check_intent, check_accounts, find_accounts,
  insert_audit, insert_opening, open_if, create_account_tx, insert_risk, record_transfer, answer,
  apply_transfer_tx, retry, create_account, apply_transfer,
}
use secure_ledger.Postgres.Sound.{IsSound}
use secure_ledger.Postgres.Sound.Actions.{Action, creates, IsTyped, acts, acts-migrated-IsSound}

abbrev digest : List ℕ → List ℕ
digest [] = []
digest (n ∷ ns) =
    n ∷ 0 ∷ 0 ∷ 0 ∷ 0 ∷ 0 ∷ 0 ∷ 0 ∷ 0 ∷ 0 ∷ 0 ∷ 0 ∷ 0 ∷ 0 ∷ 0 ∷ 0 ∷ 0 ∷ 0 ∷ 0 ∷ 0 ∷ 0 ∷ 0 ∷ 0 ∷ 0
    ∷ 0 ∷ 0 ∷ 0 ∷ 0 ∷ 0 ∷ 0 ∷ 0 ∷ 0 ∷ []

-- A server whose columns keep every second instant.
abbrev pub sample : Server
sample = record {
  stamp = λ t. t / 2 * 2;
  marshal = λ actor intent. count intent.description ∷ [];
  sha256 = digest;
  decode = some;
  before = λ a b. ltb (count a) (count b);
}

abbrev pub numbers : ℕ → Numbers
numbers n = record { first = pos n; second = pos (n + 1); audit = pos n }

abbrev pub history : List Action
history =
    creates (numbers 1) (opening "acct_a" "post_a" (pos 100))
    ∷ creates (numbers 3) (opening "acct_b" "post_b" (pos 0))
    ∷ []

abbrev pub bank : Tables
bank = acts sample history migrated

pub history-IsTyped : All IsTyped history
history-IsTyped = omega arith

pub bank-IsSound : IsSound sample bank
bank-IsSound = acts-migrated-IsSound sample history history-IsTyped

abbrev pub paid : ApplyTransferInput
paid = payment "txn_1" "key-0001" (pos 30)

-- What a run by evaluation looks through.
unfoldable pub everything : Unit {0}
unfolding statement check_account_row insert_account insert_account_if_new update_balance
    check_transaction_row insert_transaction check_posting_row insert_postings insert_intent
    insert_audit_row check_risk_row insert_risk_row validate_create_account validate_transfer
    is_retryable is_idempotency_race map_database_error find_idempotent_transfer check_intent
    check_accounts find_accounts insert_audit insert_opening open_if create_account_tx insert_risk
    record_transfer answer apply_transfer_tx retry create_account apply_transfer validate_balanced
    sum_postings validate_audit_record validate_risk_event validate_currency intent_equal is_blank
    lookup insert contains add64 sub64 neg64 wrap64 ◌+ℤ◌ ◌-ℤ◌ system_account_id pure lift asks gets
    ◌>>=◌
everything = tt
