-- ===== src/Postgres/Rows.antt =====
-- The rows that `createAccountTx` and `applyTransferTx` of internal/store/postgres/store.go write.
use secure_ledger.Prelude.{
  ℕ, String, Bool, true, false, nat_Eq, Option, none, some, List, [], string_Eq,
}
use secure_ledger.Prelude.Int.{ℤ, pos}
use secure_ledger.Prelude.Int64.{neg64}
use secure_ledger.Prelude.Map.{Map}
use secure_ledger.Domain.{Account, AuditRecord, RiskEvent, Transfer, TransferIntent, Time, Value}
use secure_ledger.Store.{CreateAccountInput, ApplyTransferInput}
use secure_ledger.Memory.{system_account_id}
use secure_ledger.Postgres.Schema.{
  AccountRow, TransactionRow, PostingRow, IntentRow, AuditRow, RiskRow,
}

-- What the adapter relies on outside the repository: `stamp` is what a `timestamptz` column keeps of
-- a time, `marshal` the JSON of an actor and an intent, `sha256` its digest,
-- `decode` is what encoding/json reads from stored metadata, and `before` is the order of texts in SQL.
pub record Server : Type 0 where
  pub stamp : Time → Time
  pub marshal : String → TransferIntent → List ℕ
  pub sha256 : List ℕ → List ℕ
  pub decode : Map String Value → Option (Map String Value)
  pub before : String → String → Bool

-- `transferFingerprint`. `json.Marshal` does not fail on an actor and an intent.
abbrev pub transfer_fingerprint : Server → String → TransferIntent → List ℕ
transfer_fingerprint server actor intent = server.sha256 (server.marshal actor intent)

-- The numbers that the identity columns give to the two postings and the audit record of a
-- transaction. Any may be skipped, and they need not follow the order of the commits.
pub record Numbers : Type 0 where
  pub first : ℤ
  pub second : ℤ
  pub audit : ℤ

module _ (server : Server) where
  abbrev pub account_row : Account → ℤ → AccountRow
  account_row a balance = record {
    account = record a {
      balance_minor = balance;
      system = false;
      created_at = server.stamp a.created_at;
    };
    version = 0;
    updated_at = server.stamp a.created_at;
  }

  abbrev pub system_row : Account → AccountRow
  system_row a = record {
    account = record {
      id = system_account_id a.currency;
      owner_id = "system";
      currency = a.currency;
      balance_minor = pos 0;
      system = true;
      created_at = server.stamp a.created_at;
    };
    version = 0;
    updated_at = server.stamp a.created_at;
  }

  abbrev pub opening_transaction : CreateAccountInput → TransactionRow
  opening_transaction input = record {
    id = input.opening_transaction_id;
    kind = "opening";
    idempotency_key = none;
    actor_id = input.audit.actor_id;
    currency = input.account.currency;
    description = "Opening balance";
    expected_postings = 2;
    created_at = server.stamp input.account.created_at;
  }

  abbrev pub posting_row : String → String → String → ℤ → ℤ → Time → PostingRow
  posting_row id transaction account amount number now = record {
    id = id;
    transaction_id = transaction;
    account_id = account;
    amount_minor = amount;
    sequence_no = number;
    created_at = server.stamp now;
  }

  abbrev pub metadata_of : Option (Map String Value) → Map String Value
  metadata_of none = []
  metadata_of (some m) = m

  abbrev pub audit_row : ℤ → AuditRecord → AuditRow
  audit_row number a = record {
    sequence_no = number;
    id = a.id;
    actor_id = a.actor_id;
    action = a.action;
    resource_id = a.resource_id;
    outcome = a.outcome;
    metadata = metadata_of a.metadata;
    created_at = server.stamp a.created_at;
  }

  abbrev pub first_opening : Numbers → CreateAccountInput → PostingRow
  first_opening n input =
      posting_row input.opening_posting_ids.0 input.opening_transaction_id input.account.id
        input.account.balance_minor n.first input.account.created_at

  abbrev pub second_opening : Numbers → CreateAccountInput → PostingRow
  second_opening n input =
      posting_row input.opening_posting_ids.1 input.opening_transaction_id
        (system_account_id input.account.currency) (neg64 input.account.balance_minor) n.second
        input.account.created_at

  abbrev pub transfer_transaction : Transfer → Account → TransactionRow
  transfer_transaction t from = record {
    id = t.id;
    kind = "transfer";
    idempotency_key = some t.idempotency_key;
    actor_id = t.actor_id;
    currency = from.currency;
    description = t.intent.description;
    expected_postings = 2;
    created_at = server.stamp t.created_at;
  }

  abbrev pub intent_row : Transfer → Account → Account → IntentRow
  intent_row t from to = record {
    transaction_id = t.id;
    from_account_id = from.id;
    to_account_id = to.id;
    amount_minor = t.intent.amount_minor;
    request_fingerprint = transfer_fingerprint server t.actor_id t.intent;
  }

  abbrev pub first_posting : Numbers → ApplyTransferInput → Account → PostingRow
  first_posting n input from =
      posting_row input.posting_ids.0 input.transfer.id from.id
        (neg64 input.transfer.intent.amount_minor) n.first input.transfer.created_at

  abbrev pub second_posting : Numbers → ApplyTransferInput → Account → PostingRow
  second_posting n input to =
      posting_row input.posting_ids.1 input.transfer.id to.id input.transfer.intent.amount_minor
        n.second input.transfer.created_at

  abbrev pub risk_row : RiskEvent → Transfer → RiskRow
  risk_row e t = record {
    id = e.id;
    event_type = e.kind;
    severity = e.severity;
    transaction_id = t.id;
    reason = e.reason;
    status = "pending";
    attempts = 0;
    created_at = server.stamp e.created_at;
    available_at = server.stamp e.created_at;
    locked_at = none;
    published_at = none;
    last_error = none;
  }
