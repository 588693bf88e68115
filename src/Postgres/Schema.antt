-- ===== src/Postgres/Schema.antt =====
-- The tables of deploy/postgres/001_init.sql that the adapter reads and writes. A table with a primary key is a map by it; postings and
-- audit records stand in the order of their insertion.
use Prim.Native.Nat.{ℕ}
use secure_ledger.Prelude.{String, Option, List, [], string_Eq, nat_Eq}
use secure_ledger.Prelude.Int.{ℤ}
use secure_ledger.Prelude.Map.{Map}
use secure_ledger.Domain.{Account, Value, Time}

pub record AccountRow : Type 0 where
  pub account : Account
  pub version : ℕ
  pub updated_at : Time

pub record TransactionRow : Type 0 where
  pub id : String
  pub kind : String
  pub idempotency_key : Option String
  pub actor_id : String
  pub currency : String
  pub description : String
  pub expected_postings : ℕ
  pub created_at : Time

pub record PostingRow : Type 0 where
  pub id : String
  pub transaction_id : String
  pub account_id : String
  pub amount_minor : ℤ
  pub sequence_no : ℤ
  pub created_at : Time

pub record IntentRow : Type 0 where
  pub transaction_id : String
  pub from_account_id : String
  pub to_account_id : String
  pub amount_minor : ℤ
  pub request_fingerprint : List ℕ

pub record AuditRow : Type 0 where
  pub sequence_no : ℤ
  pub id : String
  pub actor_id : String
  pub action : String
  pub resource_id : String
  pub outcome : String
  pub metadata : Map String Value
  pub created_at : Time

-- The columns of `risk_events` beside the event's own; `status` is one of four texts.
pub record RiskRow : Type 0 where
  pub id : String
  pub event_type : String
  pub severity : String
  pub transaction_id : String
  pub reason : String
  pub status : String
  pub attempts : ℕ
  pub created_at : Time
  pub available_at : Time
  pub locked_at : Option Time
  pub published_at : Option Time
  pub last_error : Option String

pub record Tables : Type 0 where
  pub accounts : Map String AccountRow
  pub transactions : Map String TransactionRow
  pub postings : List PostingRow
  pub intents : Map String IntentRow
  pub audits : List AuditRow
  pub risks : Map String RiskRow

-- After the migration.
abbrev pub migrated : Tables
migrated = record {
  accounts = [];
  transactions = [];
  postings = [];
  intents = [];
  audits = [];
  risks = [];
}
