-- ===== src/Store.antt =====
-- internal/store/store.go: what a repository is given and returns, and its interface.
use secure_ledger.Prelude.{String, Bool, Option, List, Context}
use secure_ledger.Prelude.Int.{ℤ}
use secure_ledger.Prelude.Exec.{Exec}
use secure_ledger.Domain.{Account, AuditRecord, Transfer, RiskEvent, Posting}

pub record CreateAccountInput : Type 0 where
  pub account : Account
  pub opening_transaction_id : String
  pub opening_posting_ids : String × String
  pub audit : AuditRecord

pub record ApplyTransferInput : Type 0 where
  pub transfer : Transfer
  pub posting_ids : String × String
  pub audit : AuditRecord
  pub risk : Option RiskEvent

pub record TransferResult : Type 0 where
  pub transfer : Transfer
  pub replayed : Bool

-- The operations of a repository whose state is an `S`. An `int` limit is an integer.
pub record Repository (S : Type 0) : Type 0 where
  pub ping : Context → Exec S Unit
  pub create_account : Context → CreateAccountInput → Exec S Unit
  pub get_account : Context → String → Exec S Account
  pub apply_transfer : Context → ApplyTransferInput → Exec S TransferResult
  pub list_journal : Context → ℤ → Exec S (List Posting)
  pub list_audit : Context → ℤ → Exec S (List AuditRecord)
  pub list_risk_events : Context → ℤ → Exec S (List RiskEvent)
