-- ===== src/Domain/Model.antt =====
-- The types of internal/domain/model.go. A `time.Time` is the number of nanoseconds since Go's
-- zero time, the first instant of year 1; no earlier instant is modelled, and `UTC()` does not
-- move an instant.
use Prim.Native.Nat.{ℕ}
use Prim.Native.String.{String}
use mathlib.Core.Bool.{Bool}
use mathlib.Core.Option.{Option}
use secure_ledger.Prelude.Int.{ℤ}
use secure_ledger.Prelude.Map.{Map}

abbrev pub Time : Type 0
Time = ℕ

-- `Role` is a string type: a role may hold any text.
abbrev pub Role : Type 0
Role = String

abbrev pub role_customer : Role
role_customer = "customer"

abbrev pub role_operator : Role
role_operator = "operator"

abbrev pub role_admin : Role
role_admin = "admin"

abbrev pub role_auditor : Role
role_auditor = "auditor"

pub record Principal : Type 0 where
  pub id : String
  pub role : Role

pub record Account : Type 0 where
  pub id : String
  pub owner_id : String
  pub currency : String
  pub balance_minor : ℤ
  pub system : Bool
  pub created_at : Time

pub record TransferIntent : Type 0 where
  pub from_account_id : String
  pub to_account_id : String
  pub amount_minor : ℤ
  pub description : String

pub record Transfer : Type 0 where
  pub id : String
  pub idempotency_key : String
  pub intent : TransferIntent
  pub currency : String
  pub actor_id : String
  pub created_at : Time

pub record Posting : Type 0 where
  pub id : String
  pub transaction_id : String
  pub account_id : String
  pub amount_minor : ℤ
  pub currency : String
  pub sequence : ℤ
  pub created_at : Time

-- The values of `map[string]any` that the program stores.
pub data Value : Type 0 where
  text : String → Value
  number : ℤ → Value

pub record AuditRecord : Type 0 where
  pub id : String
  pub actor_id : String
  pub action : String
  pub resource_id : String
  pub outcome : String
  pub metadata : Option (Map String Value)
  pub created_at : Time

pub record RiskEvent : Type 0 where
  pub id : String
  pub kind : String
  pub severity : String
  pub transfer_id : String
  pub reason : String
  pub created_at : Time
