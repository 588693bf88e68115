-- ===== src/Memory/State.antt =====
-- The fields of the in-memory `Store`. Its mutex makes every method one atomic step, so a method is
-- a function of the state.
use secure_ledger.Prelude.{
  String, ◌≡◌, ◌↔◌, Bool, true, ◌&&◌, List, [], arith, eq_iff, Eq, ◌==◌, string_Eq,
}
use secure_ledger.Prelude.Int.{ℤ, pos}
use secure_ledger.Prelude.Map.{Map}
use secure_ledger.Domain.{Account, Transfer, Posting, AuditRecord, RiskEvent}

-- `idempotencyScope`
pub record Scope : Type 0 where
  pub actor_id : String
  pub key : String

abbrev pub scope_eq : Scope → Scope → Bool
scope_eq a b = a.actor_id == b.actor_id && a.key == b.key

pub scope_eq_iff : (a b : Scope) → (scope_eq a b ≡ true) ↔ (a ≡ b)
scope_eq_iff a b = ground (arith, eq_iff a.actor_id b.actor_id, eq_iff a.key b.key)

instance abbrev pub scope_Eq : Eq Scope
scope_Eq = record { beq = scope_eq; beq_iff = scope_eq_iff }

-- `Store`, without its mutex. The value of `idempotency` is the one field of `idempotencyRecord`.
pub record Store : Type 0 where
  pub accounts : Map String Account
  pub idempotency : Map Scope Transfer
  pub transactions : Map String Unit
  pub postings : Map String Unit
  pub audits : Map String Unit
  pub risks : Map String Unit
  pub journal : List Posting
  pub audit : List AuditRecord
  pub risk : List RiskEvent
  pub sequence : ℤ

-- `New`
abbrev pub new : Store
new = record {
  accounts = [];
  idempotency = [];
  transactions = [];
  postings = [];
  audits = [];
  risks = [];
  journal = [];
  audit = [];
  risk = [];
  sequence = pos 0;
}
