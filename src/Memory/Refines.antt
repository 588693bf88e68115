-- ===== src/Memory/Refines.antt =====
-- The abstract ledger that the in-memory store holds; it keeps to the contract of a repository (Ledger).
pub mod Paid
pub mod Opening
pub mod Ledger
use secure_ledger.Prelude.{Option, none, some, string_Eq}
use secure_ledger.Prelude.Map.{lookup}
use secure_ledger.Domain.{Account, Transfer}
use secure_ledger.Contract.{View, Holding, Receipt, holding_of, receipt_of}
use secure_ledger.Memory.{Store, scope_Eq}

abbrev pub view_account : Option Account → Option Holding
view_account none = none
view_account (some a) = some (holding_of a)

abbrev pub view_transfer : Option Transfer → Option Receipt
view_transfer none = none
view_transfer (some t) = some (receipt_of t)

-- The ledger that a store holds.
abbrev pub view : Store → View
view s = record {
  accounts = λ id. view_account (lookup id s.accounts);
  paid = λ actor key. view_transfer (lookup (record { actor_id = actor; key = key }) s.idempotency);
}
