-- ===== src/Postgres/Refines.antt =====
-- The abstract ledger that the PostgreSQL tables hold; the adapter keeps to the contract of a repository
-- (Ledger).
pub mod Keys
pub mod Paid
pub mod Opening
pub mod Others
pub mod Ledger
pub mod Contracted
use secure_ledger.Prelude.{String, Option, none, some, string_Eq}
use secure_ledger.Prelude.Map.{lookup}
use secure_ledger.Contract.{View, Holding, Receipt, holding_of, receipt_of}
use secure_ledger.Postgres.{
  Server, Tables, AccountRow, TransactionRow, IntentRow, stored_transfer, find_rows,
}

abbrev pub view_row : Option AccountRow → Option Holding
view_row none = none
view_row (some r) = some (holding_of r.account)

module _ (server : Server) where
  abbrev pub view_rows : String → Option (TransactionRow × IntentRow) → Option Receipt
  view_rows key none = none
  view_rows key (some (r, i)) = some (receipt_of (stored_transfer server r key i))

  -- The ledger that the tables hold.
  abbrev pub view : Tables → View
  view t = record {
    accounts = λ id. view_row (lookup id t.accounts);
    paid = λ actor key. view_rows key (find_rows server actor key t.transactions t.intents);
  }
