-- ===== src/Postgres/Tests/Listings.antt =====
-- A listing of the tables of the tests.
use Prim.Native.Nat.{min}
use mathlib.Core.List.{Perm}
use secure_ledger.Prelude.{◌≡◌, none, ok, List, ◌++◌, length, string_Eq}
use secure_ledger.Prelude.Int.{pos}
use secure_ledger.Domain.{Posting}
use secure_ledger.Memory.{normalise_limit}
use secure_ledger.Postgres.{list_journal, join_postings}
use secure_ledger.Postgres.Listing.{Ascending, Precede, list_journal-newest}
use secure_ledger.Postgres.Tests.Bank.{sample, bank, bank-IsSound}

list_journal-newest_example :
    (items older : List Posting) × (list_journal sample none (pos 1) bank ≡ (ok items, bank))
    × Perm (older ++ items) (join_postings bank.transactions bank.postings)
    × Ascending items
    × Precede older items
    × (length items ≡ min (normalise_limit (pos 1)) (length bank.postings))
list_journal-newest_example = list_journal-newest sample (pos 1) bank bank-IsSound
