-- ===== src/Postgres/Sound.antt =====
-- The invariant of the PostgreSQL tables: the balances and the transactions agree with the postings.
pub mod Postings
pub mod Booked
pub mod Entry
pub mod Moved
pub mod Accounts
pub mod Opened
pub mod Funded
pub mod Kept
pub mod Actions
use secure_ledger.Prelude.{
  String, ℕ, suc, ◌+◌, ◌≡◌, Bool, true, false, Option, none, some, List, [], ◌∷◌, ◌==◌, string_Eq,
  if◌then◌else◌,
}
use secure_ledger.Prelude.Int.{ℤ, pos, ◌+ℤ◌, ◌≤ℤ◌}
use secure_ledger.Prelude.Int64.{IsInt64}
use secure_ledger.Prelude.Map.{Map, lookup, contains, Distinct}
use secure_ledger.Postgres.Reconcile.{posted, posting_count, posting_sum}
use secure_ledger.Postgres.{
  transfer_fingerprint, Server, Tables, AccountRow, TransactionRow, PostingRow, IntentRow,
  stored_transfer,
}

-- The balance of an account id; an unknown account holds nothing.
abbrev pub row_balance : Option AccountRow → ℤ
row_balance none = pos 0
row_balance (some r) = r.account.balance_minor

abbrev pub balance_of : String → Map String AccountRow → ℤ
balance_of id accounts = row_balance (lookup id accounts)

-- The postings of a transaction are as many as it expects, and cancel out.
pub record IsBalanced (r : TransactionRow) (ps : List PostingRow) : Type 0 where
  pub complete : posting_count r.id ps ≡ r.expected_postings
  pub cancels : posting_sum r.id ps ≡ pos 0

pub record IsSound (server : Server) (t : Tables) : Type 0 where
  -- Primary keys: one row for each key, stored under it.
  pub one_account : Distinct t.accounts
  pub one_transaction : Distinct t.transactions
  pub keyed : (id : String) (r : AccountRow) → lookup id t.accounts ≡ some r → r.account.id ≡ id
  pub transactions_keyed :
      (id : String) (r : TransactionRow) → lookup id t.transactions ≡ some r → r.id ≡ id
  -- Balances are int64 values, and only a system account may be overdrawn.
  pub in_range :
      (id : String) (r : AccountRow)
      → lookup id t.accounts ≡ some r
      → IsInt64 r.account.balance_minor
  pub solvent :
      (id : String) (r : AccountRow)
      → lookup id t.accounts ≡ some r
      → r.account.system ≡ false
      → pos 0 ≤ℤ r.account.balance_minor
  -- Every balance is the sum of the account's postings.
  pub reconciled : (id : String) → balance_of id t.accounts ≡ posted id t.postings
  pub balanced :
      (id : String) (r : TransactionRow)
      → lookup id t.transactions ≡ some r
      → IsBalanced r t.postings
  -- A posting belongs to a transaction, and so does an intent.
  pub unposted :
      (id : String) → contains id t.transactions ≡ false → posting_count id t.postings ≡ 0
  pub unintended :
      (id : String) → contains id t.transactions ≡ false → contains id t.intents ≡ false
  -- The stored fingerprint is the one of the stored transfer.
  pub fingerprints :
      (id key : String) (r : TransactionRow) (i : IntentRow)
      → lookup id t.transactions ≡ some r
      → lookup id t.intents ≡ some i
      → i.request_fingerprint
        ≡ transfer_fingerprint server r.actor_id (stored_transfer server r key i).intent
