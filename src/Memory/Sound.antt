-- ===== src/Memory/Sound.antt =====
-- The invariant of the in-memory store: its accounts agree with its journal.
pub mod Journal
pub mod Applied
pub mod Created
pub mod Run
use secure_ledger.Prelude.{
  String, ℕ, suc, ◌≡◌, ◌≢◌, Bool, false, Option, none, some, List, [], ◌∷◌, length, ◌==◌, string_Eq,
  if◌then◌else◌,
}
use secure_ledger.Prelude.Int.{ℤ, pos, ◌+ℤ◌, ◌≤ℤ◌}
use secure_ledger.Prelude.Int64.{IsInt64, wrap64}
use secure_ledger.Prelude.Map.{Map, lookup}
use secure_ledger.Domain.{Account, Transfer, Posting}
use secure_ledger.Memory.{Store, Scope, scope_Eq, scope_of}

-- The materialised balance of an account id; an unknown account holds nothing.
abbrev pub stored_balance : Option Account → ℤ
stored_balance none = pos 0
stored_balance (some a) = a.balance_minor

abbrev pub balance_of : String → Map String Account → ℤ
balance_of id accounts = stored_balance (lookup id accounts)

-- The balance of an account id by its posting history.
abbrev pub posted : String → List Posting → ℤ
posted id [] = pos 0
posted id (p ∷ ps) = (if id == p.account_id then p.amount_minor else pos 0) +ℤ posted id ps

-- Two postings of one transaction that cancel out.
pub record IsEntry (p q : Posting) : Type 0 where
  pub one_transaction : p.transaction_id ≡ q.transaction_id
  pub one_currency : p.currency ≡ q.currency
  pub two_accounts : p.account_id ≢ q.account_id
  pub nonzero : p.amount_minor ≢ pos 0
  pub cancel : p.amount_minor +ℤ q.amount_minor ≡ pos 0

-- A double-entry journal is a list of entries.
abbrev pub IsDoubleEntry : List Posting → Type 0
IsDoubleEntry [] = Unit {0}
IsDoubleEntry (p ∷ []) = ⊥
IsDoubleEntry (p ∷ q ∷ ps) = IsEntry p q × IsDoubleEntry ps

-- The postings are numbered upwards from the one after `n`.
abbrev pub IsNumbered : ℕ → List Posting → Type 0
IsNumbered n [] = Unit {0}
IsNumbered n (p ∷ ps) = (p.sequence ≡ wrap64 (pos (suc n))) × IsNumbered (suc n) ps

pub record IsSound (s : Store) : Type 0 where
  -- An account is stored under its own id,
  pub keyed : (id : String) (a : Account) → lookup id s.accounts ≡ some a → a.id ≡ id
  -- its balance is an int64,
  pub in_range :
      (id : String) (a : Account) → lookup id s.accounts ≡ some a → IsInt64 a.balance_minor
  -- and only a system account may be overdrawn.
  pub solvent :
      (id : String) (a : Account)
      → lookup id s.accounts ≡ some a
      → a.system ≡ false
      → pos 0 ≤ℤ a.balance_minor
  -- Every balance is the sum of the account's postings.
  pub reconciled : (id : String) → balance_of id s.accounts ≡ posted id s.journal
  pub double_entry : IsDoubleEntry s.journal
  pub numbered : IsNumbered 0 s.journal
  pub counted : s.sequence ≡ wrap64 (pos (length s.journal))
  -- A remembered transfer belongs to the actor and the key that it is remembered under.
  pub remembered : (k : Scope) (t : Transfer) → lookup k s.idempotency ≡ some t → scope_of t ≡ k
