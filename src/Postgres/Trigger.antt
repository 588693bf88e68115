-- ===== src/Postgres/Trigger.antt =====
-- The deferred trigger of deploy/postgres/001_init.sql that tests a transaction when it commits: it raises no
-- error for what the adapter writes, so the model of a commit leaves it out.
use secure_ledger.Prelude.{
  String, ℕ, ◌≡◌, refl, sym, ap, ◌∙◌, Bool, false, not, ◌||◌, ◌&&◌, Option, none, some, List, All,
  arith, ◌==◌, string_Eq, nat_Eq, Done, ok, database, raise_if,
}
use secure_ledger.Prelude.Int.{ℤ, pos, leb_ℤ}
use secure_ledger.Prelude.Map.{lookup, contains}
use secure_ledger.Postgres.{Server, Tables, TransactionRow, migrated}
use secure_ledger.Postgres.Reconcile.{posting_count, posting_sum}
use secure_ledger.Postgres.Sound.{IsSound}
use secure_ledger.Postgres.Sound.Postings.{no_sum}
use secure_ledger.Postgres.Sound.Actions.{Action, IsTyped, acts, acts-migrated-IsSound}

-- `posting_count <> expected_count`, which is not true of NULL.
abbrev differs_from : Option TransactionRow → ℕ → Bool
differs_from none count = false
differs_from (some r) count = not (count == r.expected_postings)

abbrev is_zero_sum : ℤ → Bool
is_zero_sum z = leb_ℤ z (pos 0) && leb_ℤ (pos 0) z

-- `assert_balanced_journal_transaction`, for the id of a transaction that was inserted or posted to.
unfoldable pub assert_balanced : String → Tables → Done
assert_balanced id t =
    raise_if
      (differs_from (lookup id t.transactions) (posting_count id t.postings)
        || not (is_zero_sum (posting_sum id t.postings)))
      (database "23514" "")

module _ (server : Server) (t : Tables) (sound : IsSound server t) (id : String) where
  silent :
      (o : Option TransactionRow)
      → lookup id t.transactions ≡ o
      → (differs_from o (posting_count id t.postings) ≡ false) × (posting_sum id t.postings ≡ pos 0)
  unfolding contains
  silent none e = (refl, no_sum id t.postings (sound.unposted id (ground arith)))
  silent (some r) e =
      let its = sound.balanced id r e in
      let named = sound.transactions_keyed id r e in
      (
        ground (arith, ap (λ k. posting_count k t.postings) named, its.complete),
        ap (λ k. posting_sum k t.postings) (sym named) ∙ its.cancels,
      )

  sound-balanced : assert_balanced id t ≡ ok tt
  unfolding assert_balanced
  sound-balanced = let (same, zero) = silent (lookup id t.transactions) refl in rw (same, zero) refl

-- Whatever transactions of the adapter commit on a migrated database, and in whatever order, with amounts that
-- are int64 values, the deferred trigger raises no error for any transaction id behind them: it would
-- refuse none of the commits.
pub acts-assert_balanced :
    (server : Server) (as' : List Action) (id : String)
    → All IsTyped as'
    → assert_balanced id (acts server as' migrated) ≡ ok tt
acts-assert_balanced server as' id typed =
    sound-balanced server (acts server as' migrated) (acts-migrated-IsSound server as' typed) id
