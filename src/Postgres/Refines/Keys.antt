-- ===== src/Postgres/Refines/Keys.antt =====
-- What the join of `findIdempotentTransfer` finds among the rows of an actor and a key, before and after an
-- insertion.
use secure_ledger.Prelude.{
  String, ◌≡◌, ◌≢◌, refl, ap, ◌∙◌, false, Option, none, some, [], ◌∷◌, All, arith, eq_iff, ◌==◌,
  string_Eq, if◌then◌else◌,
}
use secure_ledger.Prelude.Map.{Map, lookup, insert, contains}
use secure_ledger.Postgres.{Server, TransactionRow, IntentRow, find_rows, matches, has_key}

abbrev pub AreKeyed : Map String TransactionRow → Type 0
AreKeyed rows = All (λ (x : String × TransactionRow). x.1.id ≡ x.0) rows

module _ (server : Server) (actor key : String) where
  -- What the join makes of one row and its intent.
  abbrev pick :
      TransactionRow
      → Option IntentRow
      → Option (TransactionRow × IntentRow)
      → Option (TransactionRow × IntentRow)
  pick x found rest =
      if matches server actor key x then elim found [ none ↦ rest | some i ↦ some (x, i) ] else rest

  -- A key that no row has is found with no row.
  pub find_rows-unkeyed :
      (rows : Map String TransactionRow) (intents : Map String IntentRow)
      → has_key actor (some key) rows ≡ false
      → find_rows server actor key rows intents ≡ none
  find_rows-unkeyed [] intents h = refl
  find_rows-unkeyed ((j, x) ∷ rows) intents h = ground (arith, find_rows-unkeyed rows intents)

  -- A new row of another actor or key changes nothing of what is found.
  pub find_rows-other :
      (r : TransactionRow) (rows : Map String TransactionRow)
      (intents intents' : Map String IntentRow)
      → AreKeyed rows
      → contains r.id rows ≡ false
      → matches server actor key r ≡ false
      → ((id : String) → id ≢ r.id → lookup id intents' ≡ lookup id intents)
      → find_rows server actor key (insert r.id r rows) intents'
        ≡ find_rows server actor key rows intents
  unfolding insert contains lookup
  find_rows-other r [] intents intents' keyed fresh unlike kept = rw unlike refl
  find_rows-other r ((j, x) ∷ rows) intents intents' keyed fresh unlike kept =
      let other : (r.id == j) ≡ false = ground arith in
      let differs : x.id ≢ r.id = λ e. ground (arith, eq_iff r.id j, keyed.0) in
      rw other (
        ap (λ o. pick x o (find_rows server actor key (insert r.id r rows) intents'))
          (kept x.id differs)
        ∙ ap (pick x (lookup x.id intents))
            (find_rows-other r rows intents intents' keyed.1 (ground arith) unlike kept))
