-- ===== src/Postgres/Sound/Postings.antt =====
-- Two postings are appended: balances, counts and sums.
use secure_ledger.Prelude.{String, ◌+◌, ◌≡◌, refl, List, [], ◌∷◌, ◌++◌, arith, string_Eq}
use secure_ledger.Prelude.Int.{pos, ◌+ℤ◌, +ℤ_assoc, zero-+ℤ}
use secure_ledger.Postgres.{PostingRow}
use secure_ledger.Postgres.Reconcile.{posted, posting_count, posting_sum}

pub posted-append :
    (id : String) (ps qs : List PostingRow) → posted id (ps ++ qs) ≡ posted id ps +ℤ posted id qs
posted-append id [] qs = rw zero-+ℤ
posted-append id (p ∷ ps) qs = rw (posted-append id ps qs, +ℤ_assoc)

pub posting_sum-append :
    (id : String) (ps qs : List PostingRow)
    → posting_sum id (ps ++ qs) ≡ posting_sum id ps +ℤ posting_sum id qs
posting_sum-append id [] qs = rw zero-+ℤ
posting_sum-append id (p ∷ ps) qs = rw (posting_sum-append id ps qs, +ℤ_assoc)

pub posting_count-append :
    (id : String) (ps qs : List PostingRow)
    → posting_count id (ps ++ qs) ≡ posting_count id ps + posting_count id qs
posting_count-append id [] qs = omega arith
posting_count-append id (p ∷ ps) qs = ground (arith, posting_count-append id ps qs)

-- A transaction with no posting has the sum zero.
pub no_sum :
    (id : String) (ps : List PostingRow) → posting_count id ps ≡ 0 → posting_sum id ps ≡ pos 0
no_sum id [] h = refl
no_sum id (p ∷ ps) h = ground (arith, no_sum id ps, zero-+ℤ (posting_sum id ps))
