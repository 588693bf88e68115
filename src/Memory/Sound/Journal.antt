-- ===== src/Memory/Sound/Journal.antt =====
-- The journal predicates when an entry is appended.
use secure_ledger.Prelude.{
  String, ℕ, suc, ◌+◌, ◌≡◌, ap, ◌∙◌, List, [], ◌∷◌, ◌++◌, length, length-append, arith,
}
use secure_ledger.Prelude.Int.{ℤ, pos, ◌+ℤ◌, +ℤ_assoc, zero-+ℤ}
use secure_ledger.Prelude.Int64.{wrap64, add64}
use secure_ledger.Domain.{Posting}
use secure_ledger.Memory.Sound.{posted, IsEntry, IsDoubleEntry, IsNumbered}

pub posted-append :
    (id : String) (ps qs : List Posting) → posted id (ps ++ qs) ≡ posted id ps +ℤ posted id qs
posted-append id [] qs = rw zero-+ℤ
posted-append id (p ∷ ps) qs = rw (posted-append id ps qs, +ℤ_assoc)

pub IsDoubleEntry-append :
    (ps : List Posting) (p q : Posting)
    → IsDoubleEntry ps
    → IsEntry p q
    → IsDoubleEntry (ps ++ p ∷ q ∷ [])
IsDoubleEntry-append [] p q h e = (e, tt)
IsDoubleEntry-append (r ∷ []) p q h e = absurd h
IsDoubleEntry-append (r ∷ t ∷ ps) p q h e = (h.0, IsDoubleEntry-append ps p q h.1 e)

at : {m n : ℕ} → m ≡ n → wrap64 (pos m) ≡ wrap64 (pos n)
at e = ap (λ k. wrap64 (pos k)) e

pub IsNumbered-append :
    (n : ℕ) (ps : List Posting) (p q : Posting)
    → IsNumbered n ps
    → p.sequence ≡ wrap64 (pos (n + length ps + 1))
    → q.sequence ≡ wrap64 (pos (n + length ps + 2))
    → IsNumbered n (ps ++ p ∷ q ∷ [])
IsNumbered-append n [] p q h e f = (e ∙ at (omega arith), (f ∙ at (omega arith), tt))
IsNumbered-append n (r ∷ ps) p q h e f =
    (h.0, IsNumbered-append (suc n) ps p q h.1 (e ∙ at (omega arith)) (f ∙ at (omega arith)))

-- Adding to a wrapped number wraps once.
pub add64-wrap64 : (n k : ℕ) → add64 (wrap64 (pos n)) (pos k) ≡ wrap64 (pos (n + k))
unfolding add64 wrap64 ◌+ℤ◌
add64-wrap64 n k = ground arith

-- The sequence numbers that a method gives to its two postings, and the counter it leaves.
module _ (sequence : ℤ) (ps : List Posting) where
  pub next_sequence :
      (k : ℕ)
      → sequence ≡ wrap64 (pos (length ps))
      → add64 sequence (pos k) ≡ wrap64 (pos (0 + length ps + k))
  next_sequence k e = ap (λ n. add64 n (pos k)) e ∙ add64-wrap64 (length ps) k ∙ at (omega arith)

  pub count_entry :
      (p q : Posting)
      → sequence ≡ wrap64 (pos (length ps))
      → add64 sequence (pos 2) ≡ wrap64 (pos (length (ps ++ p ∷ q ∷ [])))
  count_entry p q e = next_sequence 2 e ∙ at (omega (arith, length-append {0} ps (p ∷ q ∷ [])))
