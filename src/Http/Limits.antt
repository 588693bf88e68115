-- ===== src/Http/Limits.antt =====
-- Which limits of a listing a request may ask for.
use secure_ledger.Prelude.{
  ◌≡◌, ◌≢◌, ◌↔◌, ◌⊎◌, some, Option-cases, inl, inr, ok, arith, string_Eq, eq_iff,
}
use secure_ledger.Prelude.Int.{ℤ, pos, ◌≤ℤ◌}
use secure_ledger.Memory.{normalise_limit}
use secure_ledger.Memory.Listing.{normalise_limit_bounds}
use secure_ledger.Http.{Request, query_limit}

-- The limit that a request asks for.
pub record Asks (r : Request) (n : ℤ) : Type 0 where
  pub asked :
      ((r.query "limit" ≡ "") × (n ≡ pos 100))
      ⊎ ((r.query "limit" ≢ "") × (r.number (r.query "limit") ≡ some n))
  pub low : pos 1 ≤ℤ n
  pub high : n ≤ℤ pos 1000

-- `query_limit` accepts exactly an absent limit, which is 100, and a number from 1 to 1000.
pub query_limit_iff : (r : Request) (n : ℤ) → (query_limit r ≡ ok n) ↔ Asks r n
unfolding query_limit
query_limit_iff r n = elim (Option-cases (r.number (r.query "limit"))) [
  | inl missing ↦ (
    λ h. ground (arith, eq_iff (r.query "limit") ""),
    λ h. ground (arith, h.asked, eq_iff (r.query "limit") ""),
  )
  | inr (m, found) ↦ (
    λ h. ground (arith, eq_iff (r.query "limit") ""),
    λ h. ground (arith, h.asked, h.low, h.high, eq_iff (r.query "limit") ""),
  )
]

-- A limit that `query_limit` accepts is the number of rows that the in-memory store uses.
pub query_limit-normalised :
    (r : Request) (n : ℤ) → query_limit r ≡ ok n → pos (normalise_limit n) ≡ n
query_limit-normalised r n h =
    let a = (query_limit_iff r n).0 h in (normalise_limit_bounds n).2 a.low a.high
