-- ===== src/Postgres/Outbox/Claims.antt =====
-- Which rows a claim takes.
use Prim.Native.Nat.{ℕ, zero, suc}
use secure_ledger.Prelude.{
  String, ◌≡◌, refl, sym, ap, subst, ◌∙◌, Bool, true, false, not, ◌&&◌, Option, none, some, List,
  [], ◌∷◌, length, All, Bool-cases, inl, inr, arith, eq_iff, ◌==◌, string_Eq, nat_Eq, if◌then◌else◌,
  ◌≤◌,
}
use secure_ledger.Prelude.Int.{ℤ, pos_part}
use secure_ledger.Prelude.Map.{Map, lookup, Distinct, All-lookup}
use secure_ledger.Domain.{Time}
use secure_ledger.Postgres.{Server, RiskRow, values, sort_by, insert_by}
use secure_ledger.Postgres.Reconcile.Clean.{values-All}
use secure_ledger.Postgres.Outbox.{
  is_candidate, claimed_earlier, free_candidates, first_rows, candidates, claim_row, among,
  claim_rows,
}

-- What holds of rows holds of any of them, in any order.
pub insert_by-All :
    {A : Type 0} (P : A → Type 0) (earlier : A → A → Bool) (x : A) (xs : List A)
    → P x
    → All P xs
    → All P (insert_by earlier x xs)
unfolding insert_by
insert_by-All P earlier x [] p h = (p, tt)
insert_by-All P earlier x (y ∷ ys) p h = elim (Bool-cases (earlier y x)) [
  | inl e ↦ rw e (h.0, insert_by-All P earlier x ys p h.1)
  | inr e ↦ rw e (p, h)
]

pub sort_by-All :
    {A : Type 0} (P : A → Type 0) (earlier : A → A → Bool) (xs : List A)
    → All P xs
    → All P (sort_by earlier xs)
unfolding sort_by
sort_by-All P earlier [] h = tt
sort_by-All P earlier (x ∷ xs) h = insert_by-All P earlier x _ h.0 (sort_by-All P earlier xs h.1)

first_rows-All :
    (P : RiskRow → Type 0) (n : ℕ) (rs : List RiskRow) → All P rs → All P (first_rows n rs)
unfolding first_rows
first_rows-All P zero rs h = tt
first_rows-All P (suc n) [] h = tt
first_rows-All P (suc n) (r ∷ rs) h = (h.0, first_rows-All P n rs h.1)

length-first_rows : (n : ℕ) (rs : List RiskRow) → length (first_rows n rs) ≤ n
unfolding first_rows
length-first_rows zero rs = omega arith
length-first_rows (suc n) [] = omega arith
length-first_rows (suc n) (r ∷ rs) = omega (arith, length-first_rows n rs)

-- A after_claim row may be after_claim, is not locked, and is the row of its id.
pub record IsFree (at : Time) (locked : String → Bool) (risks : Map String RiskRow) (r : RiskRow)
    : Type 0 where
  pub candidate : is_candidate at r ≡ true
  pub unlocked : locked r.id ≡ false
  pub stored : lookup r.id risks ≡ some r

free_candidates-All :
    (at : Time) (locked : String → Bool) (risks : Map String RiskRow) (rs : List RiskRow)
    → All (λ r. lookup r.id risks ≡ some r) rs
    → All (IsFree at locked risks) (free_candidates at locked rs)
unfolding free_candidates
free_candidates-All at locked risks [] h = tt
free_candidates-All at locked risks (r ∷ rs) h =
    elim (Bool-cases (is_candidate at r && not (locked r.id))) [
      | inl free ↦ rw free (
        record { candidate = ground arith; unlocked = ground arith; stored = h.0 },
        free_candidates-All at locked risks rs h.1,
      )
      | inr e ↦ rw e (free_candidates-All at locked risks rs h.1)
    ]

pub candidates-All :
    (server : Server) (at : Time) (locked : String → Bool) (limit : ℤ) (risks : Map String RiskRow)
    → Distinct risks
    → ((id : String) (r : RiskRow) → lookup id risks ≡ some r → r.id ≡ id)
    → All (IsFree at locked risks) (candidates server at locked limit risks)
unfolding candidates
candidates-All server at locked limit risks one keyed = first_rows-All _ (pos_part limit) _ (
    sort_by-All _ (claimed_earlier server) _ (
      free_candidates-All at locked risks (values risks) (
        values-All (λ r. lookup r.id risks ≡ some r) risks
          (All-lookup (λ _ r. lookup r.id risks ≡ some r) risks one
            (λ id r found. ap (λ k. lookup k risks) (keyed id r found) ∙ found)))))

-- A row that stands among the after_claim ones may be after_claim.
pub among-IsFree :
    (at : Time) (locked : String → Bool) (risks : Map String RiskRow) (id : String) (r : RiskRow)
    (chosen : List RiskRow)
    → All (IsFree at locked risks) chosen
    → lookup id risks ≡ some r
    → among id chosen ≡ true
    → IsFree at locked risks r
among-IsFree at locked risks id r [] h found e = cc
among-IsFree at locked risks id r (c ∷ cs) h found e = elim (Bool-cases (c.id == id)) [
  | inl same ↦
      let it : c ≡ r =
        ground (arith, h.0.stored, ap (λ k. lookup k risks) ((eq_iff c.id id).0 same)) in
      subst (IsFree at locked risks) it h.0
  | inr other ↦ among-IsFree at locked risks id r cs h.1 found (ground arith)
]

-- What the claim makes of each row.
abbrev pub after_claim : Time → List RiskRow → String → Option RiskRow → Option RiskRow
after_claim at chosen id none = none
after_claim at chosen id (some r) = some (if among id chosen then claim_row at r else r)

pub lookup-claim_rows :
    (at : Time) (chosen : List RiskRow) (id : String) (risks : Map String RiskRow)
    → lookup id (claim_rows at chosen risks) ≡ after_claim at chosen id (lookup id risks)
unfolding lookup claim_rows
lookup-claim_rows at chosen id [] = refl
lookup-claim_rows at chosen id ((k, r) ∷ risks) = elim (Bool-cases (id == k)) [
  | inl same ↦
      rw same
        (ap (λ j. some (if among j chosen then claim_row at r else r)) (sym ((eq_iff id k).0 same)))
  | inr other ↦ rw other (lookup-claim_rows at chosen id risks)
]
