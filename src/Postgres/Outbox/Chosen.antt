-- ===== src/Postgres/Outbox/Chosen.antt =====
-- Rows of the outbox by their ids: those that a claim chooses, and those that it returns.
use secure_ledger.Prelude.{
  String, ◌≡◌, refl, sym, ap, ◌∙◌, Bool, true, false, Option, none, some, List, [], ◌∷◌, All,
  Bool-cases, inl, inr, arith, eq_iff, ◌==◌, string_Eq, nat_Eq, if◌then◌else◌,
}
use secure_ledger.Prelude.Map.{Map, lookup}
use secure_ledger.Domain.{Time}
use secure_ledger.Postgres.{RiskRow}
use secure_ledger.Postgres.Outbox.{among}
use secure_ledger.Postgres.Outbox.Claims.{IsFree}

-- The row of an id among some rows.
abbrev pub row_of : String → List RiskRow → Option RiskRow
row_of id [] = none
row_of id (r ∷ rs) = if r.id == id then some r else row_of id rs

abbrev pub AreOnce : List RiskRow → Type 0
AreOnce [] = Unit {0}
AreOnce (r ∷ rs) = (among r.id rs ≡ false) × AreOnce rs

-- A row that is not among some is none of them.
pub row_of-none : (id : String) (rs : List RiskRow) → among id rs ≡ false → row_of id rs ≡ none
row_of-none id [] e = refl
row_of-none id (r ∷ rs) e = ground (arith, row_of-none id rs)

-- The rows that a claim returns are those that it chose, each once, in an order of the server's choice.
pub record IsArranged (rs chosen : List RiskRow) : Type 0 where
  pub once : AreOnce rs
  pub same : (id : String) → row_of id rs ≡ row_of id chosen

-- Each row that stands once among some is the row of its id.
behind_another :
    (r : RiskRow) (ys xs : List RiskRow)
    → among r.id ys ≡ false
    → All (λ (x : RiskRow). row_of x.id xs ≡ some x) ys
    → All (λ (x : RiskRow). row_of x.id (r ∷ xs) ≡ some x) ys
behind_another r [] xs e h = tt
behind_another r (y ∷ ys) xs e h = (
  ground (arith, eq_iff r.id y.id, eq_iff y.id r.id, h.0),
  behind_another r ys xs (ground arith) h.1,
)

pub each_found :
    (rs : List RiskRow) → AreOnce rs → All (λ (x : RiskRow). row_of x.id rs ≡ some x) rs
each_found [] once = tt
each_found (r ∷ rs) once =
    (ground (arith, eq_iff r.id r.id), behind_another r rs rs once.0 (each_found rs once.1))

pub chosen_row :
    (time : Time) (locked : String → Bool) (risks : Map String RiskRow) (id : String) (x : RiskRow)
    (chosen : List RiskRow)
    → All (IsFree time locked risks) chosen
    → row_of id chosen ≡ some x
    → (lookup id risks ≡ some x) × (among id chosen ≡ true)
chosen_row time locked risks id x [] free e = cc
chosen_row time locked risks id x (c ∷ cs) free e = elim (Bool-cases (c.id == id)) [
  | inl same ↦
      let its : c ≡ x = ground arith in
      (
        ap (λ k. lookup k risks) (sym ((eq_iff c.id id).0 same)) ∙ free.0.stored ∙ ap some its,
        ground arith,
      )
  | inr other ↦
      let (found, inside) = chosen_row time locked risks id x cs free.1 (ground arith) in
      (found, ground arith)
]

pub unchosen : (id : String) (cs : List RiskRow) → row_of id cs ≡ none → among id cs ≡ false
unchosen id [] e = refl
unchosen id (c ∷ cs) e = ground (arith, unchosen id cs)

-- The rows that a claim returns are the rows of their ids among those that it chose.
pub arranged_found :
    (rs chosen ys : List RiskRow)
    → IsArranged rs chosen
    → All (λ (x : RiskRow). row_of x.id rs ≡ some x) ys
    → All (λ (x : RiskRow). row_of x.id chosen ≡ some x) ys
arranged_found rs chosen [] arranged h = tt
arranged_found rs chosen (y ∷ ys) arranged h =
    (sym (arranged.same y.id) ∙ h.0, arranged_found rs chosen ys arranged h.1)
