-- ===== src/Postgres/Reconcile/Clean.antt =====
-- A reconciliation is clean exactly when the tables agree.
use Prim.Native.Nat.{suc}
use secure_ledger.Prelude.{
  String, ◌≡◌, refl, ap, subst, ◌∙◌, ◌↔◌, Bool, true, false, not, ◌&&◌, some, List, [], ◌∷◌, length,
  All, Bool-cases, inl, inr, arith, ◌==◌, nat_Eq, string_Eq, if◌then◌else◌, ok, >>=-eq-ok, raise_if,
  database,
}
use secure_ledger.Prelude.Int.{ℤ, eq_of_parts, leb_ℤ}
use secure_ledger.Prelude.Int64.{min_int64, max_int64}
use secure_ledger.Prelude.Map.{Map, lookup}
use secure_ledger.Postgres.{AccountRow, TransactionRow, PostingRow, values, sort_by, insert_by}
use secure_ledger.Postgres.Reconcile.{
  BalanceDifference, same_ℤ, posted, is_defect, count_defects, differs, differing, scan_differences,
}
use secure_ledger.Postgres.Sound.{IsBalanced}

same_ℤ_iff : (a b : ℤ) → (same_ℤ a b ≡ true) ↔ (a ≡ b)
same_ℤ_iff a b = (λ h. eq_of_parts a b (ground arith), λ h. ground arith)

module _ {V : Type 0} where
  pub values-All :
      (P : V → Type 0) (m : Map String V) → All (λ (x : String × V). P x.1) m → All P (values m)
  values-All P [] h = tt
  values-All P ((k, v) ∷ m) h = (h.0, values-All P m h.1)

  pub found-All :
      (P : V → Type 0) (k : String) (v : V) (m : Map String V)
      → All P (values m)
      → lookup k m ≡ some v
      → P v
  unfolding lookup
  found-All P k v ((j, w) ∷ m) h found = elim (Bool-cases (k == j)) [
    | inl same ↦ subst P (ground arith) h.0
    | inr other ↦ found-All P k v m h.1 (ground arith)
  ]
  found-All P k v [] h found = cc

length-insert_by :
    {A : Type 0} (earlier : A → A → Bool) (x : A) (xs : List A)
    → length (insert_by earlier x xs) ≡ suc (length xs)
unfolding insert_by
length-insert_by earlier x [] = refl
length-insert_by earlier x (y ∷ ys) = ground (arith, length-insert_by earlier x ys)

pub length-sort_by :
    {A : Type 0} (earlier : A → A → Bool) (xs : List A) → length (sort_by earlier xs) ≡ length xs
unfolding sort_by
length-sort_by earlier [] = refl
length-sort_by earlier (x ∷ xs) =
    length-insert_by earlier x (sort_by earlier xs) ∙ ap suc (length-sort_by earlier xs)

module _ (ps : List PostingRow) where
  pub length-scan :
      (rs : List AccountRow) (ds : List BalanceDifference)
      → scan_differences ps rs ≡ ok ds
      → length ds ≡ length rs
  unfolding scan_differences
  length-scan [] ds h = ground arith
  length-scan (r ∷ rs) ds h =
      let (_, _, h₁) =
        >>=-eq-ok
          (raise_if
            (not (
              leb_ℤ min_int64 (posted r.account.id ps) && leb_ℤ (posted r.account.id ps) max_int64))
            (database "22003" ""))
          _ h in
      let (rest, scanned, h₂) = >>=-eq-ok (scan_differences ps rs) _ h₁ in
      ground (arith, length-scan rs rest scanned)

  abbrev pub Agrees : AccountRow → Type 0
  Agrees r = r.account.balance_minor ≡ posted r.account.id ps

  pub differing-Agrees : (rs : List AccountRow) → length (differing ps rs) ≡ 0 → All Agrees rs
  unfolding differing differs
  differing-Agrees [] h = tt
  differing-Agrees (r ∷ rs) h =
      elim (Bool-cases (same_ℤ r.account.balance_minor (posted r.account.id ps))) [
        | inl same ↦ (
          (same_ℤ_iff _ _).0 same,
          differing-Agrees rs (
              subst (λ b. length (if not b then r ∷ differing ps rs else differing ps rs) ≡ 0) same
                h),
        )
        | inr other ↦ cc (
            subst (λ b. length (if not b then r ∷ differing ps rs else differing ps rs) ≡ 0) other
              h)
      ]

  pub Agrees-differing : (rs : List AccountRow) → All Agrees rs → differing ps rs ≡ []
  unfolding differing differs
  Agrees-differing [] h = refl
  Agrees-differing (r ∷ rs) h = rw ((same_ℤ_iff _ _).1 h.0) (Agrees-differing rs h.1)

  IsBalanced-iff : (r : TransactionRow) → (is_defect ps r ≡ false) ↔ IsBalanced r ps
  unfolding is_defect
  IsBalanced-iff r = (
    λ h. record { complete = ground arith; cancels = (same_ℤ_iff _ _).0 (ground arith) },
    λ b. rw ((same_ℤ_iff _ _).1 b.cancels) (ground (arith, b.complete)),
  )

  pub defects-IsBalanced :
      (rs : List TransactionRow) → count_defects ps rs ≡ 0 → All (λ r. IsBalanced r ps) rs
  unfolding count_defects
  defects-IsBalanced [] h = tt
  defects-IsBalanced (r ∷ rs) h = elim (Bool-cases (is_defect ps r)) [
    | inl defect ↦ ground arith
    | inr fine ↦ ((IsBalanced-iff r).0 fine, defects-IsBalanced rs (ground arith))
  ]

  pub IsBalanced-defects :
      (rs : List TransactionRow) → All (λ r. IsBalanced r ps) rs → count_defects ps rs ≡ 0
  unfolding count_defects
  IsBalanced-defects [] h = refl
  IsBalanced-defects (r ∷ rs) h = rw ((IsBalanced-iff r).1 h.0) (IsBalanced-defects rs h.1)
