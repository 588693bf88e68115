-- ===== src/Domain/Balanced.antt =====
-- What `ValidateBalanced` accepts, stated over the integers.
use secure_ledger.Prelude.{
  String, zero, suc, ◌≤◌, ◌≡◌, ◌≢◌, ◌↔◌, false, List, [], ◌∷◌, arith, length, All, ok, eq_iff,
  >>=-eq-ok, raise_if, invalid_input, ltb,
}
use secure_ledger.Prelude.Int.{
  ℤ, pos, negsuc, ◌+ℤ◌, ◌-ℤ◌, ◌≤ℤ◌, +ℤ_parts, -ℤ_parts, eq_of_parts, +ℤ-zero, +ℤ_assoc, zero-+ℤ,
}
use secure_ledger.Prelude.Int64.{IsInt64, max_int64, min_int64, sub64, add64_lem, sub64_lem}
use secure_ledger.Prelude.Text.{is_blank}
use secure_ledger.Domain.{
  Posting, sum_overflows, check_posting, sum_postings, validate_balanced, validate_currency,
}

-- The sum of the amounts.
abbrev pub total : List Posting → ℤ
total [] = pos 0
total (p ∷ ps) = p.amount_minor +ℤ total ps

-- What is asked of each posting by itself.
pub record IsWellFormed (currency : String) (p : Posting) : Type 0 where
  pub id_given : is_blank p.id ≡ false
  pub transaction_given : is_blank p.transaction_id ≡ false
  pub account_given : is_blank p.account_id ≡ false
  pub nonzero : p.amount_minor ≢ pos 0
  pub same_currency : p.currency ≡ currency

-- Every partial sum, from `sum` on, is an int64.
abbrev pub Fits : ℤ → List Posting → Type 0
Fits sum [] = Unit {0}
Fits sum (p ∷ ps) = IsInt64 (sum +ℤ p.amount_minor) × Fits (sum +ℤ p.amount_minor) ps

abbrev pub AreInt64 : List Posting → Type 0
AreInt64 = All (λ p. IsInt64 p.amount_minor)

room_above : (a : ℤ) → IsInt64 a → pos 1 ≤ℤ a → sub64 max_int64 a ≡ max_int64 -ℤ a
room_above a h p = sub64_lem max_int64 a (omega (arith, -ℤ_parts max_int64 a))

room_below : (a : ℤ) → IsInt64 a → a ≤ℤ negsuc 0 → sub64 min_int64 a ≡ min_int64 -ℤ a
room_below a h p = sub64_lem min_int64 a (omega (arith, -ℤ_parts min_int64 a))

-- The overflow guard is exact.
sum_overflows_iff :
    (sum a : ℤ) → IsInt64 sum → IsInt64 a → (sum_overflows sum a ≡ false) ↔ IsInt64 (sum +ℤ a)
unfolding sum_overflows
sum_overflows_iff sum (pos zero) hs ha = ground (arith, +ℤ_parts sum (pos 0))
sum_overflows_iff sum (pos (suc n)) hs ha =
    rw (room_above (pos (suc n)) ha (omega arith))
      (ground (arith, +ℤ_parts sum (pos (suc n)), -ℤ_parts max_int64 (pos (suc n))))
sum_overflows_iff sum (negsuc n) hs ha =
    rw (room_below (negsuc n) ha (omega arith))
      (ground (arith, +ℤ_parts sum (negsuc n), -ℤ_parts min_int64 (negsuc n)))

check_posting_iff :
    (c : String) (sum : ℤ) (p : Posting)
    → IsInt64 sum
    → IsInt64 p.amount_minor
    → (check_posting c sum p ≡ ok tt) ↔ (IsWellFormed c p × IsInt64 (sum +ℤ p.amount_minor))
unfolding check_posting
check_posting_iff c sum p hs hp = (
  λ h. ground (arith, sum_overflows_iff sum p.amount_minor hs hp, eq_iff p.currency c),
  λ h. ground (arith, sum_overflows_iff sum p.amount_minor hs hp, eq_iff p.currency c, h.0.nonzero),
)

-- The loop succeeds exactly on well-formed postings whose partial sums all fit, and returns the sum.
sum_postings_iff :
    (c : String) (sum : ℤ) (ps : List Posting) (r : ℤ)
    → IsInt64 sum
    → AreInt64 ps
    → (sum_postings c sum ps ≡ ok r)
      ↔ (All (IsWellFormed c) ps × Fits sum ps × (r ≡ sum +ℤ total ps))
unfolding sum_postings
sum_postings_iff c sum [] r hs hp = ground (arith, +ℤ-zero sum)
sum_postings_iff c sum (p ∷ ps) r hs hp = ground (
  arith,
  check_posting_iff c sum p hs hp.0,
  add64_lem sum p.amount_minor,
  sum_postings_iff c (sum +ℤ p.amount_minor) ps r,
  +ℤ_assoc sum p.amount_minor (total ps),
)

-- What `ValidateBalanced` promises: two postings or more in one valid currency, each well formed,
-- whose amounts have int64 partial sums and sum to zero.
pub record IsBalanced (ps : List Posting) : Type 0 where
  pub currency : String
  pub two : 2 ≤ length ps
  pub valid : validate_currency currency ≡ ok tt
  pub well_formed : All (IsWellFormed currency) ps
  pub fits : Fits (pos 0) ps
  pub zero_sum : total ps ≡ pos 0

zero-IsInt64 : IsInt64 (pos 0)
zero-IsInt64 = omega arith

-- On int64 amounts, `validate_balanced` accepts exactly the balanced lists of postings.
pub validate_balanced_iff :
    (ps : List Posting) → AreInt64 ps → (validate_balanced ps ≡ ok tt) ↔ IsBalanced ps
unfolding validate_balanced
validate_balanced_iff [] h = (λ e. cc, λ b. absurd (omega (arith, b.two)))
validate_balanced_iff (p ∷ ps) h = (
  λ e.
      let (_, two, e₁) = >>=-eq-ok (raise_if (ltb (length (p ∷ ps)) 2) invalid_input) _ e in
      let (_, valid, e₂) = >>=-eq-ok (validate_currency p.currency) _ e₁ in
      let (sum, summed, e₃) = >>=-eq-ok (sum_postings p.currency (pos 0) (p ∷ ps)) _ e₂ in
      let (well, fits, is_sum) =
        (sum_postings_iff p.currency (pos 0) (p ∷ ps) sum zero-IsInt64 h).0 summed in
      record {
        currency = p.currency;
        two = ground arith;
        valid = valid;
        well_formed = well;
        fits = fits;
        zero_sum = ground (arith, zero-+ℤ (total (p ∷ ps)), eq_of_parts sum (pos 0));
      },
  λ b. ground (
    arith,
    b.well_formed.0.same_currency,
    zero-+ℤ (total (p ∷ ps)),
    (sum_postings_iff p.currency (pos 0) (p ∷ ps) (pos 0) zero-IsInt64 h).1,
  ),
)
