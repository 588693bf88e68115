-- ===== src/Risk/Worker/Reasons.antt =====
-- The reasons of failed deliveries, which the outbox stores.
use Prim.Native.Nat.{min}
use Prim.Native.String.{[], ◌∷◌}
use text.Mathlib.TextLemmas
use secure_ledger.Prelude.{
  ℕ, zero, suc, ◌≡◌, sym, ap, ◌∙◌, String, count, ◌++ˢ◌, arith, Bool-cases, inl, inr, ltb,
}
use secure_ledger.Risk.Worker.{take_runes, truncate_error}

count-take_runes : (n : ℕ) (s : String) → count (take_runes n s) ≡ min n (count s)
unfolding take_runes
count-take_runes zero s = omega arith
count-take_runes (suc n) [] = omega arith
count-take_runes (suc n) (c ∷ s) = omega (
  arith,
  count-take_runes n s,
  TextLemmas.length-cons c (take_runes n s),
  TextLemmas.length-cons c s,
)

take_runes-prefix : (n : ℕ) (s : String) → (rest : String) × (s ≡ take_runes n s ++ˢ rest)
unfolding take_runes
take_runes-prefix zero s = (s, sym (TextLemmas.nil-append s))
take_runes-prefix (suc n) [] = ([], sym (TextLemmas.nil-append []))
take_runes-prefix (suc n) (c ∷ s) =
    let (rest, e) = take_runes-prefix n s in
    (rest, ap (λ t. c ∷ t) e ∙ sym (TextLemmas.cons-append c (take_runes n s) rest))

-- A stored reason is the beginning of the error's text, and has as many runes as it, but 500 at most.
pub truncate_error_lem :
    (text : String)
    → (count (truncate_error text) ≡ min 500 (count text))
      × ((rest : String) × (text ≡ truncate_error text ++ˢ rest))
unfolding truncate_error
truncate_error_lem text = elim (Bool-cases (ltb 500 (count text))) [
  | inl long ↦ rw long (count-take_runes 500 text, take_runes-prefix 500 text)
  | inr short ↦ rw short (ground arith, ([], sym (TextLemmas.append-nil text)))
]
