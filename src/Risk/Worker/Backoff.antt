-- ===== src/Risk/Worker/Backoff.antt =====
-- The retry delay of internal/risk/outbox.go.
use Prim.Native.Nat.{min}
use secure_ledger.Prelude.{
  ℕ, zero, suc, ◌*◌, ◌-◌, ◌^◌, ◌≤◌, ◌≡◌, refl, ap, ◌∙◌, arith, ltb, if◌then◌else◌,
}
use secure_ledger.Prelude.Int.{ℤ, pos, negsuc, pos_part, ltb_ℤ}
use secure_ledger.Risk.Worker.{second, minute, delivery_backoff}

-- Eight attempts and more are counted as eight.
clamp_above :
    (n : ℕ)
    → 9 ≤ n
    → (let low : ℤ = if ltb_ℤ (pos n) (pos 1) then pos 1 else pos n in
        if ltb_ℤ (pos 8) low then pos 8 else low)
      ≡ pos 8
clamp_above n h = ground arith

min_above : (n : ℕ) → 9 ≤ n → 7 ≡ min (n - 1) 7
min_above n h = omega arith

above : (n : ℕ) → 9 ≤ n → delivery_backoff (pos n) ≡ 2 ^ min (n - 1) 7 * second
unfolding delivery_backoff
above n h =
    ap
      (λ (c : ℤ).
        let delay = 2 ^ (pos_part c - 1) * second in
        if ltb (5 * minute) delay then 5 * minute else delay)
      (clamp_above n h)
    ∙ ap (λ k. 2 ^ k * second) (min_above n h)

clamp_below : (n : ℕ) → (if ltb_ℤ (negsuc n) (pos 1) then pos 1 else negsuc n) ≡ pos 1
clamp_below n = ground arith

below : (n : ℕ) → delivery_backoff (negsuc n) ≡ second
unfolding delivery_backoff
below n =
    ap
      (λ (low : ℤ).
        let clamped : ℤ = if ltb_ℤ (pos 8) low then pos 8 else low in
        let delay = 2 ^ (pos_part clamped - 1) * second in
        if ltb (5 * minute) delay then 5 * minute else delay)
      (clamp_below n)

-- The delay after n attempts is 2 ^ (n - 1) seconds, from 1 second at one attempt, and at fewer, to 128
-- seconds at eight, and at more: the limit of five minutes is never reached.
pub delivery_backoff_lem : (n : ℤ) → delivery_backoff n ≡ 2 ^ min (pos_part n - 1) 7 * second
unfolding delivery_backoff
delivery_backoff_lem (pos zero) = refl
delivery_backoff_lem (pos (suc zero)) = refl
delivery_backoff_lem (pos (suc (suc zero))) = refl
delivery_backoff_lem (pos (suc (suc (suc zero)))) = refl
delivery_backoff_lem (pos (suc (suc (suc (suc zero))))) = refl
delivery_backoff_lem (pos (suc (suc (suc (suc (suc zero)))))) = refl
delivery_backoff_lem (pos (suc (suc (suc (suc (suc (suc zero))))))) = refl
delivery_backoff_lem (pos (suc (suc (suc (suc (suc (suc (suc zero)))))))) = refl
delivery_backoff_lem (pos (suc (suc (suc (suc (suc (suc (suc (suc zero))))))))) = refl
delivery_backoff_lem (pos (suc (suc (suc (suc (suc (suc (suc (suc (suc n)))))))))) =
    above (suc (suc (suc (suc (suc (suc (suc (suc (suc n))))))))) (omega arith)
delivery_backoff_lem (negsuc n) = below n
