-- ===== src/Risk/Worker.antt =====
-- internal/risk/outbox.go: the worker that publishes what an outbox holds.
pub mod Backoff
pub mod Reasons
mod Tests
use Prim.Native.Nat.{min}
use Prim.Native.String.{[], ◌∷◌}
use secure_ledger.Prelude.{
  ℕ, count, zero, suc, ◌+◌, ◌-◌, ◌*◌, ◌^◌, String, Bool, true, false, Option, none, some, List,
  length, ltb, ◌++◌, if◌then◌else◌, Context, Result, ok, err, Error,
}
use secure_ledger.Prelude.Int.{ℤ, pos, pos_part, ltb_ℤ}
use secure_ledger.Prelude.Exec.{Exec, pure, ◌>>=◌, ◌>>◌}
use secure_ledger.Domain.{RiskEvent, Time}

-- A `time.Duration` in nanoseconds.
abbrev pub second : ℕ
second = 1_000_000_000

abbrev pub minute : ℕ
minute = 60 * second

pub record Delivery : Type 0 where
  pub event : RiskEvent
  pub attempts : ℤ

-- `Outbox`, with a state of its own.
pub record Outbox (S : Type 0) : Type 0 where
  pub claim_risk_events : Context → ℤ → Time → Exec S (List Delivery)
  pub mark_risk_event_published : Context → String → Time → Exec S Unit
  pub mark_risk_event_failed : Context → String → String → Time → Exec S Unit

-- `Publisher`: the text of its error, if it failed.
abbrev pub Publisher : Type 0 → Type 0
Publisher S = Context → RiskEvent → S → Option String × S

-- `deliveryBackoff`
unfoldable pub delivery_backoff : ℤ → ℕ
delivery_backoff attempts =
    let low : ℤ = if ltb_ℤ attempts (pos 1) then pos 1 else attempts in
    let clamped : ℤ = if ltb_ℤ (pos 8) low then pos 8 else low in
    let delay = 2 ^ (pos_part clamped - 1) * second in
    if ltb (5 * minute) delay then 5 * minute else delay

-- The first `n` runes of a text.
unfoldable pub take_runes : ℕ → String → String
take_runes zero s = []
take_runes (suc n) [] = []
take_runes (suc n) (c ∷ s) = c ∷ take_runes n s

-- `truncateError`, of the error's text.
unfoldable pub truncate_error : String → String
unfolding take_runes
truncate_error text = if ltb 500 (count text) then take_runes 500 text else text

module _ {S : Type 0} (outbox : Outbox S) (publish : Publisher S) where
  -- The body of the loop of `ProcessOnce`.
  unfoldable pub deliver : Context → Time → Delivery → Exec S Unit
  deliver ctx now delivery s =
      let (failure, s') = publish ctx delivery.event s in
      elim failure [
        | none ↦ outbox.mark_risk_event_published ctx delivery.event.id now s'
        | some text ↦
            outbox.mark_risk_event_failed ctx delivery.event.id (truncate_error text)
              (now + delivery_backoff delivery.attempts) s'
      ]

  -- The loop, which returns with the first error of a mark.
  unfoldable pub deliver_all : Context → Time → List Delivery → Exec S Unit
  deliver_all ctx now List.[] = pure tt
  deliver_all ctx now (List.◌∷◌ d ds) = do deliver ctx now d; deliver_all ctx now ds

  -- `ProcessOnce`, with `batchSize` 32.
  unfoldable pub process_once : Context → Time → Exec S ℕ
  process_once ctx now = do
    deliveries ← outbox.claim_risk_events ctx (pos 32) now
    deliver_all ctx now deliveries
    pure (length deliveries)

-- `LogPublisher.Publish`, which only logs.
abbrev pub log_publisher : {S : Type 0} → Publisher S
log_publisher ctx e s = (none, s)

-- What one round of `Run` meets: the clock and the context of its cycle, `ctx.Err()` behind it, and
-- whether `select` takes the end of the context or the next tick.
pub record Round : Type 0 where
  pub now : Time
  pub ctx : Context
  pub ended : Context
  pub stops : Bool

-- The warning of a cycle that fails while the context lives.
abbrev pub warnings : {A : Type 0} → Result A → Context → List Error
warnings (ok a) ended = List.[]
warnings (err e) none = List.◌∷◌ e List.[]
warnings (err e) (some c) = List.[]

module _ {S : Type 0} (outbox : Outbox S) (publish : Publisher S) where
  -- `Run`, as far as its rounds are known, with the warnings that it logs.
  unfoldable pub run : List Round → S → List Error × S
  run List.[] s = (List.[], s)
  run (List.◌∷◌ c cs) s =
      let (reply, s') = process_once outbox publish c.ctx c.now s in
      let rest = run cs s' in
      if c.stops then (warnings reply c.ended, s') else (warnings reply c.ended ++ rest.0, rest.1)
