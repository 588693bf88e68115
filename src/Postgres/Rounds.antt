-- ===== src/Postgres/Rounds.antt =====
-- The transactions of the adapter as its callers see them: a commit may fail or its reply may be lost,
-- and the methods that write try again after a failure that may pass.
use Prim.Native.Nat.{ℕ, zero, suc, ◌*◌, ◌^◌}
use secure_ledger.Prelude.{
  Bool, not, ◌||◌, none, some, if◌then◌else◌, ◌==◌, nat_Eq, ltb, Error, Result, ok, err, Context,
}
use secure_ledger.Prelude.Exec.{Exec}
use secure_ledger.Postgres.Schema.{Tables}
use secure_ledger.Postgres.Rows.{Numbers}
use secure_ledger.Postgres.Inputs.{map_database_error}

-- How the server serves one attempt at a serializable transaction.
pub data Attempt : Type 0 where
  -- `BeginTx` fails.
  refused : Error → Attempt
  -- A statement or the commit fails, and the server rolls back.
  aborted : Error → Attempt
  -- The statements run, alone as it seems, and the commit succeeds.
  committed : Attempt
  -- The same, but the reply to the commit does not arrive.
  lost : Error → Attempt

-- A transaction that has its statements run: an error of its own rolls back.
abbrev pub close : {A : Type 0} → Tables → Result A × Tables → Result A × Tables
close t (ok a, t') = (ok a, t')
close t (err e, t') = (err e, t)

abbrev pub close_unheard : {A : Type 0} → Error → Tables → Result A × Tables → Result A × Tables
close_unheard lost_reply t (ok a, t') = (err lost_reply, t')
close_unheard lost_reply t (err e, t') = (err e, t)

-- When the caller's context ends: never, or after some nanoseconds, with its error.
pub data Deadline : Type 0 where
  endless : Deadline
  ends_after : ℕ → Error → Deadline

-- The pause behind attempt `i` in nanoseconds. No attempt is beyond the third.
abbrev pub retry_delay : ℕ → ℕ
retry_delay attempt = 2 ^ attempt * 5 * 1000000

-- `waitForRetry`: the context's end or the timer, whichever comes first. Of both at the same time, of
-- which Go takes either, the timer is taken.
abbrev pub wait_for_retry : Deadline → ℕ → Context
wait_for_retry endless attempt = none
wait_for_retry (ends_after left e) attempt = if ltb left (retry_delay attempt) then some e else none

-- One round of the loop: what other clients did before it, the numbers that its rows get, how it is
-- served, and what is left of the caller's context behind it.
pub record Round : Type 0 where
  pub meanwhile : Tables → Tables
  pub numbers : Numbers
  pub attempt : Attempt
  pub deadline : Deadline

module _ {A : Type 0} where
  -- What the loop makes of an attempt's result, with `left` rounds behind this one and `again` the next.
  abbrev pub settle :
      (Error → Bool) → ℕ → Context → (Error → Exec Tables A) → Result A × Tables → Result A × Tables
  settle passing left wait again (ok a, t) = (ok a, t)
  settle passing left wait again (err e, t) =
      if not (passing e) || left == 0
      then (err (map_database_error e), t)
      else elim wait [ none ↦ again e t | some c ↦ (err c, t) ]

  abbrev pub serve_round :
      Attempt → (Result A × Tables → Result A × Tables) → Exec Tables A → Tables → Result A × Tables
  serve_round (refused e) settled tx t = (err e, t)
  serve_round (aborted e) settled tx t = settled (err e, t)
  serve_round committed settled tx t = settled (close t (tx t))
  serve_round (lost e) settled tx t = settled (close_unheard e t (tx t))

  -- The loops of `CreateAccount` and `ApplyTransfer`, from round `i` on with `left` rounds. `last`
  -- is `lastErr`, which the return behind the loop wraps.
  unfoldable pub retry :
      (ℕ → Round)
      → (Error → Bool)
      → (Numbers → Exec Tables A)
      → Error
      → (left i : ℕ) → Exec Tables A
  retry rounds passing tx last zero i t = (err last, t)
  retry rounds passing tx last (suc left) i t =
      let round = rounds i in
      serve_round round.attempt
        (settle passing left (wait_for_retry round.deadline i)
          (λ e t'. retry rounds passing tx e left (suc i) t'))
        (tx round.numbers) (round.meanwhile t)

-- `defaultMaxRetries`
abbrev pub max_retries : ℕ
max_retries = 4
