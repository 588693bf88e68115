-- ===== src/Risk/Worker/Tests.antt =====
-- A worker whose outbox cannot be reached.
use secure_ledger.Prelude.{
  ℕ, ◌+◌, ◌≡◌, refl, true, false, none, some, List, [], ◌∷◌, ok, err, internal, canceled,
}
use secure_ledger.Prelude.Exec.{◌>>=◌}
use secure_ledger.Risk.Worker.{Outbox, Round, run, log_publisher, process_once}

-- The state counts the claims.
abbrev unreachable : Outbox ℕ
unreachable = record {
  claim_risk_events = λ ctx limit now n. (err internal, n + 1);
  mark_risk_event_published = λ ctx id now n. (ok tt, n);
  mark_risk_event_failed = λ ctx id reason at n. (ok tt, n);
}

abbrev rounds : List Round
rounds =
    record { now = 1; ctx = none; ended = none; stops = false }
    ∷ record { now = 2; ctx = none; ended = some canceled; stops = true }
    ∷ record { now = 3; ctx = none; ended = none; stops = false }
    ∷ []

-- The first cycle is warned of, the second fails because the context ends, and there is no third.
stopped : run unreachable log_publisher rounds 0 ≡ (internal ∷ [], 2)
unfolding run process_once ◌>>=◌
stopped = refl
