-- ===== src/Postgres/Outbox.antt =====
-- internal/store/postgres/outbox.go: the rows of `risk_events` as the outbox of the worker in
-- internal/risk/outbox.go.
pub mod Claims
pub mod Orderly
pub mod Calls
pub mod Cycles
pub mod Chosen
pub mod Delivered
pub mod Steps
use Prim.Native.Nat.{ℕ, zero, suc, ◌+◌}
use secure_ledger.Prelude.{
  String, count, Bool, true, false, not, ◌&&◌, ◌||◌, Option, none, some, List, [], ◌∷◌, ltb,
  if◌then◌else◌, ◌==◌, string_Eq, nat_Eq, internal, database, Result, Done, ok, err, Context,
}
use secure_ledger.Prelude.Int.{ℤ, pos, pos_part, leb_ℤ, ltb_ℤ}
use secure_ledger.Prelude.Map.{Map, lookup, insert}
use secure_ledger.Prelude.Exec.{Exec}
use secure_ledger.Domain.{Time}
use secure_ledger.Risk.Worker.{Delivery, Outbox, minute}
use secure_ledger.Postgres.{
  Server, Tables, RiskRow, Attempt, refused, aborted, committed, lost, values, sort_by, event_of,
}

-- `normaliseOutboxLimit`
unfoldable pub normalise_outbox_limit : ℤ → ℤ
normalise_outbox_limit limit =
    if leb_ℤ limit (pos 0) then pos 32 else if ltb_ℤ (pos 100) limit then pos 100 else limit

-- `locked_at < $1 - interval '1 minute'`, which is not true of NULL.
abbrev pub expired : Time → Option Time → Bool
expired at none = false
expired at (some locked) = ltb (locked + minute) at

-- The `WHERE` of the candidates.
unfoldable pub is_candidate : Time → RiskRow → Bool
is_candidate at r =
    ltb r.attempts 10
    && ((r.status == "pending" || r.status == "failed") && not (ltb at r.available_at)
        || r.status == "processing" && expired at r.locked_at)

-- `ORDER BY available_at, created_at, id`
abbrev pub claimed_earlier : Server → RiskRow → RiskRow → Bool
claimed_earlier server p q =
    ltb p.available_at q.available_at
    || p.available_at == q.available_at
      && (ltb p.created_at q.created_at || p.created_at == q.created_at && server.before p.id q.id)

-- The rows that may be claimed: `locked` are the ids that another transaction holds, which
-- `SKIP LOCKED` leaves out.
unfoldable pub free_candidates : Time → (String → Bool) → List RiskRow → List RiskRow
free_candidates at locked [] = []
free_candidates at locked (r ∷ rs) =
    let rest = free_candidates at locked rs in
    if is_candidate at r && not (locked r.id) then r ∷ rest else rest

-- `LIMIT`
unfoldable pub first_rows : ℕ → List RiskRow → List RiskRow
first_rows zero rs = []
first_rows (suc n) [] = []
first_rows (suc n) (r ∷ rs) = r ∷ first_rows n rs

unfoldable pub candidates : Server → Time → (String → Bool) → ℤ → Map String RiskRow → List RiskRow
candidates server at locked limit risks =
    first_rows (pos_part limit)
      (sort_by (claimed_earlier server) (free_candidates at locked (values risks)))

-- The `SET` of the claim.
abbrev pub claim_row : Time → RiskRow → RiskRow
claim_row at r = record r {
  status = "processing";
  attempts = r.attempts + 1;
  locked_at = some at;
  last_error = none;
}

abbrev pub among : String → List RiskRow → Bool
among id [] = false
among id (r ∷ rs) = r.id == id || among id rs

-- The `UPDATE` of the rows of the candidates.
unfoldable pub claim_rows : Time → List RiskRow → Map String RiskRow → Map String RiskRow
claim_rows at chosen [] = []
claim_rows at chosen ((id, r) ∷ risks) =
    (id, if among id chosen then claim_row at r else r) ∷ claim_rows at chosen risks

abbrev pub deliveries_of : Time → List RiskRow → List Delivery
deliveries_of at [] = []
deliveries_of at (r ∷ rs) =
    record { event = event_of r; attempts = pos (r.attempts + 1) } ∷ deliveries_of at rs

-- How the server serves the calls of the outbox: each is one transaction, of which a claim finds some
-- rows locked and returns its rows in an order of the server's choice.
pub record Service : Type 0 where
  pub claim : Attempt
  pub locked : String → Bool
  pub arranged : List RiskRow → List RiskRow
  pub mark : String → Attempt

-- What a transaction that answers `a` and leaves `t'` comes to.
abbrev pub attempted : {A : Type 0} → Attempt → Tables → Result A × Tables → Result A × Tables
attempted (refused e) t m = (err e, t)
attempted (aborted e) t m = (err e, t)
attempted committed t m = m
attempted (lost e) t m = (err e, m.1)

-- The `SET` of a publication.
abbrev pub publish_row : Time → RiskRow → RiskRow
publish_row at r = record r {
  status = "published";
  published_at = some at;
  locked_at = none;
  last_error = none;
}

-- The `SET` of a failure, and the column that takes no reason of more than 500 characters.
abbrev pub fail_row : String → Time → RiskRow → RiskRow
fail_row reason at r = record r {
  status = "failed";
  available_at = at;
  locked_at = none;
  published_at = none;
  last_error = some reason;
}

abbrev pub check_failure : String → Time → RiskRow → Result RiskRow
check_failure reason at r =
    if ltb 500 (count reason)
    then err (database "23514" "risk_events_last_error_check")
    else ok (fail_row reason at r)

module _ (server : Server) (service : Service) where
  -- `ClaimRiskEvents`
  unfoldable pub claim_risk_events : Context → ℤ → Time → Exec Tables (List Delivery)
  claim_risk_events ctx limit now t =
      let chosen =
        candidates server (server.stamp now) service.locked (normalise_outbox_limit limit)
          t.risks in
      attempted service.claim t (
        ok (deliveries_of (server.stamp now) (service.arranged chosen)),
        record t { risks = claim_rows (server.stamp now) chosen t.risks },
      )

  -- `UPDATE risk_events SET ... WHERE id = $1 AND status = 'processing'` and the test of the rows that it
  -- affects.
  abbrev pub mark_row : Option RiskRow → (RiskRow → Result RiskRow) → Tables → Done × Tables
  mark_row none set t = (err internal, t)
  mark_row (some r) set t =
      if r.status == "processing"
      then elim (set r) [
        | err e ↦ (err e, t)
        | ok r' ↦ (ok tt, record t { risks = insert r.id r' t.risks })
      ]
      else (err internal, t)

  -- `MarkRiskEventPublished`
  unfoldable pub mark_risk_event_published : Context → String → Time → Exec Tables Unit
  mark_risk_event_published ctx id published_at t =
      attempted (service.mark id) t
        (mark_row (lookup id t.risks) (λ r. ok (publish_row (server.stamp published_at) r)) t)

  -- `MarkRiskEventFailed`
  unfoldable pub mark_risk_event_failed : Context → String → String → Time → Exec Tables Unit
  mark_risk_event_failed ctx id reason retry_at t =
      attempted (service.mark id) t
        (mark_row (lookup id t.risks) (check_failure reason (server.stamp retry_at)) t)

  -- The outbox of the worker.
  unfoldable pub outbox : Outbox Tables
  outbox = record {
    claim_risk_events = claim_risk_events;
    mark_risk_event_published = mark_risk_event_published;
    mark_risk_event_failed = mark_risk_event_failed;
  }
