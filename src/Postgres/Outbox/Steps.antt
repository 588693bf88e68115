-- ===== src/Postgres/Outbox/Steps.antt =====
-- The outbox over any order of the calls on it.
use secure_ledger.Prelude.{String, ◌≡◌, Option, some, List, [], ◌∷◌, string_Eq, nat_Eq, Context}
use secure_ledger.Postgres.Outbox.Calls.{
  added_row-Keeps, claim_risk_events-Keeps, mark_risk_event_published-Keeps,
  mark_risk_event_failed-Keeps, keeps_trans,
}
use secure_ledger.Postgres.Outbox.Cycles.{publisher, process_once-Keeps}
use secure_ledger.Risk.Worker.{process_once}
use secure_ledger.Prelude.Int.{ℤ}
use secure_ledger.Prelude.Map.{lookup}
use secure_ledger.Domain.{Time, RiskEvent, Transfer}
use secure_ledger.Postgres.{Server, Tables, RiskRow, migrated, risk_row, insert_risk_row}
use secure_ledger.Postgres.Outbox.{
  Service, claim_risk_events, mark_risk_event_published, mark_risk_event_failed, outbox,
}
use secure_ledger.Postgres.Outbox.Orderly.{IsOutbox, Keeps, keeps_all}

-- The operations on the outbox: the ledger's transactions change the other tables in any way,
-- `ApplyTransfer` adds a row, and workers claim and mark rows, in whole cycles or in broken ones.
pub data Step : Type 0 where
  changes : (Tables → Tables) → Step
  adds : RiskEvent → Transfer → Step
  works : Service → (RiskEvent → Option String) → Context → Time → Step
  claims : Service → Context → ℤ → Time → Step
  publishes : Service → Context → String → Time → Step
  fails : Service → Context → String → String → Time → Step

abbrev pub step : Server → Step → Tables → Tables
step server (changes f) t = record (f t) { risks = t.risks }
step server (adds e x) t = (insert_risk_row (risk_row server e x) t).1
step server (works service answer ctx now) t =
    (process_once (outbox server service) (publisher server service answer ctx now) ctx now t).1
step server (claims service ctx limit now) t = (claim_risk_events server service ctx limit now t).1
step server (publishes service ctx id at) t =
    (mark_risk_event_published server service ctx id at t).1
step server (fails service ctx id reason at) t =
    (mark_risk_event_failed server service ctx id reason at t).1

abbrev pub steps : Server → List Step → Tables → Tables
steps server [] t = t
steps server (s ∷ ss) t = steps server ss (step server s t)

step-Keeps :
    (server : Server) (s : Step) (t : Tables)
    → IsOutbox t.risks
    → Keeps t.risks (step server s t).risks
step-Keeps server (changes f) t h = keeps_all t.risks h
step-Keeps server (adds e x) t h = added_row-Keeps server e x t h
step-Keeps server (works service answer ctx now) t h =
    process_once-Keeps server service answer ctx now t h
step-Keeps server (claims service ctx limit now) t h =
    claim_risk_events-Keeps server service ctx t h limit now
step-Keeps server (publishes service ctx id at) t h =
    mark_risk_event_published-Keeps server service ctx t h id at
step-Keeps server (fails service ctx id reason at) t h =
    mark_risk_event_failed-Keeps server service ctx t h id reason at

steps-Keeps :
    (server : Server) (ss : List Step) (t : Tables)
    → IsOutbox t.risks
    → Keeps t.risks (steps server ss t).risks
steps-Keeps server [] t h = keeps_all t.risks h
steps-Keeps server (s ∷ ss) t h =
    let first = step-Keeps server s t h in
    keeps_trans t.risks _ _ first (steps-Keeps server ss (step server s t) first.outbox)

migrated-IsOutbox : IsOutbox migrated.risks
unfolding lookup
migrated-IsOutbox = record { one = tt; keyed = λ id r e. cc; orderly = λ id r e. cc }

-- From the migration on, and whatever the server does with each call, the rows of the outbox keep their
-- order through the transactions of the ledger and the calls and cycles of workers: one row for each id,
-- tried ten times at most, with columns that agree with the status.
pub steps-migrated-IsOutbox :
    (server : Server) (ss : List Step) → IsOutbox (steps server ss migrated).risks
steps-migrated-IsOutbox server ss = (steps-Keeps server ss migrated migrated-IsOutbox).outbox

-- Published is final: in an outbox in order, whatever calls and cycles follow, by whatever workers, no row
-- that is published is claimed or changed again.
pub steps-published :
    (server : Server) (ss : List Step) (t : Tables)
    → IsOutbox t.risks
    → (id : String) (r : RiskRow) → lookup id t.risks ≡ some r
    → r.status ≡ "published"
    → lookup id (steps server ss t).risks ≡ some r
steps-published server ss t h = (steps-Keeps server ss t h).final
