-- ===== src/Postgres/Outbox/Cycles.antt =====
-- What a cycle of the worker keeps.
use secure_ledger.Prelude.{
  String, Option, none, some, List, [], ◌∷◌, string_Eq, nat_Eq, Result, Done, ok, err, Context,
  Bool-cases, inl, inr,
}
use Prim.Native.Nat.{◌+◌}
use secure_ledger.Prelude.Exec.{Exec, pure, continue, ◌>>=◌}
use secure_ledger.Risk.Worker.{
  Delivery, Publisher, deliver, deliver_all, process_once, truncate_error, delivery_backoff, Round,
  run,
}
use secure_ledger.Prelude.Int.{pos}
use secure_ledger.Domain.{Time, RiskEvent}
use secure_ledger.Postgres.{Server, Tables}
use secure_ledger.Postgres.Outbox.{
  Service, claim_risk_events, mark_risk_event_published, mark_risk_event_failed, outbox,
}
use secure_ledger.Postgres.Outbox.Orderly.{IsOutbox, Keeps, keeps_all}
use secure_ledger.Postgres.Outbox.Calls.{
  claim_risk_events-Keeps, mark_risk_event_published-Keeps, mark_risk_event_failed-Keeps,
  keeps_trans,
}

-- A cycle of the worker over this outbox, with any publisher, which has no access to the tables.
module _ (server : Server) (service : Service) (answer : RiskEvent → Option String) (ctx : Context)
    (now : Time) where
  abbrev pub publisher : Publisher Tables
  publisher _ e t = (answer e, t)

  deliver-Keeps :
      (d : Delivery) (t : Tables)
      → IsOutbox t.risks
      → Keeps t.risks (deliver (outbox server service) publisher ctx now d t).1.risks
  unfolding deliver outbox
  deliver-Keeps d t h = go (answer d.event)
    where
      go :
          (o : Option String)
          → Keeps t.risks
              (elim o as (λ _. Done × Tables) [
                | none ↦ mark_risk_event_published server service ctx d.event.id now t
                | some text ↦
                    mark_risk_event_failed server service ctx d.event.id
                      (truncate_error text)
                      (now + delivery_backoff d.attempts)
                      t
              ]).1.risks
      go none = mark_risk_event_published-Keeps server service ctx t h d.event.id now
      go (some text) =
          mark_risk_event_failed-Keeps server service ctx t h d.event.id (truncate_error text)
            (now + delivery_backoff d.attempts)

  continue-Keeps :
      {A B : Type 0} (t : Tables) (m : Result A × Tables) (f : A → Exec Tables B)
      → Keeps t.risks m.1.risks
      → ((a : A) → Keeps m.1.risks (f a m.1).1.risks)
      → Keeps t.risks (continue m.0 f m.1).1.risks
  continue-Keeps t (ok a, t') f x y = keeps_trans t.risks t'.risks _ x (y a)
  continue-Keeps t (err e, t') f x y = x

  deliver_all-Keeps :
      (ds : List Delivery) (t : Tables)
      → IsOutbox t.risks
      → Keeps t.risks (deliver_all (outbox server service) publisher ctx now ds t).1.risks
  unfolding deliver_all pure ◌>>=◌
  deliver_all-Keeps [] t h = keeps_all t.risks h
  deliver_all-Keeps (d ∷ ds) t h =
      let first = deliver-Keeps d t h in
      continue-Keeps t (deliver (outbox server service) publisher ctx now d t) _ first
        (λ _. deliver_all-Keeps ds _ first.outbox)

  pub process_once-Keeps :
      (t : Tables)
      → IsOutbox t.risks
      → Keeps t.risks (process_once (outbox server service) publisher ctx now t).1.risks
  unfolding process_once outbox pure ◌>>=◌
  process_once-Keeps t h =
      let first = claim_risk_events-Keeps server service ctx t h (pos 32) now in
      let t₁ = (claim_risk_events server service ctx (pos 32) now t).1 in
      continue-Keeps t (claim_risk_events server service ctx (pos 32) now t) _ first (λ ds.
        let rest = deliver_all-Keeps ds t₁ first.outbox in
        continue-Keeps t₁ (deliver_all (outbox server service) publisher ctx now ds t₁) _ rest
          (λ _. keeps_all _ rest.outbox))

-- `Run` of a worker with any publisher.
module _ (server : Server) (service : Service) (answer : RiskEvent → Option String) where
  abbrev deliver_to : Publisher Tables
  deliver_to _ e t = (answer e, t)

  pub run-Keeps :
      (rounds : List Round) (t : Tables)
      → IsOutbox t.risks
      → Keeps t.risks (run (outbox server service) deliver_to rounds t).1.risks
  unfolding run
  run-Keeps [] t h = keeps_all t.risks h
  run-Keeps (c ∷ cs) t h =
      let first = process_once-Keeps server service answer c.ctx c.now t h in
      let t₁ = (process_once (outbox server service) deliver_to c.ctx c.now t).1 in
      elim (Bool-cases c.stops) [
        | inl stops ↦ rw stops first
        | inr goes_on ↦
            rw goes_on (keeps_trans t.risks t₁.risks _ first (run-Keeps cs t₁ first.outbox))
      ]
