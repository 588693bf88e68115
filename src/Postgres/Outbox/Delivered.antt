-- ===== src/Postgres/Outbox/Delivered.antt =====
-- What a cycle of the worker of internal/risk/outbox.go has done to the rows of this outbox when the server
-- serves every call of it.
use Prim.Native.Nat.{ℕ, ◌+◌}
use secure_ledger.Prelude.{
  String, count, ◌≡◌, refl, sym, ap, ◌∙◌, false, Option, none, some, List, [], ◌∷◌, length, All,
  Bool-cases, Option-cases, inl, inr, arith, eq_iff, ◌==◌, string_Eq, nat_Eq, ltb, Result, Done, ok,
  Context,
}
use secure_ledger.Prelude.Int.{pos}
use secure_ledger.Prelude.Exec.{Exec, pure, continue, ◌>>=◌}
use secure_ledger.Prelude.Map.{Map, lookup, insert, lookup-insert}
use secure_ledger.Domain.{Time, RiskEvent}
use secure_ledger.Risk.Worker.{deliver, deliver_all, process_once, truncate_error, delivery_backoff}
use secure_ledger.Risk.Worker.Reasons.{truncate_error_lem}
use secure_ledger.Postgres.{Server, Tables, RiskRow, committed, event_of}
use secure_ledger.Postgres.Outbox.{attempted}
use secure_ledger.Risk.Worker.{Delivery}
use secure_ledger.Postgres.Outbox.{
  Service, candidates, normalise_outbox_limit, claim_row, claim_rows, deliveries_of, among,
  claim_risk_events, mark_risk_event_published, mark_risk_event_failed, outbox,
}
use secure_ledger.Postgres.Outbox.Claims.{IsFree, candidates-All, lookup-claim_rows, after_claim}
use secure_ledger.Postgres.Outbox.Orderly.{IsOutbox}
use secure_ledger.Postgres.Outbox.Cycles.{publisher}
use secure_ledger.Postgres.Outbox.Chosen.{
  row_of, AreOnce, IsArranged, row_of-none, each_found, chosen_row, unchosen, arranged_found,
}

-- A reason that is stored keeps to its column.
reason_fits : (text : String) → ltb 500 (count (truncate_error text)) ≡ false
reason_fits text = ground (arith, (truncate_error_lem text).0)

module _ (server : Server) (service : Service) (answer : RiskEvent → Option String) (ctx : Context)
    (now : Time) (marks : (id : String) → service.mark id ≡ committed) where
  abbrev at : Time
  at = server.stamp now

  -- What the answer of the publisher makes of a claimed row.
  abbrev pub marked : Option String → RiskRow → RiskRow
  marked none r = record r {
    status = "published";
    attempts = r.attempts + 1;
    locked_at = none;
    published_at = some at;
    last_error = none;
  }
  marked (some text) r = record r {
    status = "failed";
    attempts = r.attempts + 1;
    available_at = server.stamp (now + delivery_backoff (pos (r.attempts + 1)));
    locked_at = none;
    published_at = none;
    last_error = some (truncate_error text);
  }

  abbrev pub delivered : RiskRow → RiskRow
  delivered r = marked (answer (event_of r)) r

  deliver_lem :
      (r : RiskRow) (t : Tables)
      → lookup r.id t.risks ≡ some (claim_row at r)
      → deliver
          (outbox server service)
          (publisher server service answer ctx now)
          ctx
          now
          (record { event = event_of r; attempts = pos (r.attempts + 1) })
          t
        ≡ (ok tt, record t { risks = insert r.id (delivered r) t.risks })
  unfolding deliver outbox mark_risk_event_published mark_risk_event_failed
  deliver_lem r t found = elim (Option-cases (answer (event_of r))) [
    | inl published ↦ rw (published, marks r.id, found) refl
    | inr (text, failed) ↦ rw (failed, marks r.id, found, reason_fits text) refl
  ]

  -- The rows after the loop.
  abbrev settled : List RiskRow → Map String RiskRow → Map String RiskRow
  settled [] risks = risks
  settled (r ∷ rs) risks = settled rs (insert r.id (delivered r) risks)

  -- What the cycle makes of the row of an id.
  abbrev pub after_cycle : Option RiskRow → Option RiskRow → Option RiskRow
  after_cycle none before = before
  after_cycle (some r) before = some (delivered r)

  abbrev AreClaimed : Map String RiskRow → List RiskRow → Type 0
  AreClaimed risks rs = All (λ (r : RiskRow). lookup r.id risks ≡ some (claim_row at r)) rs

  -- The delivery of one row leaves the others as they are.
  still-AreClaimed :
      (r : RiskRow) (rs : List RiskRow) (risks : Map String RiskRow)
      → among r.id rs ≡ false
      → AreClaimed risks rs
      → AreClaimed (insert r.id (delivered r) risks) rs
  still-AreClaimed r [] risks e h = tt
  still-AreClaimed r (x ∷ xs) risks e h = (
    ground (
      arith,
      lookup-insert x.id r.id (delivered r) risks,
      eq_iff x.id r.id,
      eq_iff r.id x.id,
      h.0,
    ),
    still-AreClaimed r xs risks (ground arith) h.1,
  )

  deliver_all_lem :
      (rs : List RiskRow) (t : Tables)
      → AreOnce rs
      → AreClaimed t.risks rs
      → deliver_all
          (outbox server service)
          (publisher server service answer ctx now)
          ctx
          now
          (deliveries_of at rs)
          t
        ≡ (ok tt, record t { risks = settled rs t.risks })
  unfolding deliver_all pure ◌>>=◌
  deliver_all_lem [] t once h = refl
  deliver_all_lem (r ∷ rs) t once h = rw (deliver_lem r t h.0) (
      deliver_all_lem rs (record t { risks = insert r.id (delivered r) t.risks }) once.1
        (still-AreClaimed r rs t.risks once.0 h.1))

  lookup-settled :
      (id : String) (rs : List RiskRow) (risks : Map String RiskRow)
      → AreOnce rs
      → lookup id (settled rs risks) ≡ after_cycle (row_of id rs) (lookup id risks)
  lookup-settled id [] risks once = refl
  lookup-settled id (r ∷ rs) risks once =
      lookup-settled id rs (insert r.id (delivered r) risks) once.1
      ∙ elim (Bool-cases (r.id == id)) [
        | inl same ↦
            rw
              (
                same,
                lookup-insert id r.id (delivered r) risks,
                row_of-none id rs (ap (λ k. among k rs) (sym ((eq_iff r.id id).0 same)) ∙ once.0),
              )
              (ground (arith, eq_iff r.id id, eq_iff id r.id))
        | inr other ↦
            rw (other, lookup-insert id r.id (delivered r) risks)
              (ground (arith, eq_iff r.id id, eq_iff id r.id))
      ]

module _ (server : Server) (service : Service) (answer : RiskEvent → Option String) (ctx : Context)
    (now : Time) (t : Tables) where
  -- The rows that the cycle claims.
  abbrev pub chosen : List RiskRow
  chosen =
      candidates server (server.stamp now) service.locked (normalise_outbox_limit (pos 32)) t.risks

  claimed_each :
      (ys : List RiskRow)
      → All (IsFree (server.stamp now) service.locked t.risks) chosen
      → All (λ (x : RiskRow). row_of x.id chosen ≡ some x) ys
      → All
          (λ (x : RiskRow).
            lookup x.id (claim_rows (server.stamp now) chosen t.risks)
            ≡ some (claim_row (server.stamp now) x))
          ys
  claimed_each [] free h = tt
  claimed_each (y ∷ ys) free h =
      let (stored, inside) = chosen_row _ _ t.risks y.id y chosen free h.0 in
      (
        lookup-claim_rows (server.stamp now) chosen y.id t.risks ∙ rw (stored, inside) refl,
        claimed_each ys free h.1,
      )

  module _ (ready : IsOutbox t.risks) (claims : service.claim ≡ committed)
      (marks : (id : String) → service.mark id ≡ committed)
      (arranged : IsArranged (service.arranged chosen) chosen) where
    free : All (IsFree (server.stamp now) service.locked t.risks) chosen
    free =
        candidates-All server (server.stamp now) service.locked (normalise_outbox_limit (pos 32))
          t.risks ready.one ready.keyed

    returned :
        AreClaimed server service answer ctx now marks
          (claim_rows (server.stamp now) chosen t.risks)
          (service.arranged chosen)
    returned = claimed_each (service.arranged chosen) free (
        arranged_found (service.arranged chosen) chosen (service.arranged chosen) arranged
          (each_found (service.arranged chosen) arranged.once))

    abbrev rest : List Delivery → Exec Tables ℕ
    rest ds =
        deliver_all (outbox server service) (publisher server service answer ctx now) ctx now ds
        >>= λ _. pure (length ds)

    claim_lem : claim_risk_events server service ctx (pos 32) now t ≡ (
      ok (deliveries_of (server.stamp now) (service.arranged chosen)),
      record t { risks = claim_rows (server.stamp now) chosen t.risks },
    )
    unfolding claim_risk_events
    claim_lem =
        ap
          (λ a. attempted a t (
            ok (deliveries_of (server.stamp now) (service.arranged chosen)),
            record t { risks = claim_rows (server.stamp now) chosen t.risks },
          ))
          claims

    cycle_lem :
        process_once (outbox server service) (publisher server service answer ctx now) ctx now t ≡ (
          ok (length (deliveries_of (server.stamp now) (service.arranged chosen))),
          record t {
            risks =
                settled server service answer ctx now marks
                  (service.arranged chosen)
                  (claim_rows (server.stamp now) chosen t.risks);
          },
        )
    unfolding process_once outbox pure ◌>>=◌
    cycle_lem =
        ap (λ (m : Result (List Delivery) × Tables). continue m.0 rest m.1) claim_lem
        ∙ ap
            (λ (m : Done × Tables).
              continue m.0
                (λ _. pure (length (deliveries_of (server.stamp now) (service.arranged chosen))))
                m.1)
            (deliver_all_lem server service answer ctx now marks (service.arranged chosen)
              (record t { risks = claim_rows (server.stamp now) chosen t.risks }) arranged.once
              returned)

    -- On an outbox in order, when the server serves the claim and every mark and returns each claimed row once,
    -- a cycle answers without an error, and each row that it claims, of at most 32 candidates, ends as its
    -- delivery went: published now, or failed, with the beginning of the publisher's error as its reason
    -- and available again after the delay for the attempts made. Every other row stays as it was.
    pub process_once-delivers :
        (id : String)
        → ((process_once
              (outbox server service)
              (publisher server service answer ctx now)
              ctx
              now
              t).0
            ≡ ok (length (deliveries_of (server.stamp now) (service.arranged chosen))))
          × (lookup id
                (process_once
                  (outbox server service)
                  (publisher server service answer ctx now)
                  ctx
                  now
                  t).1.risks
              ≡ after_cycle server service answer ctx now marks
                  (row_of id chosen)
                  (lookup id t.risks))
    process_once-delivers id = (
      ap (λ m. m.0) cycle_lem,
      ap (λ m. lookup id m.1.risks) cycle_lem
          ∙ lookup-settled server service answer ctx now marks id (service.arranged chosen)
              (claim_rows (server.stamp now) chosen t.risks) arranged.once
          ∙ ap
              (λ o.
                after_cycle server service answer ctx now marks o
                  (lookup id (claim_rows (server.stamp now) chosen t.risks)))
              (arranged.same id)
          ∙ elim (Option-cases (row_of id chosen)) [
            | inl none_of ↦ rw none_of (
                lookup-claim_rows (server.stamp now) chosen id t.risks
                ∙ kept none_of (lookup id t.risks))
            | inr (r, found) ↦ rw found refl
          ],
    )
      where
        kept :
            row_of id chosen ≡ none
            → (o : Option RiskRow) → after_claim (server.stamp now) chosen id o ≡ o
        kept e none = refl
        kept e (some r) = rw (unchosen id chosen e) refl
