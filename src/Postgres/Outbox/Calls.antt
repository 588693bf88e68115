-- ===== src/Postgres/Outbox/Calls.antt =====
-- What each call on the outbox keeps.
use secure_ledger.Prelude.{
  String, count, ◌≡◌, ◌≢◌, refl, sym, ap, subst, ◌∙◌, Option, none, some, Bool-cases, inl, inr,
  arith, eq_iff, ◌==◌, string_Eq, nat_Eq, if◌then◌else◌, ltb, Result, Done, ok, err, Context,
  >>=-eq-ok, database,
}
use secure_ledger.Prelude.Int.{ℤ}
use secure_ledger.Prelude.Map.{Map, lookup, insert, contains}
use secure_ledger.Domain.{Time, RiskEvent, Transfer}
use secure_ledger.Postgres.{
  Server, Tables, RiskRow, Attempt, refused, aborted, committed, lost, risk_row, insert_risk_row,
  statement, written, add_risk, unique, check_risk_row,
}
use secure_ledger.Postgres.Sound.Booked.{not_taken}
use secure_ledger.Postgres.Outbox.{
  Service, candidates, attempted, mark_row, claim_risk_events, mark_risk_event_published,
  mark_risk_event_failed, normalise_outbox_limit, publish_row, fail_row, check_failure,
}
use secure_ledger.Postgres.Outbox.Claims.{candidates-All}
use secure_ledger.Postgres.Outbox.Orderly.{
  IsOrderly, IsOutbox, Keeps, keeps_all, keeps_row, claim_rows-Keeps,
}

attempted-Keeps :
    {A : Type 0} (a : Attempt) (t : Tables) (m : Result A × Tables)
    → IsOutbox t.risks
    → Keeps t.risks m.1.risks
    → Keeps t.risks (attempted a t m).1.risks
attempted-Keeps (refused e) t m h k = keeps_all t.risks h
attempted-Keeps (aborted e) t m h k = keeps_all t.risks h
attempted-Keeps committed t m h k = k
attempted-Keeps (lost e) t m h k = k

different : {s : String} → s ≡ "processing" → s ≢ "published"
different p e = ground (arith, ap (λ k. k == "published") (sym p ∙ e))

mark_row-Keeps :
    (server : Server) (service : Service) (t : Tables) (id : String)
    (set : RiskRow → Result RiskRow)
    → IsOutbox t.risks
    → ((r r' : RiskRow)
        → r.status ≡ "processing"
        → IsOrderly r
        → set r ≡ ok r'
        → (r'.id ≡ r.id) × IsOrderly r')
    → Keeps t.risks (mark_row server service (lookup id t.risks) set t).1.risks
mark_row-Keeps server service t id set h f = go (lookup id t.risks) refl
  where
    done :
        (r : RiskRow)
        → lookup id t.risks ≡ some r
        → r.status ≡ "processing"
        → (x : Result RiskRow) → set r ≡ x
        → Keeps t.risks
            (elim x as (λ _. Done × Tables) [
              | err e ↦ (err e, t)
              | ok r' ↦ (ok tt, record t { risks = insert r.id r' t.risks })
            ]).1.risks
    done r found s (err e) eq = keeps_all t.risks h
    done r found s (ok r') eq =
        let (named, orderly) = f r r' s (h.orderly id r found) eq in
        subst (λ k. Keeps t.risks (insert k r' t.risks)) named
          (keeps_row t.risks r' h orderly (λ x other e.
            let stored = ap (λ k. lookup k t.risks) (named ∙ h.keyed id r found) ∙ found in
            let same : r ≡ x = ground arith in
            different s (ap (λ (y : RiskRow). y.status) same ∙ e)))

    go :
        (o : Option RiskRow)
        → lookup id t.risks ≡ o
        → Keeps t.risks (mark_row server service o set t).1.risks
    go none e = keeps_all t.risks h
    go (some r) e = elim (Bool-cases (r.status == "processing")) [
      | inl held ↦ rw held (done r e ((eq_iff r.status "processing").0 held) (set r) refl)
      | inr other ↦ rw other (keeps_all t.risks h)
    ]

statement-Keeps :
    (check : Tables → Done) (write : Tables → Tables) (t : Tables)
    → IsOutbox t.risks
    → (check t ≡ ok tt → Keeps t.risks (write t).risks)
    → Keeps t.risks (statement check write t).1.risks
unfolding statement
statement-Keeps check write t h f = go (check t) refl
  where
    go : (d : Done) → check t ≡ d → Keeps t.risks (written d (write t) t).1.risks
    go (ok _) e = f e
    go (err c) e = keeps_all t.risks h

-- A new row is pending.
pub added_row-Keeps :
    (server : Server) (e : RiskEvent) (x : Transfer) (t : Tables)
    → IsOutbox t.risks
    → Keeps t.risks (insert_risk_row (risk_row server e x) t).1.risks
unfolding insert_risk_row contains
added_row-Keeps server e x t h = statement-Keeps _ (add_risk (risk_row server e x)) t h (λ passed.
    let (_, _, c) = >>=-eq-ok (check_risk_row (risk_row server e x)) _ passed in
    let (_, new, _) = >>=-eq-ok (unique (contains e.id t.risks) "risk_events_pkey") _ c in
    keeps_row t.risks (risk_row server e x) h
      (record {
        tried = omega arith;
        pending = refl;
        locked = refl;
        published = refl;
        reason = refl;
      })
      (λ y found is_published. ground (arith, not_taken _ _ new)))

ok_value : {A : Type 0} {a b : A} → ok a ≡ ok b → a ≡ b
ok_value e = cc

published_row :
    (at : Time) (r : RiskRow) → r.status ≡ "processing" → IsOrderly r → IsOrderly (publish_row at r)
published_row at r s o = record {
  tried = o.tried;
  pending = sym (ap (λ k. k == "pending") s) ∙ o.pending;
  locked = refl;
  published = refl;
  reason = refl;
}

failed_row :
    (reason : String) (at : Time) (r r' : RiskRow)
    → r.status ≡ "processing"
    → IsOrderly r
    → check_failure reason at r ≡ ok r'
    → (r'.id ≡ r.id) × IsOrderly r'
failed_row reason at r r' s o e = elim (Bool-cases (ltb 500 (count reason))) [
  | inl long ↦ ground arith
  | inr fits ↦
      subst (λ (y : RiskRow). (y.id ≡ r.id) × IsOrderly y)
        (ok_value (
          sym (
            ap
              (λ b.
                if b
                then err (database "23514" "risk_events_last_error_check")
                else ok (fail_row reason at r))
              fits)
          ∙ e))
        (
          refl,
          record {
            tried = o.tried;
            pending = sym (ap (λ k. k == "pending") s) ∙ o.pending;
            locked = refl;
            published = refl;
            reason = ground arith;
          },
        )
]

module _ (server : Server) (service : Service) (ctx : Context) (t : Tables)
    (h : IsOutbox t.risks) where
  pub claim_risk_events-Keeps :
      (limit : ℤ) (now : Time)
      → Keeps t.risks (claim_risk_events server service ctx limit now t).1.risks
  unfolding claim_risk_events
  claim_risk_events-Keeps limit now =
      let chosen =
        candidates server (server.stamp now) service.locked (normalise_outbox_limit limit)
          t.risks in
      attempted-Keeps service.claim t _ h (
        claim_rows-Keeps (server.stamp now) service.locked chosen t.risks h (
          candidates-All server (server.stamp now) service.locked (normalise_outbox_limit limit)
            t.risks h.one h.keyed))

  pub mark_risk_event_published-Keeps :
      (id : String) (at : Time)
      → Keeps t.risks (mark_risk_event_published server service ctx id at t).1.risks
  unfolding mark_risk_event_published
  mark_risk_event_published-Keeps id at = attempted-Keeps (service.mark id) t _ h (
      mark_row-Keeps server service t id _ h (λ r r' s o e.
        subst (λ (y : RiskRow). (y.id ≡ r.id) × IsOrderly y) (ok_value e)
          (refl, published_row (server.stamp at) r s o)))

  pub mark_risk_event_failed-Keeps :
      (id reason : String) (at : Time)
      → Keeps t.risks (mark_risk_event_failed server service ctx id reason at t).1.risks
  unfolding mark_risk_event_failed
  mark_risk_event_failed-Keeps id reason at = attempted-Keeps (service.mark id) t _ h (
      mark_row-Keeps server service t id _ h
        (λ r r' s o e. failed_row reason (server.stamp at) r r' s o e))

pub keeps_trans : (a b c : Map String RiskRow) → Keeps a b → Keeps b c → Keeps a c
keeps_trans a b c x y = record {
  outbox = y.outbox;
  final = λ id r found e. y.final id r (x.final id r found e) e;
}
