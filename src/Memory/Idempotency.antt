-- ===== src/Memory/Idempotency.antt =====
-- A transfer is made at most once for each actor and idempotency key.
use secure_ledger.Prelude.{
  ◌≡◌, ◌≢◌, sym, ap, ◌∙◌, subst, true, none, some, List, [], ◌∷◌, arith, Result, ok, err,
  idempotency_conflict, Context,
}
use secure_ledger.Prelude.Map.{lookup, lookup-insert, lookup-insert_self}
use secure_ledger.Domain.{Transfer}
use secure_ledger.Domain.Records.{intent_equal_iff}
use secure_ledger.Store.{ApplyTransferInput, TransferResult}
use secure_ledger.Memory.{
  Store, Scope, scope_Eq, scope_eq_iff, scope_of, check_transfer_input, replay, write_transfer,
  write_account, write_opening, apply_transfer, Call, creates, transfers, step, run,
}
use secure_ledger.Memory.Cases.{
  TransferCase, refused, replayed, accepted, apply_transfer-cases, CreateCase, rejected, empty,
  funded, create_account-cases,
}

abbrev pub Remembers : Scope → Transfer → Store → Type 0
Remembers k t s = lookup k s.idempotency ≡ some t

-- What the store remembers it never forgets or replaces.
step-Remembers :
    (k : Scope) (t : Transfer) (c : Call) (s : Store) → Remembers k t s → Remembers k t (step c s)
unfolding step
step-Remembers k t (creates ctx input) s h = go (create_account-cases ctx input s)
  where
    go : CreateCase ctx input s → Remembers k t (step (creates ctx input) s)
    go (rejected e eq) = subst (Remembers k t) (sym (ap (λ x. x.1) eq)) h
    go (empty valid zero eq) =
        subst (Remembers k t) (sym (ap (λ x. x.1) eq)) (unfold write_account in h)
    go (funded a valid positive o eq) =
        subst (Remembers k t) (sym (ap (λ x. x.1) eq)) (unfold write_account write_opening in h)
step-Remembers k t (transfers ctx input) s h = go (apply_transfer-cases ctx input s)
  where
    go : TransferCase ctx input s → Remembers k t (step (transfers ctx input) s)
    go (refused e eq) = subst (Remembers k t) (sym (ap (λ x. x.1) eq)) h
    go (replayed t' known same eq) = subst (Remembers k t) (sym (ap (λ x. x.1) eq)) h
    go (accepted p a eq) = subst (Remembers k t) (sym (ap (λ x. x.1) eq)) (
        unfold write_transfer in
        ground (
          arith,
          a.unknown,
          lookup-insert k (scope_of input.transfer) input.transfer s.idempotency,
          scope_eq_iff k (scope_of input.transfer),
        ))

pub run-Remembers :
    (k : Scope) (t : Transfer) (cs : List Call) (s : Store)
    → Remembers k t s
    → Remembers k t (run cs s)
unfolding run
run-Remembers k t [] s h = h
run-Remembers k t (c ∷ cs) s h = run-Remembers k t cs (step c s) (step-Remembers k t c s h)

reply_transfer :
    (m : Result TransferResult) {a b : TransferResult}
    → m ≡ ok a
    → m ≡ ok b
    → a.transfer ≡ b.transfer
reply_transfer m ea eb = cc

-- A transfer that succeeded is remembered under its scope, with the intent that was asked for.
pub apply_transfer-Remembers :
    (ctx : Context) (input : ApplyTransferInput) (s : Store) (r : TransferResult)
    → (apply_transfer ctx input s).0 ≡ ok r
    → Remembers (scope_of input.transfer) r.transfer (apply_transfer ctx input s).1
      × (r.transfer.intent ≡ input.transfer.intent)
apply_transfer-Remembers ctx input s r h = go (apply_transfer-cases ctx input s)
  where
    go :
        TransferCase ctx input s
        → Remembers (scope_of input.transfer) r.transfer (apply_transfer ctx input s).1
          × (r.transfer.intent ≡ input.transfer.intent)
    go (refused e eq) = cc (h, ap (λ x. x.0) eq)
    go (replayed t known same eq) =
        let e : t ≡ r.transfer = reply_transfer _ (ap (λ x. x.0) eq) h in
        (
          subst (Remembers (scope_of input.transfer) r.transfer) (sym (ap (λ x. x.1) eq))
              (known ∙ ap some e),
          ap (λ (u : Transfer). u.intent) (sym e)
              ∙ (intent_equal_iff t.intent input.transfer.intent).0 same,
        )
    go (accepted p a eq) =
        let e : input.transfer ≡ r.transfer = reply_transfer _ (ap (λ x. x.0) eq) h in
        (
          subst (Remembers (scope_of input.transfer) r.transfer) (sym (ap (λ x. x.1) eq)) (
              unfold write_transfer in
              (lookup-insert_self (scope_of input.transfer) input.transfer s.idempotency
                ∙ ap some e)),
          ap (λ (u : Transfer). u.intent) (sym e),
        )

-- What the store answers to a request under a scope that it remembers.
module _ (input : ApplyTransferInput) (s : Store) (t : Transfer)
    (valid : check_transfer_input input ≡ ok tt)
    (known : Remembers (scope_of input.transfer) t s) where
  replay_known :
      t.intent ≡ input.transfer.intent
      → apply_transfer none input s ≡ (ok (record { transfer = t; replayed = true }), s)
  unfolding apply_transfer replay
  replay_known e = ground (arith, intent_equal_iff t.intent input.transfer.intent)

  conflict_known :
      t.intent ≢ input.transfer.intent → apply_transfer none input s ≡ (err idempotency_conflict, s)
  unfolding apply_transfer replay
  conflict_known e = ground (arith, intent_equal_iff t.intent input.transfer.intent)

-- A request that was granted may be sent again at any later time: whatever calls came between, a retry
-- with the same actor, key and intent that is well formed, under a live context, gets the first transfer
-- back, marked as replayed, and changes nothing.
pub retry_replays :
    (ctx : Context) (input retry : ApplyTransferInput) (s : Store) (r : TransferResult)
    (between : List Call)
    → (apply_transfer ctx input s).0 ≡ ok r
    → check_transfer_input retry ≡ ok tt
    → scope_of input.transfer ≡ scope_of retry.transfer
    → input.transfer.intent ≡ retry.transfer.intent
    → let later = run between (apply_transfer ctx input s).1 in
      apply_transfer none retry later
      ≡ (ok (record { transfer = r.transfer; replayed = true }), later)
retry_replays ctx input retry s r between h valid scope intent =
    let (kept, asked) = apply_transfer-Remembers ctx input s r h in
    let later = run between (apply_transfer ctx input s).1 in
    replay_known retry later r.transfer valid
      (subst (λ k. Remembers k r.transfer later) scope
        (run-Remembers (scope_of input.transfer) r.transfer between (apply_transfer ctx input s).1
          kept))
      (asked ∙ intent)

-- After a request that was granted, whatever calls came between, a well-formed request with the same
-- actor and key and another intent, under a live context, is refused as a conflict and changes nothing.
pub reuse_conflicts :
    (ctx : Context) (input reuse : ApplyTransferInput) (s : Store) (r : TransferResult)
    (between : List Call)
    → (apply_transfer ctx input s).0 ≡ ok r
    → check_transfer_input reuse ≡ ok tt
    → scope_of input.transfer ≡ scope_of reuse.transfer
    → input.transfer.intent ≢ reuse.transfer.intent
    → let later = run between (apply_transfer ctx input s).1 in
      apply_transfer none reuse later ≡ (err idempotency_conflict, later)
reuse_conflicts ctx input reuse s r between h valid scope other =
    let (kept, asked) = apply_transfer-Remembers ctx input s r h in
    let later = run between (apply_transfer ctx input s).1 in
    conflict_known reuse later r.transfer valid
      (subst (λ k. Remembers k r.transfer later) scope
        (run-Remembers (scope_of input.transfer) r.transfer between (apply_transfer ctx input s).1
          kept))
      (λ e. other (sym asked ∙ e))
