-- ===== src/Ledger/Answers.antt =====
-- What the answers of the HTTP boundary say of the in-memory store.
use secure_ledger.Prelude.{
  ◌≤◌, ◌≡◌, refl, Bool, Option, Context, check_context, Result-cases, inl, inr, arith,
}
use secure_ledger.Prelude.Int.{ℤ}
use secure_ledger.Domain.{RiskEvent}
use secure_ledger.Memory
use secure_ledger.Memory.{Store, repository}
use secure_ledger.Memory.Effects.{apply_transfer-unchanged, create_account-unchanged}
use secure_ledger.App.{Config, Surroundings}
use secure_ledger.App.Clean.{Reads, IsAtomicRepository}
use secure_ledger.Http.{Request, Route, serve}
use secure_ledger.Http.Failures.{serve-unchanged}
use secure_ledger.Ledger.{memory_service}
use secure_ledger.Memory.Facts.{get_account-same}

ping-Reads : (ctx : Context) → Reads (Memory.ping ctx)
unfolding Memory.ping
ping-Reads ctx = record { at = λ s. refl }

list_journal-Reads : (ctx : Context) (limit : ℤ) → Reads (Memory.list_journal ctx limit)
unfolding Memory.list_journal
list_journal-Reads ctx limit = record {
  at = λ s. elim (Result-cases (check_context ctx)) [
    | inl (e, dead) ↦ ground arith
    | inr (_, live) ↦ ground arith
  ];
}

list_audit-Reads : (ctx : Context) (limit : ℤ) → Reads (Memory.list_audit ctx limit)
unfolding Memory.list_audit
list_audit-Reads ctx limit = record {
  at = λ s. elim (Result-cases (check_context ctx)) [
    | inl (e, dead) ↦ ground arith
    | inr (_, live) ↦ ground arith
  ];
}

list_risk_events-Reads : (ctx : Context) (limit : ℤ) → Reads (Memory.list_risk_events ctx limit)
unfolding Memory.list_risk_events
list_risk_events-Reads ctx limit = record {
  at = λ s. elim (Result-cases (check_context ctx)) [
    | inl (e, dead) ↦ ground arith
    | inr (_, live) ↦ ground arith
  ];
}

pub repository-IsAtomicRepository : IsAtomicRepository repository
repository-IsAtomicRepository = record {
  ping = ping-Reads;
  create_account = λ ctx input. record { at = λ s e h. create_account-unchanged ctx input s e h };
  get_account = λ ctx id. record { at = λ s. get_account-same ctx id s };
  apply_transfer = λ ctx input. record { at = λ s e h. apply_transfer-unchanged ctx input s e h };
  list_journal = list_journal-Reads;
  list_audit = list_audit-Reads;
  list_risk_events = list_risk_events-Reads;
}

-- With the in-memory store, a request on any route that is answered with a status of 400 or more has
-- left the store as it was: no account, posting, audit record or idempotency record was written.
pub failure_unchanged :
    {N : Type 0} (notifier : Option (RiskEvent → N → Bool × N)) (cfg : Config) (ctx : Context)
    (env : Surroundings) (r : Request) (ready_ctx : Context) (route : Route) (w : Store × N)
    → 400 ≤ (serve (memory_service notifier cfg) ctx env r ready_ctx route w).0.status
    → (serve (memory_service notifier cfg) ctx env r ready_ctx route w).1.0 ≡ w.0
failure_unchanged notifier cfg ctx env r ready_ctx route w h =
    serve-unchanged (memory_service notifier cfg) repository-IsAtomicRepository ctx env r ready_ctx
      route w h
