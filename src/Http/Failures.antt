-- ===== src/Http/Failures.antt =====
-- What a status of 400 or more says of the state.
use secure_ledger.Prelude.{
  ◌≤◌, ◌<◌, ◌≡◌, refl, Context, Error, invalid_input, not_found, forbidden, insufficient_funds,
  currency_mismatch, idempotency_conflict, transfer_limit, request_too_large, unsupported_media,
  canceled, deadline_exceeded, internal, database, Result, ok, err, arith,
}
use secure_ledger.Prelude.Exec.{◌>>=◌, Exec, lift}
use secure_ledger.Domain.{Principal}
use secure_ledger.Store.{TransferResult}
use secure_ledger.App
use secure_ledger.App.{Service, Surroundings}
use secure_ledger.App.Clean.{
  IsClean, IsAtomicRepository, IsClean-lift, transfer-IsClean, create_account-IsClean,
  get_account-IsClean, list_journal-IsClean, list_audit-IsClean, list_risk_events-IsClean,
}
use secure_ledger.Http.{
  Request, Response, Route, healthz, readyz, accounts, account_by_id, new_transfer, journal, audit,
  risk_events, respond, render, serve, write_domain_error, transfer_response,
  principal_from_request,
}

-- Every error is answered with a status from 400 to 500.
pub write_domain_error-bounds :
    (e : Error) → (400 ≤ (write_domain_error e).status) × ((write_domain_error e).status ≤ 500)
unfolding write_domain_error
write_domain_error-bounds invalid_input = omega arith
write_domain_error-bounds not_found = omega arith
write_domain_error-bounds forbidden = omega arith
write_domain_error-bounds insufficient_funds = omega arith
write_domain_error-bounds currency_mismatch = omega arith
write_domain_error-bounds idempotency_conflict = omega arith
write_domain_error-bounds transfer_limit = omega arith
write_domain_error-bounds request_too_large = omega arith
write_domain_error-bounds unsupported_media = omega arith
write_domain_error-bounds canceled = omega arith
write_domain_error-bounds deadline_exceeded = omega arith
write_domain_error-bounds internal = omega arith
write_domain_error-bounds (database code name) = omega arith

transfer_response_status : (t : TransferResult) → (transfer_response t).status < 400
transfer_response_status t = ground arith

-- A failing answer of a clean block whose values are answered with less than 400.
respond-clean :
    {S N A : Type 0} (f : A → Response) (m : Exec (S × N) A) (w : S × N)
    → ((a : A) → (f a).status < 400)
    → IsClean m
    → 400 ≤ (respond f m w).0.status
    → (respond f m w).1.0 ≡ w.0
respond-clean {S} {N} {A} f m w low clean h = go (m w).0 refl h
  where
    go : (r : Result A) → (m w).0 ≡ r → 400 ≤ (render f r).status → (m w).1.0 ≡ w.0
    go (ok a) e k = absurd (omega (arith, k, low a))
    go (err c) e k = clean.at w c e

-- A block of a handler, behind its principal.
authenticated :
    {S N A : Type 0} (f : A → Response) (r : Request) (k : Principal → Exec (S × N) A) (w : S × N)
    → ((a : A) → (f a).status < 400)
    → ((actor : Principal) → IsClean (k actor))
    → 400 ≤ (respond f (lift (principal_from_request r) >>= k) w).0.status
    → (respond f (lift (principal_from_request r) >>= k) w).1.0 ≡ w.0
authenticated f r k w low clean h = respond-clean f _ w low (IsClean-lift _ k clean) h

module _ {S N : Type 0} (service : Service S N) (repo : IsAtomicRepository service.repo)
    (ctx : Context) (env : Surroundings) (r : Request) (ready_ctx : Context) where
  -- Over a repository whose methods write nothing when they fail, an answer of 400 or more, on any
  -- route, leaves the repository as it was.
  pub serve-unchanged :
      (route : Route) (w : S × N)
      → 400 ≤ (serve service ctx env r ready_ctx route w).0.status
      → (serve service ctx env r ready_ctx route w).1.0 ≡ w.0
  unfolding serve App.ready
  serve-unchanged healthz w h = refl
  serve-unchanged readyz w h = (repo.ping ready_ctx).at w.0
  serve-unchanged accounts w h =
      authenticated _ r _ w (λ a. omega arith)
        (λ actor. IsClean-lift _ _ λ cmd. create_account-IsClean service repo ctx env actor cmd) h
  serve-unchanged account_by_id w h =
      authenticated _ r _ w (λ a. omega arith)
        (λ actor. get_account-IsClean service repo ctx actor r.path_id) h
  serve-unchanged new_transfer w h =
      authenticated _ r _ w transfer_response_status
        (λ actor. IsClean-lift _ _ λ cmd. transfer-IsClean service repo ctx env actor _) h
  serve-unchanged journal w h =
      authenticated _ r _ w (λ a. omega arith)
        (λ actor. IsClean-lift _ _ λ limit. list_journal-IsClean service repo ctx actor limit) h
  serve-unchanged audit w h =
      authenticated _ r _ w (λ a. omega arith)
        (λ actor. IsClean-lift _ _ λ limit. list_audit-IsClean service repo ctx actor limit) h
  serve-unchanged risk_events w h =
      authenticated _ r _ w (λ a. omega arith)
        (λ actor. IsClean-lift _ _ λ limit. list_risk_events-IsClean service repo ctx actor limit) h
