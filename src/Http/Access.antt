-- ===== src/Http/Access.antt =====
-- Requests without a valid principal.
use secure_ledger.Prelude.{◌≡◌, refl, Bool, true, false, Context, forbidden, err}
use secure_ledger.Prelude.Exec.{◌>>=◌, Exec, lift}
use secure_ledger.Domain.{Principal, is_valid}
use secure_ledger.App.{Service, Surroundings}
use secure_ledger.Http.{
  Request, Response, Route, healthz, readyz, accounts, account_by_id, new_transfer, journal, audit,
  risk_events, principal_from_request, claimed, write_error, respond, serve, write_domain_error,
}

-- The routes that ask for no principal.
abbrev pub is_open : Route → Bool
is_open healthz = true
is_open readyz = true
is_open accounts = false
is_open account_by_id = false
is_open new_transfer = false
is_open journal = false
is_open audit = false
is_open risk_events = false

refused_principal :
    (r : Request) → is_valid (claimed r) ≡ false → principal_from_request r ≡ err forbidden
unfolding principal_from_request
refused_principal r h = rw h refl

-- A block that begins with the principal is refused with it.
refused_block :
    {W A : Type 0} (f : A → Response) (r : Request) (k : Principal → Exec W A) (w : W)
    → is_valid (claimed r) ≡ false
    → respond f (lift (principal_from_request r) >>= k) w ≡ (write_error 403 "forbidden", w)
unfolding ◌>>=◌ write_domain_error
refused_block f r k w h = rw (refused_principal r h) refl

-- On every route but the two for health, a request whose headers name no valid principal is answered
-- with status 403, and neither the repository nor the notifier is called: the state is as it was.
pub serve-unauthenticated :
    {S N : Type 0} (service : Service S N) (ctx : Context) (env : Surroundings) (r : Request)
    (ready_ctx : Context) (route : Route) (w : S × N)
    → is_open route ≡ false
    → is_valid (claimed r) ≡ false
    → serve service ctx env r ready_ctx route w ≡ (write_error 403 "forbidden", w)
unfolding serve
serve-unauthenticated service ctx env r c healthz w o h = cc
serve-unauthenticated service ctx env r c readyz w o h = cc
serve-unauthenticated service ctx env r c accounts w o h = refused_block _ r _ w h
serve-unauthenticated service ctx env r c account_by_id w o h = refused_block _ r _ w h
serve-unauthenticated service ctx env r c new_transfer w o h = refused_block _ r _ w h
serve-unauthenticated service ctx env r c journal w o h = refused_block _ r _ w h
serve-unauthenticated service ctx env r c audit w o h = refused_block _ r _ w h
serve-unauthenticated service ctx env r c risk_events w o h = refused_block _ r _ w h
