-- ===== src/Http.antt =====
-- internal/httpapi/server.go: the handlers of the service's routes. The choice of the route is
-- net/http's, and of the middleware only the response writer is modelled.
mod Wire
mod Tests
pub mod Access
pub mod Failures
pub mod Limits
pub mod Writer
unfoldable pub use Wire.*
use secure_ledger.Prelude.{
  String, ℕ, Bool, true, false, if◌then◌else◌, List, [], ◌∷◌, Result, Done, ok, err, Context,
}
use secure_ledger.Prelude.Int.{ℤ}
use secure_ledger.Prelude.Exec.{Exec, lift, ◌>>=◌, ◌>>◌}
use secure_ledger.Domain.{Principal, Account, Posting, AuditRecord, RiskEvent}
use secure_ledger.Store.{TransferResult}
use secure_ledger.App
use secure_ledger.App.{Service, Surroundings, CreateAccountCommand, TransferCommand}

-- The routes of `New`.
pub data Route : Type 0 where
  healthz readyz accounts account_by_id new_transfer journal audit risk_events : Route

-- The patterns that `New` registers, each with the handler of its route.
abbrev pub patterns : List (String × Route)
patterns =
    ("GET /healthz", healthz)
    ∷ ("GET /readyz", readyz)
    ∷ ("POST /v1/accounts", accounts)
    ∷ ("GET /v1/accounts/{id}", account_by_id)
    ∷ ("POST /v1/transfers", new_transfer)
    ∷ ("GET /v1/journal", journal)
    ∷ ("GET /v1/audit", audit)
    ∷ ("GET /v1/risk-events", risk_events)
    ∷ []

-- An error is written by `writeDomainError`, a value as the handler says.
abbrev pub render : {A : Type 0} → (A → Response) → Result A → Response
render f (err e) = write_domain_error e
render f (ok a) = f a

abbrev pub respond : {W A : Type 0} → (A → Response) → Exec W A → W → Response × W
respond f m w = let (r, w') = m w in (render f r, w')

-- `createTransfer`'s answer.
abbrev pub transfer_response : TransferResult → Response
transfer_response r =
    if r.replayed
    then record { status = 200; replayed = true; content = result r }
    else write_json 201 (result r)

abbrev ready_response : Done → Response
ready_response (err e) = write_error 503 "not_ready"
ready_response (ok _) = write_json 200 (state "ready")

module _ {S N : Type 0} (service : Service S N) (ctx : Context) (env : Surroundings)
    (r : Request) where
  unfoldable pub health : S × N → Response × (S × N)
  health w = (write_json 200 (state "ok"), w)

  unfoldable pub ready : Context → S × N → Response × (S × N)
  ready ready_ctx w = let (reply, w') = App.ready service ready_ctx w in (ready_response reply, w')

  unfoldable pub create_account : S × N → Response × (S × N)
  create_account =
      respond (λ a. write_json 201 (account a))
        (do
          actor ← lift (principal_from_request r)
          cmd ← lift (decode_json r r.account_body)
          App.create_account service ctx env actor cmd)

  unfoldable pub get_account : S × N → Response × (S × N)
  get_account =
      respond (λ a. write_json 200 (account a))
        (do actor ← lift (principal_from_request r); App.get_account service ctx actor r.path_id)

  -- The key comes from the header, whatever the body says.
  unfoldable pub create_transfer : S × N → Response × (S × N)
  create_transfer = respond transfer_response (do
    actor ← lift (principal_from_request r)
    cmd ← lift (decode_json r r.transfer_body)
    App.transfer service ctx env actor
        (record cmd { idempotency_key = r.header "Idempotency-Key" }))

  unfoldable pub list_journal : S × N → Response × (S × N)
  list_journal =
      respond (λ items. write_json 200 (postings items))
        (do
          actor ← lift (principal_from_request r)
          limit ← lift (query_limit r)
          App.list_journal service ctx actor limit)

  unfoldable pub list_audit : S × N → Response × (S × N)
  list_audit =
      respond (λ items. write_json 200 (audits items))
        (do
          actor ← lift (principal_from_request r)
          limit ← lift (query_limit r)
          App.list_audit service ctx actor limit)

  unfoldable pub list_risk_events : S × N → Response × (S × N)
  list_risk_events =
      respond (λ items. write_json 200 (events items))
        (do
          actor ← lift (principal_from_request r)
          limit ← lift (query_limit r)
          App.list_risk_events service ctx actor limit)

  -- A request at a route; `ready_ctx` is the context that `Ready` derives.
  unfoldable pub serve : Context → Route → S × N → Response × (S × N)
  unfolding health ready create_account get_account create_transfer list_journal list_audit
      list_risk_events
  serve ready_ctx healthz = health
  serve ready_ctx readyz = ready ready_ctx
  serve ready_ctx accounts = create_account
  serve ready_ctx account_by_id = get_account
  serve ready_ctx new_transfer = create_transfer
  serve ready_ctx journal = list_journal
  serve ready_ctx audit = list_audit
  serve ready_ctx risk_events = list_risk_events
