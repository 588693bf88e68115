-- ===== src/Http/Tests.antt =====
-- Requests to the service over a new in-memory store.
use secure_ledger.Prelude.{
  String, ◌≡◌, refl, true, false, none, some, [], ◌∷◌, arith, if◌then◌else◌, ◌==◌, string_Eq,
}
use secure_ledger.Prelude.Int.{pos}
use secure_ledger.Prelude.Exec.{◌>>=◌}
use secure_ledger.Prelude.Text.{trim_space, is_blank}
use secure_ledger.Domain.{is_valid}
use secure_ledger.Memory.{Store, new}
use secure_ledger.App.{Config, Service, Surroundings, create_account, can_create}
use secure_ledger.Http
use secure_ledger.Http.{
  Request, object, malformed, Route, accounts, journal, serve, claimed, principal_from_request,
  write_error, query_limit, decode_json, write_domain_error, write_header, write,
}
use secure_ledger.Http.Access.{serve-unauthenticated}
use secure_ledger.Http.{middleware, security_headers}
use secure_ledger.Http.Writer.{header, handler, middleware-answered}
use secure_ledger.Ledger.{memory_service}
use secure_ledger.Ledger.Answers.{failure_unchanged}

abbrev env : Surroundings
env = record { now = 5; random = λ n. n ∷ [] }

-- A customer asks for a new account, or for the journal.
abbrev request : String → Request
request role = record {
  header = λ name.
      if name == "X-Principal-ID" then "alice" else if name == "X-Principal-Role" then role else "";
  media_type = some "application/json";
  path_id = "";
  query = λ name. "20";
  number = λ value. some (pos 20);
  account_body =
      object (record { owner_id = "alice"; currency = "GBP"; opening_balance_minor = pos 9 }) true;
  transfer_body = malformed;
}

abbrev cfg : Config
cfg = record { max_transfer_minor = pos 0; risk_threshold_minor = pos 0 }

abbrev desk : Service Store Unit
desk = memory_service none cfg

not_valid : is_valid (claimed (request "guest")) ≡ false
unfolding is_valid trim_space is_blank
not_valid = refl

serve-unauthenticated_example :
    serve desk none env (request "guest") none journal (new, tt)
    ≡ (write_error 403 "forbidden", (new, tt))
serve-unauthenticated_example =
    serve-unauthenticated desk none env (request "guest") none journal (new, tt) refl not_valid

-- A customer may not create an account.
refused : (serve desk none env (request "customer") none accounts (new, tt)).0.status ≡ 403
unfolding serve Http.create_account create_account can_create is_valid trim_space
    principal_from_request decode_json write_domain_error ◌>>=◌ is_blank
refused = refl

failure_unchanged_example :
    (serve desk none env (request "customer") none accounts (new, tt)).1.0 ≡ new
failure_unchanged_example =
    failure_unchanged none cfg none env (request "customer") none accounts (new, tt)
      (omega (arith, refused))

-- A handler that panics behind its header.
middleware-answered_example :
    ((middleware (handler (header 201 ∷ []) true)).0 ≡ security_headers)
    × ((middleware (handler (header 201 ∷ []) true)).1.sent ≡ 201 ∷ [])
middleware-answered_example = middleware-answered (header 201 ∷ []) true (omega arith)
