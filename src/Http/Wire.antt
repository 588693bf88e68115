-- ===== src/Http/Wire.antt =====
-- What the handlers of internal/httpapi/server.go read of a request and write as a response.
use Prim.Native.Nat.{ℕ}
use Prim.Native.String.{String}
use secure_ledger.Prelude.{
  Bool, false, ◌&&◌, Option, none, some, List, ◌==◌, string_Eq, nat_Eq, if◌then◌else◌, ◌||◌, not,
  ◌++◌, ◌∷◌, [], Error, invalid_input, not_found, forbidden, insufficient_funds, currency_mismatch,
  idempotency_conflict, transfer_limit, request_too_large, unsupported_media, canceled,
  deadline_exceeded, internal, database, Result, ok, err, raise_if, ◌>>◌,
}
use secure_ledger.Prelude.Int.{ℤ, pos, ltb_ℤ}
use secure_ledger.Prelude.Text.{trim_space}
use secure_ledger.Domain.{Principal, Account, Posting, AuditRecord, RiskEvent, is_valid}
use secure_ledger.Store.{TransferResult}
use secure_ledger.App.{CreateAccountCommand, TransferCommand}

-- What encoding/json makes of a body: more than `maxBodyBytes`, no such object, or an object and
-- whether the body ends behind it.
pub data Body (A : Type 0) : Type 0 where
  too_large malformed : Body A
  object : A → Bool → Body A

-- A request. `media_type` is what `mime.ParseMediaType` makes of its content type, `none` on an
-- error, and `number` what `strconv.Atoi` makes of a text.
pub record Request : Type 0 where
  pub header : String → String
  pub media_type : Option String
  pub path_id : String
  pub query : String → String
  pub number : String → Option ℤ
  pub account_body : Body CreateAccountCommand
  pub transfer_body : Body TransferCommand

-- `principalFromRequest`
abbrev pub claimed : Request → Principal
claimed r = record {
  id = trim_space (r.header "X-Principal-ID");
  role = trim_space (r.header "X-Principal-Role");
}

unfoldable pub principal_from_request : Request → Result Principal
principal_from_request r = if is_valid (claimed r) then ok (claimed r) else err forbidden

-- `decodeJSON`
abbrev pub read_body : {A : Type 0} → Body A → Result A
read_body too_large = err request_too_large
read_body malformed = err invalid_input
read_body (object a ends) = if ends then ok a else err invalid_input

abbrev pub is_json : Option String → Bool
is_json none = false
is_json (some t) = t == "application/json"

unfoldable pub decode_json : {A : Type 0} → Request → Body A → Result A
decode_json r body = do raise_if (not (is_json r.media_type)) unsupported_media; read_body body

-- `queryLimit`
abbrev pub in_limits : Option ℤ → Result ℤ
in_limits none = err invalid_input
in_limits (some n) = if ltb_ℤ n (pos 1) || ltb_ℤ (pos 1000) n then err invalid_input else ok n

unfoldable pub query_limit : Request → Result ℤ
query_limit r =
    let value = r.query "limit" in if value == "" then ok (pos 100) else in_limits (r.number value)

-- The body of a response, before it is printed; of an error its code.
pub data Content : Type 0 where
  state : String → Content
  account : Account → Content
  result : TransferResult → Content
  postings : List Posting → Content
  audits : List AuditRecord → Content
  events : List RiskEvent → Content
  failure : String → Content

-- `replayed` is the header Idempotent-Replayed.
pub record Response : Type 0 where
  pub status : ℕ
  pub replayed : Bool
  pub content : Content

abbrev pub write_json : ℕ → Content → Response
write_json status content = record { status = status; replayed = false; content = content }

abbrev pub write_error : ℕ → String → Response
write_error status code = write_json status (failure code)

-- `writeDomainError`
unfoldable pub write_domain_error : Error → Response
write_domain_error invalid_input = write_error 400 "invalid_request"
write_domain_error forbidden = write_error 403 "forbidden"
write_domain_error not_found = write_error 404 "not_found"
write_domain_error insufficient_funds = write_error 409 "insufficient_funds"
write_domain_error currency_mismatch = write_error 409 "currency_mismatch"
write_domain_error idempotency_conflict = write_error 409 "idempotency_conflict"
write_domain_error transfer_limit = write_error 422 "transfer_limit"
write_domain_error request_too_large = write_error 413 "request_too_large"
write_domain_error unsupported_media = write_error 415 "unsupported_media_type"
write_domain_error canceled = write_error 500 "internal_error"
write_domain_error deadline_exceeded = write_error 500 "internal_error"
write_domain_error internal = write_error 500 "internal_error"
write_domain_error (database code name) = write_error 500 "internal_error"

-- `responseWriter`: its status, 0 before the first write, and the statuses that it passed on to the
-- writer that it wraps.
pub record ResponseWriter : Type 0 where
  pub status : ℕ
  pub sent : List ℕ

unfoldable pub write_header : ℕ → ResponseWriter → ResponseWriter
write_header status w =
    if not (w.status == 0) then w else record { status = status; sent = w.sent ++ status ∷ [] }

-- `Write` of a body, of which only the status that it implies is modelled.
unfoldable pub write : ResponseWriter → ResponseWriter
unfolding write_header
write w = if w.status == 0 then write_header 200 w else w

-- The headers that the middleware sets before a handler runs.
abbrev pub security_headers : List (String × String)
security_headers =
    ("Content-Security-Policy", "default-src 'none'; frame-ancestors 'none'")
    ∷ ("Cache-Control", "no-store")
    ∷ ("X-Content-Type-Options", "nosniff")
    ∷ ("Referrer-Policy", "no-referrer")
    ∷ []

abbrev pub new_writer : ResponseWriter
new_writer = record { status = 0; sent = [] }

-- What `recover` makes of a panic: `writeError` of 500 if nothing was written.
unfoldable pub recovered : Bool → ResponseWriter → ResponseWriter
unfolding write write_header
recovered panicked w = if panicked && w.status == 0 then write (write_header 500 w) else w

-- `middleware`, without its log. A handler works on the writer, and may panic.
unfoldable pub middleware :
    (ResponseWriter → Bool × ResponseWriter) → List (String × String) × ResponseWriter
middleware next = let (panicked, w) = next new_writer in (security_headers, recovered panicked w)
