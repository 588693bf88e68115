-- ===== src/Http/Writer.antt =====
-- The response writer of the middleware.
use secure_ledger.Prelude.{
  ℕ, ◌≡◌, ◌≢◌, refl, List, [], ◌∷◌, arith, nat_Eq, Bool, true, false, ap, ◌∙◌,
}
use secure_ledger.Http.{
  ResponseWriter, write_header, write, new_writer, middleware, recovered, security_headers,
}

-- What a handler does with its writer.
pub data Output : Type 0 where
  header : ℕ → Output
  body : Output

pub output : Output → ResponseWriter → ResponseWriter
output (header status) w = write_header status w
output body w = write w

pub output_all : List Output → ResponseWriter → ResponseWriter
unfolding output
output_all [] w = w
output_all (o ∷ os) w = output_all os (output o w)

-- The status of the first output; a body implies 200.
abbrev pub first_status : Output → ℕ
first_status (header status) = status
first_status body = 200

-- Once it has a status the writer passes on no other.
settled : (os : List Output) (w : ResponseWriter) → w.status ≢ 0 → output_all os w ≡ w
unfolding output_all output write write_header
settled [] w h = refl
settled (header status ∷ os) w h = ground (arith, settled os w h)
settled (body ∷ os) w h = ground (arith, settled os w h)

-- Whatever a handler writes first, if it is not the status 0, that status alone is passed on and is the
-- one that the middleware logs; later statuses are dropped.
pub output_all-first :
    (o : Output) (os : List Output)
    → first_status o ≢ 0
    → output_all (o ∷ os) new_writer
      ≡ record { status = first_status o; sent = first_status o ∷ [] }
unfolding output_all output write write_header
output_all-first (header status) os h = settled os _ h
output_all-first body os h = settled os _ h

-- A handler that makes its outputs and then returns, or panics.
abbrev pub handler : List Output → Bool → ResponseWriter → Bool × ResponseWriter
handler os panics w = (panics, output_all os w)

-- The status that a request gets, if its handler's first output is no status 0: none of the middleware's own if
-- the handler returns with no output, which net/http answers with 200.
abbrev pub answered : List Output → Bool → List ℕ
answered [] true = 500 ∷ []
answered [] false = []
answered (o ∷ os) panics = first_status o ∷ []

abbrev pub IsStatus : List Output → Type 0
IsStatus [] = Unit {0}
IsStatus (o ∷ os) = first_status o ≢ 0

-- Whatever a handler writes, if it begins with no status 0, the middleware passes on one status at most: that of
-- the first output, also when the handler panics behind it, and 500 when the handler panics before any; and
-- the security headers are set each time.
pub middleware-answered :
    (os : List Output) (panics : Bool)
    → IsStatus os
    → ((middleware (handler os panics)).0 ≡ security_headers)
      × ((middleware (handler os panics)).1.sent ≡ answered os panics)
unfolding middleware recovered output_all write write_header
middleware-answered [] true h = (refl, refl)
middleware-answered [] false h = (refl, refl)
middleware-answered (o ∷ os) panics h =
    (refl, ap (λ w. (recovered panics w).sent) (output_all-first o os h) ∙ ground arith)
