-- ===== src/Prelude/Results.antt =====
-- Go's `error` results: the sentinels of internal/domain/errors.go, the two errors of a context,
-- and one value for every other error. An error that wraps a sentinel, `fmt.Errorf("%w: ...")`,
-- is that sentinel, which is what `errors.Is` tells; its text is left out.
use Prim.Native.String.{String}
use mathlib.Core.Bool.{Bool, true, false}
use mathlib.Core.Option.{Option, none, some}
use mathlib.Core.Path.{◌≡◌, refl}
use mathlib.Core.Logic.{◌⊎◌, inl, inr}

pub data Error : Type 0 where
  invalid_input not_found forbidden insufficient_funds currency_mismatch : Error
  idempotency_conflict transfer_limit request_too_large unsupported_media : Error
  canceled deadline_exceeded internal : Error
  -- `*pgconn.PgError`, by its code and the name of its constraint.
  database : String → String → Error

pub data Result {ℓ} (A : Type ℓ) : Type ℓ where
  err : Error → Result A
  ok : A → Result A

-- The result of a function that returns an `error` alone.
abbrev pub Done : Type 0
Done = Result (Unit {0})

-- `if b { return e }`
abbrev pub raise_if : Bool → Error → Done
raise_if true e = err e
raise_if false e = ok tt

-- `a, err := m; if err != nil { return err }`, and without a value.
infixl 5 ◌>>=◌ ◌>>◌
abbrev pub ◌>>=◌ {ℓ κ} :
    {From : Type ℓ} {To : Type κ} → Result From → (From → Result To) → Result To
err e >>= next = err e
ok found >>= next = next found

abbrev pub ◌>>◌ {κ} : {To : Type κ} → Done → Result To → Result To
check >> next = check >>= λ _. next

-- A `context.Context` is read by `ctx.Err()` alone.
abbrev pub Context : Type 0
Context = Option Error

-- `if err := ctx.Err(); err != nil { return err }`
abbrev pub check_context : Context → Done
check_context none = ok tt
check_context (some e) = err e

-- A map's or a slice's missing element, as an error.
abbrev pub or_raise {ℓ} : {A : Type ℓ} → Option A → Error → Result A
or_raise none e = err e
or_raise (some a) e = ok a

-- What a successful bind had to pass.
pub >>=-eq-ok {ℓ κ} :
    {From : Type ℓ} {To : Type κ} (first : Result From) (next : From → Result To) {reply : To}
    → (first >>= next) ≡ ok reply
    → (found : From) × (first ≡ ok found) × (next found ≡ ok reply)
>>=-eq-ok (err e) next passed = cc
>>=-eq-ok (ok found) next passed = (found, refl, passed)

pub Result-cases {ℓ} :
    {A : Type ℓ} (r : Result A) → ((e : Error) × (r ≡ err e)) ⊎ ((a : A) × (r ≡ ok a))
Result-cases (ok a) = inr (a, refl)
Result-cases (err e) = inl (e, refl)
