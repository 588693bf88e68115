-- ===== src/Postgres/Retry/Bounded.antt =====
-- The loops end: by a return inside, within their rounds, and with success once the server serves one.
use Prim.Native.Nat.{ℕ, zero, suc, ◌*◌}
use secure_ledger.Prelude.{
  ◌≡◌, refl, subst, Bool, true, false, none, arith, Error, Result, ok, err, ◌==◌, nat_Eq, ◌<◌, ◌≤◌,
  ◌⊎◌, Bool-cases, Option-cases, some, inl, inr,
}
use secure_ledger.Prelude.Exec.{Exec}
use secure_ledger.Postgres.{
  Tables, Numbers, Attempt, refused, aborted, committed, lost, Round, settle, serve_round, retry,
  wait_for_retry, ends_after, map_database_error,
}

module _ {A : Type 0} (rounds : ℕ → Round) (passing : Error → Bool)
    (tx : Numbers → Exec Tables A) where
  -- What the statements of round `i` make of the tables that it finds.
  abbrev ran : ℕ → Tables → Result A × Tables
  ran i t = tx (rounds i).numbers ((rounds i).meanwhile t)

  -- Round `i` begins its transaction and ends it with an error, and these tables: those that it found, but
  -- for a commit whose reply is lost.
  pub data Failed (i : ℕ) (t : Tables) : Error → Tables → Type 0 where
    by_server : (e : Error) → (rounds i).attempt ≡ aborted e → Failed i t e ((rounds i).meanwhile t)
    by_statement :
        (e : Error) (s : Tables)
        → (rounds i).attempt ≡ committed
        → ran i t ≡ (err e, s)
        → Failed i t e ((rounds i).meanwhile t)
    by_statement_unheard :
        (e x : Error) (s : Tables)
        → (rounds i).attempt ≡ lost x
        → ran i t ≡ (err e, s)
        → Failed i t e ((rounds i).meanwhile t)
    by_reply :
        (e : Error) (a : A) (s : Tables)
        → (rounds i).attempt ≡ lost e
        → ran i t ≡ (ok a, s)
        → Failed i t e s

  -- How rounds from `i` on end that have `left` rounds behind the first: with the error of a transaction that
  -- does not begin, as it is; with the answer of a committed one; with the error of a failed one, mapped,
  -- when it is none that passes or no round is left; with the error of the context, when it ends in the
  -- wait behind a failed one; or as the rounds behind a failed one whose error passes and whose wait ends.
  pub data Ends : (i left : ℕ) → Tables → Result A × Tables → Type 0 where
    not_begun :
        {i left : ℕ} {t : Tables} (e : Error)
        → (rounds i).attempt ≡ refused e
        → Ends i left t (err e, (rounds i).meanwhile t)
    answered :
        {i left : ℕ} {t : Tables} (a : A) (s : Tables)
        → (rounds i).attempt ≡ committed
        → ran i t ≡ (ok a, s)
        → Ends i left t (ok a, s)
    given_up :
        {i left : ℕ} {t : Tables} (e : Error) (s : Tables)
        → Failed i t e s
        → (passing e ≡ false) ⊎ (left ≡ 0)
        → Ends i left t (err (map_database_error e), s)
    cut_off :
        {i left : ℕ} {t : Tables} (e c : Error) (s : Tables)
        → Failed i t e s
        → passing e ≡ true
        → wait_for_retry (rounds i).deadline i ≡ some c
        → Ends i (suc left) t (err c, s)
    goes_on :
        {i left : ℕ} {t : Tables} {m : Result A × Tables} (e : Error) (s : Tables)
        → Failed i t e s
        → passing e ≡ true
        → wait_for_retry (rounds i).deadline i ≡ none
        → Ends (suc i) left s m
        → Ends i (suc left) t m

  settle-ends :
      (i left : ℕ) (t : Tables) (again : Error → Exec Tables A) (e : Error) (s : Tables)
      → Failed i t e s
      → ((l : ℕ) → left ≡ suc l → Ends (suc i) l s (again e s))
      → Ends i left t (settle passing left (wait_for_retry (rounds i).deadline i) again (err e, s))
  settle-ends i zero t again e s failed next = elim (Bool-cases (passing e)) [
    | inl passes ↦ rw passes (given_up e s failed (inr refl))
    | inr final ↦ rw final (given_up e s failed (inl final))
  ]
  settle-ends i (suc l) t again e s failed next =
      let more : (suc l == 0) ≡ false = ground arith in
      elim (Bool-cases (passing e)) [
        | inr final ↦ rw final (given_up e s failed (inl final))
        | inl passes ↦ elim (Option-cases (wait_for_retry (rounds i).deadline i)) [
          | inl waited ↦ rw (passes, more, waited) (goes_on e s failed passes waited (next l refl))
          | inr (c, ended) ↦ rw (passes, more, ended) (cut_off e c s failed passes ended)
        ]
      ]

  serve-ends :
      (i left : ℕ) (t : Tables) (again : Error → Exec Tables A) (served : Attempt)
      (m : Result A × Tables)
      → (rounds i).attempt ≡ served
      → ran i t ≡ m
      → ((l : ℕ) → left ≡ suc l → (e : Error) (s : Tables) → Ends (suc i) l s (again e s))
      → Ends i left t (
          serve_round served
            (settle passing left (wait_for_retry (rounds i).deadline i) again)
            (λ _. m)
            ((rounds i).meanwhile t))
  serve-ends i left t again (refused e) m eq run next = not_begun e eq
  serve-ends i left t again (aborted e) m eq run next =
      settle-ends i left t again e _ (by_server e eq) (λ l h. next l h e _)
  serve-ends i left t again committed (ok a, s) eq run next = answered a s eq run
  serve-ends i left t again committed (err e, s) eq run next =
      settle-ends i left t again e _ (by_statement e s eq run) (λ l h. next l h e _)
  serve-ends i left t again (lost x) (ok a, s) eq run next =
      settle-ends i left t again x s (by_reply x a s eq run) (λ l h. next l h x s)
  serve-ends i left t again (lost x) (err e, s) eq run next =
      settle-ends i left t again e _ (by_statement_unheard e x s eq run) (λ l h. next l h e _)

  serve_round-ran :
      (i : ℕ) (t : Tables) (served : Attempt) (settled : Result A × Tables → Result A × Tables)
      → serve_round served settled (λ _. ran i t) ((rounds i).meanwhile t)
        ≡ serve_round served settled (tx (rounds i).numbers) ((rounds i).meanwhile t)
  serve_round-ran i t (refused e) settled = refl
  serve_round-ran i t (aborted e) settled = refl
  serve_round-ran i t committed settled = refl
  serve_round-ran i t (lost e) settled = refl

  -- A loop with a round ends by a return inside it, in one of its rounds, as `Ends` says: whatever stands
  -- behind the loop. A round behind which none is left gives the error of its own transaction, mapped, when
  -- that fails, without a wait; an earlier one goes on only after an error that passes and a wait that ends.
  pub retry-ends :
      (last : Error) (left i : ℕ) (t : Tables)
      → Ends i left t (retry rounds passing tx last (suc left) i t)
  unfolding retry
  retry-ends last zero i t = subst (Ends i 0 t) (serve_round-ran i t (rounds i).attempt _) (
      serve-ends i 0 t (λ e s. retry rounds passing tx e 0 (suc i) s) (rounds i).attempt _ refl refl
        (λ l h. cc))
  retry-ends last (suc k) i t =
      subst (Ends i (suc k) t) (serve_round-ran i t (rounds i).attempt _) (
        serve-ends i (suc k) t (λ e s. retry rounds passing tx e (suc k) (suc i) s)
          (rounds i).attempt _ refl refl
          (λ l h e s.
            let same : k ≡ l = omega (arith, h) in
            subst (λ j. Ends (suc i) j s (retry rounds passing tx e (suc k) (suc i) s)) same
              (retry-ends e k (suc i) s)))

-- The waits of the loop are 5, 10 and 20 milliseconds: a context with 20 left is there behind each.
pub wait_for_retry_lem :
    (left attempt : ℕ) (e : Error)
    → attempt < 3
    → 20 * 1000000 ≤ left
    → wait_for_retry (ends_after left e) attempt ≡ none
wait_for_retry_lem left zero e h k = ground arith
wait_for_retry_lem left (suc zero) e h k = ground arith
wait_for_retry_lem left (suc (suc zero)) e h k = ground arith
wait_for_retry_lem left (suc (suc (suc n))) e h k = absurd (omega (arith, h))

-- Round `i + k` is the first that is not aborted with a passing error, no wait before it is cut
-- short, and it commits the transaction with the answer `a`.
pub data Served {A : Type 0} (rounds : ℕ → Round) (passing : Error → Bool)
    (tx : Numbers → Exec Tables A) (a : A) (t' : Tables) : (i k : ℕ) (t : Tables) → Type 0 where
  at_once :
      {i : ℕ} {t : Tables}
      → (rounds i).attempt ≡ committed
      → tx (rounds i).numbers ((rounds i).meanwhile t) ≡ (ok a, t')
      → Served rounds passing tx a t' i 0 t
  after_abort :
      {i k : ℕ} {t : Tables} (e : Error)
      → (rounds i).attempt ≡ aborted e
      → passing e ≡ true
      → wait_for_retry (rounds i).deadline i ≡ none
      → Served rounds passing tx a t' (suc i) k ((rounds i).meanwhile t)
      → Served rounds passing tx a t' i (suc k) t

-- A transaction that is served before the rounds run out succeeds, with its answer and its tables.
pub retry-Served :
    {A : Type 0} (rounds : ℕ → Round) (passing : Error → Bool) (tx : Numbers → Exec Tables A)
    (a : A) (t' : Tables) (last : Error) (left i k : ℕ) (t : Tables)
    → Served rounds passing tx a t' i k t
    → k < left
    → retry rounds passing tx last left i t ≡ (ok a, t')
unfolding retry
retry-Served rounds passing tx a t' last zero i k t s h = absurd (omega (arith, h))
retry-Served rounds passing tx a t' last (suc left) i k t (at_once c run) h = rw (c, run) refl
retry-Served rounds passing tx a t' last (suc left) i (suc k) t (after_abort e c p w rest) h =
    let more : (left == 0) ≡ false = ground arith in
    rw (c, p, w, more)
      (retry-Served rounds passing tx a t' e left (suc i) k ((rounds i).meanwhile t) rest
        (omega (arith, h)))
