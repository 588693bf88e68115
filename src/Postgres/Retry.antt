-- ===== src/Postgres/Retry.antt =====
-- The loops of `CreateAccount` and `ApplyTransfer` around their transactions.
pub mod Bounded
pub mod Methods
use Prim.Native.Nat.{ℕ, zero, suc, ◌+◌}
use secure_ledger.Prelude.{
  ◌≡◌, ◌≢◌, refl, sym, ap, ◌∙◌, subst, Bool, true, false, not, ◌||◌, Option, none, some, Bool-cases,
  Option-cases, inl, inr, arith, Error, Result, ok, err, Context, if◌then◌else◌, ◌==◌, nat_Eq, ◌<◌,
  ◌≤◌,
}
use secure_ledger.Prelude.Exec.{Exec}
use secure_ledger.Postgres.{
  Tables, Numbers, Attempt, refused, aborted, committed, lost, Round, close, close_unheard, settle,
  wait_for_retry, serve_round, retry, map_database_error,
}

-- The tables that round `i + k` finds when no round before it committed.
abbrev pub seen : (ℕ → Round) → (i k : ℕ) → Tables → Tables
seen rounds i zero t = (rounds i).meanwhile t
seen rounds i (suc k) t = seen rounds (suc i) k ((rounds i).meanwhile t)

-- What a loop of the rounds `i` to `stop` has done to the tables: nothing, or one run of its transaction,
-- which the server committed in round `i + k`. They are those that this round found, or what the run made
-- of those.
pub data Effect {A : Type 0} (rounds : ℕ → Round) (tx : Numbers → Exec Tables A) (stop i : ℕ)
    (t : Tables) (result : Result A) (t' : Tables) : Type 0 where
  untouched :
      (k : ℕ) (e : Error)
      → i + k ≤ stop
      → result ≡ err e
      → t' ≡ seen rounds i k t
      → Effect rounds tx stop i t result t'
  applied :
      (k : ℕ) (n : Numbers) (a : A)
      → i + k ≤ stop
      → (rounds (i + k)).attempt ≡ committed
      → result ≡ ok a
      → tx n (seen rounds i k t) ≡ (ok a, t')
      → Effect rounds tx stop i t result t'
  unheard :
      (k : ℕ) (n : Numbers) (a : A) (reply e : Error)
      → i + k ≤ stop
      → (rounds (i + k)).attempt ≡ lost reply
      → result ≡ err e
      → tx n (seen rounds i k t) ≡ (ok a, t')
      → Effect rounds tx stop i t result t'

module _ {A : Type 0} (rounds : ℕ → Round) (passing : Error → Bool) (tx : Numbers → Exec Tables A)
    (stop : ℕ) where
  served_later :
      (i k : ℕ) (s : Attempt) → (rounds (suc i + k)).attempt ≡ s → (rounds (i + suc k)).attempt ≡ s
  served_later i k s h =
      let same : suc i + k ≡ i + suc k = omega arith in subst (λ j. (rounds j).attempt ≡ s) same h

  served_now : (i : ℕ) (s : Attempt) → (rounds i).attempt ≡ s → (rounds (i + 0)).attempt ≡ s
  served_now i s h =
      let same : i ≡ i + 0 = omega arith in subst (λ j. (rounds j).attempt ≡ s) same h

  later :
      (i : ℕ) (t : Tables) (r : Result A) (t' : Tables)
      → Effect rounds tx stop (suc i) ((rounds i).meanwhile t) r t'
      → Effect rounds tx stop i t r t'
  later i t r t' (untouched k e b x y) = untouched (suc k) e (omega (arith, b)) x y
  later i t r t' (applied k n a b c x y) =
      applied (suc k) n a (omega (arith, b)) (served_later i k _ c) x y
  later i t r t' (unheard k n a l e b c x y) =
      unheard (suc k) n a l e (omega (arith, b)) (served_later i k _ c) x y

  abbrev HasEffect : (i : ℕ) (t : Tables) → Result A × Tables → Type 0
  HasEffect i t m = Effect rounds tx stop i t m.0 m.1

  -- A round that leaves the tables alone, with the next rounds behind it.
  settle-effect :
      (i left : ℕ) (t : Tables) (wait : Context) (again : Error → Exec Tables A) (e : Error)
      → i ≤ stop
      → ((left == 0) ≡ false
          → (x : Error)
          → HasEffect (suc i) ((rounds i).meanwhile t) (again x ((rounds i).meanwhile t)))
      → HasEffect i t (settle passing left wait again (err e, (rounds i).meanwhile t))
  settle-effect i left t wait again e b next = elim (Bool-cases (not (passing e) || left == 0)) [
    | inl stops ↦ rw stops (untouched 0 (map_database_error e) (omega (arith, b)) refl refl)
    | inr goes_on ↦ rw goes_on (waited wait (ground (arith)))
  ]
    where
      waited :
          (wait : Context)
          → (left == 0) ≡ false
          → HasEffect i t (elim wait [
            | none ↦ again e ((rounds i).meanwhile t)
            | some c ↦ (err c, (rounds i).meanwhile t)
          ])
      waited none more = later i t _ _ (next more e)
      waited (some c) more = untouched 0 c (omega (arith, b)) refl refl

  -- A round whose statements run: `m` is what they make of the tables.
  close-effect :
      (i left : ℕ) (t : Tables) (wait : Context) (again : Error → Exec Tables A) (n : Numbers)
      (m : Result A × Tables)
      → i ≤ stop
      → (rounds i).attempt ≡ committed
      → tx n ((rounds i).meanwhile t) ≡ m
      → ((left == 0) ≡ false
          → (x : Error)
          → HasEffect (suc i) ((rounds i).meanwhile t) (again x ((rounds i).meanwhile t)))
      → HasEffect i t (settle passing left wait again (close ((rounds i).meanwhile t) m))
  close-effect i left t wait again n (ok a, t') b eq run next =
      applied 0 n a (omega (arith, b)) (served_now i _ eq) refl run
  close-effect i left t wait again n (err e, t') b eq run next =
      settle-effect i left t wait again e b next

  close_unheard-effect :
      (i left : ℕ) (t : Tables) (wait : Context) (again : Error → Exec Tables A) (n : Numbers)
      (e : Error) (m : Result A × Tables)
      → i ≤ stop
      → (rounds i).attempt ≡ lost e
      → passing e ≡ false
      → tx n ((rounds i).meanwhile t) ≡ m
      → ((left == 0) ≡ false
          → (x : Error)
          → HasEffect (suc i) ((rounds i).meanwhile t) (again x ((rounds i).meanwhile t)))
      → HasEffect i t (settle passing left wait again (close_unheard e ((rounds i).meanwhile t) m))
  close_unheard-effect i left t wait again n e (ok a, t') b eq final run next =
      rw final
        (unheard 0 n a e (map_database_error e) (omega (arith, b)) (served_now i _ eq) refl run)
  close_unheard-effect i left t wait again n e (err x, t') b eq final run next =
      settle-effect i left t wait again x b next

  module _ (final : (j : ℕ) (e : Error) → (rounds j).attempt ≡ lost e → passing e ≡ false) where
    round-effect :
        (i left : ℕ) (t : Tables) (again : Error → Exec Tables A) (s : Attempt)
        → i ≤ stop
        → (rounds i).attempt ≡ s
        → ((left == 0) ≡ false
            → (x : Error)
            → HasEffect (suc i) ((rounds i).meanwhile t) (again x ((rounds i).meanwhile t)))
        → HasEffect i t (
            serve_round s
              (settle passing left (wait_for_retry (rounds i).deadline i) again)
              (tx (rounds i).numbers)
              ((rounds i).meanwhile t))
    round-effect i left t again (refused e) b eq next = untouched 0 e (omega (arith, b)) refl refl
    round-effect i left t again (aborted e) b eq next =
        settle-effect i left t (wait_for_retry (rounds i).deadline i) again e b next
    round-effect i left t again committed b eq next =
        close-effect i left t (wait_for_retry (rounds i).deadline i) again (rounds i).numbers _ b eq
          refl next
    round-effect i left t again (lost e) b eq next =
        close_unheard-effect i left t (wait_for_retry (rounds i).deadline i) again
          (rounds i).numbers e _ b eq (final i e eq) refl next

    -- A loop with a round left runs its transaction to its end once or not at all, in one of its rounds.
    -- The error for a lost reply is none that another attempt follows.
    pub retry-effect :
        (last : Error) (left i : ℕ) (t : Tables)
        → i + left ≤ stop
        → HasEffect i t (retry rounds passing tx last (suc left) i t)
    unfolding retry
    retry-effect last zero i t b =
        round-effect i zero t _ (rounds i).attempt (omega (arith, b)) refl (λ more x. cc)
    retry-effect last (suc k) i t b =
        round-effect i (suc k) t _ (rounds i).attempt (omega (arith, b)) refl
          (λ more x. retry-effect x k (suc i) ((rounds i).meanwhile t) (omega (arith, b)))
