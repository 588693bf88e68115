-- ===== src/Postgres/Retry/Methods.antt =====
-- `CreateAccount` and `ApplyTransfer` as their callers see them, among the transactions of others.
use Prim.Native.Nat.{ℕ, zero, suc}
use secure_ledger.Prelude.{
  ◌≡◌, sym, subst, arith, Bool, false, ◌||◌, Error, Result, ok, List, All, Result-cases, inl, inr,
  internal,
}
use secure_ledger.Prelude.Int64.{IsInt64}
use secure_ledger.Prelude.Exec.{Exec, lift, ◌>>=◌}
use secure_ledger.Store.{CreateAccountInput, ApplyTransferInput}
use secure_ledger.Postgres.{
  Server, Numbers, Tables, Round, lost, create_account, apply_transfer, create_account_tx,
  apply_transfer_tx, validate_create_account, validate_transfer, is_retryable, is_idempotency_race,
}
use secure_ledger.Postgres.Sound.{IsSound}
use secure_ledger.Postgres.Sound.Actions.{Action, IsTyped, acts, acts-IsSound}
use secure_ledger.Postgres.Sound.Kept.{create_account_tx-IsSound, apply_transfer_tx-IsSound}
use secure_ledger.Postgres.Retry.{Effect, untouched, applied, unheard, seen, retry-effect}

-- The errors after which `ApplyTransfer` tries again.
abbrev pub passing_transfer : Error → Bool
passing_transfer e = is_retryable e || is_idempotency_race e

-- A valid transfer runs its transaction to the end once or not at all, whatever its four rounds meet:
-- an answer comes from a run that is committed in one of them, and an error leaves the tables as other clients left
-- them, or hides one committed run whose reply was lost. A lost reply is assumed to be no error that
-- another attempt follows.
pub apply_transfer-once :
    (server : Server) (rounds : ℕ → Round) (input : ApplyTransferInput) (t : Tables)
    → validate_transfer input ≡ ok tt
    → ((j : ℕ) (e : Error) → (rounds j).attempt ≡ lost e → passing_transfer e ≡ false)
    → Effect rounds
        (λ n. apply_transfer_tx server n input)
        3
        0
        t
        (apply_transfer server rounds input t).0
        (apply_transfer server rounds input t).1
unfolding apply_transfer lift ◌>>=◌
apply_transfer-once server rounds input t v final = rw v (
    retry-effect rounds passing_transfer (λ n. apply_transfer_tx server n input) 3 final internal 3
      0 t (omega arith))

pub create_account-once :
    (server : Server) (rounds : ℕ → Round) (input : CreateAccountInput) (t : Tables)
    → validate_create_account input ≡ ok tt
    → ((j : ℕ) (e : Error) → (rounds j).attempt ≡ lost e → is_retryable e ≡ false)
    → Effect rounds
        (λ n. create_account_tx server n input)
        3
        0
        t
        (create_account server rounds input t).0
        (create_account server rounds input t).1
unfolding create_account lift ◌>>=◌
create_account-once server rounds input t v final = rw v (
    retry-effect rounds is_retryable (λ n. create_account_tx server n input) 3 final internal 3 0 t
      (omega arith))

module _ (server : Server) (rounds : ℕ → Round) (others : ℕ → List Action)
    (typed : (j : ℕ) → All IsTyped (others j))
    (between : (j : ℕ) (s : Tables) → (rounds j).meanwhile s ≡ acts server (others j) s) where
  round-IsSound : (i : ℕ) (t : Tables) → IsSound server t → IsSound server ((rounds i).meanwhile t)
  round-IsSound i t sound =
      subst (IsSound server) (sym (between i t)) (acts-IsSound server (others i) t (typed i) sound)

  pub seen-IsSound : (i k : ℕ) (t : Tables) → IsSound server t → IsSound server (seen rounds i k t)
  seen-IsSound i zero t sound = round-IsSound i t sound
  seen-IsSound i (suc k) t sound =
      seen-IsSound (suc i) k ((rounds i).meanwhile t) (round-IsSound i t sound)

  effect-IsSound :
      {A : Type 0} (tx : Numbers → Exec Tables A) (stop i : ℕ) (t : Tables) (result : Result A)
      (t' : Tables)
      → IsSound server t
      → ((n : Numbers) (s s' : Tables) (a : A)
          → IsSound server s
          → tx n s ≡ (ok a, s')
          → IsSound server s')
      → Effect rounds tx stop i t result t'
      → IsSound server t'
  effect-IsSound tx stop i t result t' sound f (untouched k e b x y) =
      subst (IsSound server) (sym y) (seen-IsSound i k t sound)
  effect-IsSound tx stop i t result t' sound f (applied k n a b c x run) =
      f n _ t' a (seen-IsSound i k t sound) run
  effect-IsSound tx stop i t result t' sound f (unheard k n a l e b c x run) =
      f n _ t' a (seen-IsSound i k t sound) run

  -- A transfer keeps the tables sound, whatever happens to its attempts and whatever typed
  -- transactions commit between them, its input valid or not. A lost reply is assumed to be no error
  -- that another attempt follows.
  pub apply_transfer-IsSound :
      (input : ApplyTransferInput) (t : Tables)
      → ((j : ℕ) (e : Error) → (rounds j).attempt ≡ lost e → passing_transfer e ≡ false)
      → IsSound server t
      → IsSound server (apply_transfer server rounds input t).1
  unfolding apply_transfer lift ◌>>=◌
  apply_transfer-IsSound input t final sound = elim (Result-cases (validate_transfer input)) [
    | inr (_, v) ↦
        effect-IsSound (λ n. apply_transfer_tx server n input) 3 0 t _ _ sound
          (λ n s s' a before run. apply_transfer_tx-IsSound server n s s' before input a v run)
          (apply_transfer-once server rounds input t v final)
    | inl (e, refused) ↦ rw refused sound
  ]

  -- The same of an account creation, of a balance that is an int64 value.
  pub create_account-IsSound :
      (input : CreateAccountInput) (t : Tables)
      → IsInt64 input.account.balance_minor
      → ((j : ℕ) (e : Error) → (rounds j).attempt ≡ lost e → is_retryable e ≡ false)
      → IsSound server t
      → IsSound server (create_account server rounds input t).1
  unfolding create_account lift ◌>>=◌
  create_account-IsSound input t int64 final sound =
      elim (Result-cases (validate_create_account input)) [
        | inr (_, v) ↦
            effect-IsSound (λ n. create_account_tx server n input) 3 0 t _ _ sound
              (λ n s s' a before run.
                create_account_tx-IsSound server n input s s' before v int64 run)
              (create_account-once server rounds input t v final)
        | inl (e, refused) ↦ rw refused sound
      ]
