-- ===== src/Postgres/Refines/Ledger.antt =====
-- The transfers and account creations of the PostgreSQL adapter as those of the abstract ledger.
use Prim.Native.Nat.{ℕ, ◌+◌}
use secure_ledger.Prelude.{
  ◌≡◌, ◌⊎◌, refl, sym, ap, ◌∙◌, subst, Bool, false, Result-cases, inl, inr, List, All, arith, Error,
  ok, err, string_Eq,
}
use secure_ledger.Prelude.Exec.{lift, ◌>>=◌}
use secure_ledger.Prelude.Int64.{IsInt64}
use secure_ledger.Store.{CreateAccountInput, ApplyTransferInput, TransferResult}
use secure_ledger.Contract.{Answered, Opened}
use secure_ledger.Postgres.{
  Server, Tables, Round, lost, committed, create_account, apply_transfer, is_retryable,
  validate_create_account, validate_transfer, create_account_tx, apply_transfer_tx,
}
use secure_ledger.Postgres.Retry.{Effect, untouched, applied, unheard, seen}
use secure_ledger.Postgres.Retry.Methods.{
  passing_transfer, apply_transfer-once, create_account-once, seen-IsSound,
}
use secure_ledger.Postgres.Sound.{IsSound}
use secure_ledger.Postgres.Sound.Actions.{Action, IsTyped, acts}
use secure_ledger.Postgres.Refines.{view}
use secure_ledger.Postgres.Refines.Paid.{apply_transfer_tx-Answered}
use secure_ledger.Postgres.Refines.Opening.{create_account_tx-Opened}
use secure_ledger.Postgres.Refines.Others.{Between, Found, FoundCommitted, seen-Between}

-- Rounds in which others commit transactions of the adapter, or change the outbox, and a lost reply is no
-- error that another attempt follows.
pub record AreShared (server : Server) (passing : Error → Bool) (rounds : ℕ → Round) : Type 0 where
  pub others : ℕ → List Action
  pub typed : (j : ℕ) → All IsTyped (others j)
  pub between : (j : ℕ) (t : Tables) → (rounds j).meanwhile t ≡ acts server (others j) t
  pub final : (j : ℕ) (e : Error) → (rounds j).attempt ≡ lost e → passing e ≡ false

module _ (server : Server) (rounds : ℕ → Round) (t : Tables) where
  round_of : (k : ℕ) → (rounds (0 + k)).attempt ≡ committed → (rounds k).attempt ≡ committed
  round_of k h =
      let same : 0 + k ≡ k = omega arith in subst (λ j. (rounds j).attempt ≡ committed) same h

  -- On sound tables, with rounds among which others commit transactions and in which a lost reply is no error
  -- that another attempt follows, a granted transfer has an attempt that the server committed, among four.
  -- It pays in the ledger that this attempt found, which allowed it, or is reported as a replay of a
  -- payment with the same intent that stands in that ledger under the actor and the key, and changes
  -- nothing of it. The attempt found what others had left, and nothing of the transfer's own.
  pub served_transfer-Answered :
      (input : ApplyTransferInput) (r : TransferResult)
      → AreShared server passing_transfer rounds
      → IsSound server t
      → (apply_transfer server rounds input t).0 ≡ ok r
      → (s : Tables) × FoundCommitted rounds t s
        × Answered input.transfer r
            (view server s)
            (view server (apply_transfer server rounds input t).1)
  served_transfer-Answered input r shared sound granted =
      elim (Result-cases (validate_transfer input)) [
        | inl (e, refused) ↦ cc (granted, refused_transfer e refused)
        | inr (_, v) ↦ go v (apply_transfer-once server rounds input t v shared.final)
      ]
    where
      refused_transfer :
          (e : Error)
          → validate_transfer input ≡ err e
          → (apply_transfer server rounds input t).0 ≡ err e
      refused_transfer e h = unfold apply_transfer lift ◌>>=◌ in rw h refl

      go :
          validate_transfer input ≡ ok tt
          → Effect rounds
              (λ n. apply_transfer_tx server n input)
              3
              0
              t
              (apply_transfer server rounds input t).0
              (apply_transfer server rounds input t).1
          → (s : Tables) × FoundCommitted rounds t s
            × Answered input.transfer r
                (view server s)
                (view server (apply_transfer server rounds input t).1)
      go v (untouched k e b x y) = cc (granted, x)
      go v (unheard k n a l e b c x run) = cc (granted, x)
      go v (applied k n a b c x run) = (
        seen rounds 0 k t,
        (k, omega (arith, b), round_of k c, refl),
        apply_transfer_tx-Answered server n input (seen rounds 0 k t) _ r
            (seen-IsSound server rounds shared.others shared.typed shared.between 0 k t sound) v
            (run ∙ ap (λ b. (b, (apply_transfer server rounds input t).1)) (sym x ∙ granted)),
      )

  pub transfer-err :
      (input : ApplyTransferInput) (e : Error)
      → AreShared server passing_transfer rounds
      → IsSound server t
      → (apply_transfer server rounds input t).0 ≡ err e
      → (s : Tables) × ((s ≡ t) ⊎ Found rounds t s)
        × ((view server (apply_transfer server rounds input t).1 ≡ view server s)
            ⊎ ((r : TransferResult) × Answered input.transfer r
                  (view server s)
                  (view server (apply_transfer server rounds input t).1)))
  transfer-err input e shared sound failed = elim (Result-cases (validate_transfer input)) [
    | inl (c, refused) ↦ (t, inl refl, inl (unchanged c refused))
    | inr (_, v) ↦ go v (apply_transfer-once server rounds input t v shared.final)
  ]
    where
      unchanged :
          (c : Error)
          → validate_transfer input ≡ err c
          → view server (apply_transfer server rounds input t).1 ≡ view server t
      unchanged c h = unfold apply_transfer lift ◌>>=◌ in rw h refl

      go :
          validate_transfer input ≡ ok tt
          → Effect rounds
              (λ n. apply_transfer_tx server n input)
              3
              0
              t
              (apply_transfer server rounds input t).0
              (apply_transfer server rounds input t).1
          → (s : Tables) × ((s ≡ t) ⊎ Found rounds t s)
            × ((view server (apply_transfer server rounds input t).1 ≡ view server s)
                ⊎ ((r : TransferResult) × Answered input.transfer r
                      (view server s)
                      (view server (apply_transfer server rounds input t).1)))
      go v (untouched k c b x y) =
          (seen rounds 0 k t, inr (k, omega (arith, b), refl), inl (ap (view server) y))
      go v (unheard k n a l c b d x run) = (
        seen rounds 0 k t,
        inr (k, omega (arith, b), refl),
        inr (
          a,
          apply_transfer_tx-Answered server n input (seen rounds 0 k t) _ a
              (seen-IsSound server rounds shared.others shared.typed shared.between 0 k t sound) v
              run,
        ),
      )
      go v (applied k n a b d x run) = cc (failed, x)

  -- With such rounds, on sound tables, a granted account creation, of a balance that is an int64 value, opens the
  -- account in the ledger that its committed attempt found, where its id was unknown, and takes a positive
  -- balance from the system account of the currency; every other account and every payment stays as it was.
  pub served_account-Opened :
      (input : CreateAccountInput)
      → AreShared server is_retryable rounds
      → IsInt64 input.account.balance_minor
      → IsSound server t
      → (create_account server rounds input t).0 ≡ ok tt
      → (s : Tables) × Between server t s
        × Opened input.account
            (view server s)
            (view server (create_account server rounds input t).1)
  served_account-Opened input shared typed sound granted =
      elim (Result-cases (validate_create_account input)) [
        | inl (e, refused) ↦ cc (granted, refused_account e refused)
        | inr (_, v) ↦ go v (create_account-once server rounds input t v shared.final)
      ]
    where
      refused_account :
          (e : Error)
          → validate_create_account input ≡ err e
          → (create_account server rounds input t).0 ≡ err e
      refused_account e h = unfold create_account lift ◌>>=◌ in rw h refl

      go :
          validate_create_account input ≡ ok tt
          → Effect rounds
              (λ n. create_account_tx server n input)
              3
              0
              t
              (create_account server rounds input t).0
              (create_account server rounds input t).1
          → (s : Tables) × Between server t s
            × Opened input.account
                (view server s)
                (view server (create_account server rounds input t).1)
      go v (untouched k e b x y) = cc (granted, x)
      go v (unheard k n a l e b c x run) = cc (granted, x)
      go v (applied k n a b c x run) = (
        seen rounds 0 k t,
        seen-Between server rounds shared.others shared.typed shared.between 0 k t,
        create_account_tx-Opened server n input (seen rounds 0 k t) _
            (seen-IsSound server rounds shared.others shared.typed shared.between 0 k t sound) v
            typed run,
      )
