-- ===== src/Postgres/Tests/Methods.antt =====
-- The methods that write the ledger.
use Prim.Native.Nat.{ℕ, zero, suc}
use secure_ledger.Prelude.{
  ◌≡◌, refl, true, false, [], arith, Error, internal, database, Result, ok, string_Eq, Bool,
}
use secure_ledger.Store.{TransferResult}
use secure_ledger.Postgres.{
  Tables, migrated, Round, endless, Attempt, committed, aborted, lost, apply_transfer_tx,
  apply_transfer, retry, validate_transfer,
}
use secure_ledger.Postgres.Sound.{IsSound}
use secure_ledger.Postgres.Sound.Actions.{acts, acts-migrated-IsSound}
use secure_ledger.Postgres.Retry.{Effect}
use secure_ledger.Postgres.Retry.Bounded.{
  Served, at_once, after_abort, Ends, retry-ends, retry-Served,
}
use secure_ledger.Postgres.Retry.Methods.{
  passing_transfer, apply_transfer-once, apply_transfer-IsSound,
}
use secure_ledger.Postgres.Trigger.{assert_balanced, acts-assert_balanced}
use secure_ledger.Postgres.Replay.{apply_transfer_tx-replayed}
use secure_ledger.Postgres.Tests.Bank.{
  sample, numbers, history, history-IsTyped, bank, bank-IsSound, paid, everything,
}

acts-migrated-IsSound_example : IsSound sample (acts sample history migrated)
acts-migrated-IsSound_example = acts-migrated-IsSound sample history history-IsTyped

-- The first attempt meets a serialization failure.
abbrev attempt_of : ℕ → Attempt
attempt_of zero = aborted (database "40001" "")
attempt_of (suc i) = committed

abbrev rounds : ℕ → Round
rounds i = record {
  meanwhile = λ t. t;
  numbers = numbers 5;
  attempt = attempt_of i;
  deadline = endless;
}

abbrev done : Result TransferResult × Tables
done = apply_transfer_tx sample (numbers 5) paid bank

paid_before :
    apply_transfer_tx sample (numbers 5) paid bank
    ≡ (ok (record { transfer = paid.transfer; replayed = false }), done.1)
unfolding everything
paid_before = refl

valid : validate_transfer paid ≡ ok tt
unfolding everything
valid = refl

final :
    (passing : Error → Bool) (j : ℕ) (e : Error) → (rounds j).attempt ≡ lost e → passing e ≡ false
final passing zero e eq = cc
final passing (suc j) e eq = cc

apply_transfer-once_example :
    Effect rounds
      (λ n. apply_transfer_tx sample n paid)
      3
      0
      bank
      (apply_transfer sample rounds paid bank).0
      (apply_transfer sample rounds paid bank).1
apply_transfer-once_example =
    apply_transfer-once sample rounds paid bank valid (final passing_transfer)

apply_transfer-IsSound_example : IsSound sample (apply_transfer sample rounds paid bank).1
apply_transfer-IsSound_example =
    apply_transfer-IsSound sample rounds (λ _. []) (λ _. tt) (λ _ _. refl) paid bank
      (final passing_transfer) bank-IsSound

passes : passing_transfer (database "40001" "") ≡ true
unfolding everything
passes = refl

served :
    Served rounds passing_transfer
      (λ n. apply_transfer_tx sample n paid)
      (record { transfer = paid.transfer; replayed = false })
      done.1
      0
      1
      bank
served =
    after_abort {i = 0} {k = 0} {t = bank} (database "40001" "") refl passes refl
      (at_once {i = 1} {t = bank} refl paid_before)

retry-Served_example :
    retry rounds passing_transfer (λ n. apply_transfer_tx sample n paid) internal 4 0 bank
    ≡ (ok (record { transfer = paid.transfer; replayed = false }), done.1)
retry-Served_example =
    retry-Served rounds passing_transfer (λ n. apply_transfer_tx sample n paid) _ done.1 internal 4
      0 1 bank served (omega arith)

retry-ends_example :
    Ends rounds passing_transfer
      (λ n. apply_transfer_tx sample n paid)
      0
      1
      bank
      (retry rounds passing_transfer (λ n. apply_transfer_tx sample n paid) internal 2 0 bank)
retry-ends_example =
    retry-ends rounds passing_transfer (λ n. apply_transfer_tx sample n paid) internal 1 0 bank

apply_transfer_tx-replayed_example : apply_transfer_tx sample (numbers 7) paid done.1 ≡ (
  ok (record {
    transfer = record paid.transfer { created_at = sample.stamp paid.transfer.created_at };
    replayed = true;
  }),
  done.1,
)
apply_transfer_tx-replayed_example =
    apply_transfer_tx-replayed sample (numbers 5) (numbers 7) paid bank done.1 _ bank-IsSound refl
      paid_before

acts-assert_balanced_example : assert_balanced "acct_a" (acts sample history migrated) ≡ ok tt
acts-assert_balanced_example = acts-assert_balanced sample history "acct_a" history-IsTyped
