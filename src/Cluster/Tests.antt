-- ===== src/Cluster/Tests.antt =====
-- Two servers over the tables of a bank: one grants a payment, the other is asked for it again.
use Prim.Native.Nat.{ℕ, ◌+◌}
use secure_ledger.Prelude.{
  ◌≡◌, ◌⊎◌, refl, true, none, some, [], ◌∷◌, ok, err, Error, database, string_Eq, Bool,
}
use secure_ledger.Prelude.Int.{pos}
use secure_ledger.Prelude.Text.{trim_space}
use secure_ledger.Prelude.Format.{hex_encode, format_int}
use secure_ledger.Domain.{Principal, is_valid}
use secure_ledger.Store.{TransferResult, ApplyTransferInput}
use secure_ledger.App.{
  Config, new_config, Surroundings, TransferCommand, transfer, trim_transfer_command,
  transfer_command_invalid, check_owner, build_transfer, build_risk, build_transfer_input, notify,
  random_id,
}
use secure_ledger.App.Applied.{Asked}
use secure_ledger.Contract.{receipt_of}
use secure_ledger.Contract.Service.{HasAnswered}
use secure_ledger.Postgres
use secure_ledger.Postgres.{
  Server, Tables, Attempt, committed, aborted, lost, Round, endless, Connection, is_retryable,
  apply_transfer,
}
use secure_ledger.Postgres.Retry.Methods.{passing_transfer}
use secure_ledger.Postgres.Refines.{view}
use secure_ledger.Postgres.Refines.Others.{Found, FoundCommitted}
use secure_ledger.Postgres.Refines.Ledger.{AreShared}
use secure_ledger.Postgres.Refines.Contracted.{IsShared, Commits}
use secure_ledger.Postgres.Tests.Bank
use secure_ledger.Postgres.Tests.Bank.{sample, numbers, bank, bank-IsSound}
use secure_ledger.Cluster.{
  postgres_service, transfer-HasAnswered, transfer-pays_once, apply_transfer-pays_once_after_error,
}

abbrev round : Attempt → Round
round attempt = record {
  meanwhile = λ t. t;
  numbers = numbers 5;
  attempt = attempt;
  deadline = endless;
}

abbrev connection : Attempt → Connection
connection attempt = record {
  pinged = λ ctx. ctx;
  migration = λ ctx. ok true;
  creating = λ ctx input i. round attempt;
  reading = λ ctx id. ctx;
  transferring = λ ctx input i. round attempt;
  listing = λ ctx limit. ctx;
}

-- A reply that is lost with the connection.
abbrev broken : Error
broken = database "08006" ""

broken_create : is_retryable broken ≡ Bool.false
unfolding Bank.everything
broken_create = refl

broken_transfer : passing_transfer broken ≡ Bool.false
unfolding Bank.everything
broken_transfer = refl

committed-AreShared : (passing : Error → Bool) → AreShared sample passing (λ i. round committed)
committed-AreShared passing = record {
  others = λ j. [];
  typed = λ j. tt;
  between = λ j t. refl;
  final = λ j e eq. cc;
}

committed-IsShared : IsShared sample (connection committed)
committed-IsShared = record {
  creating = λ ctx input. committed-AreShared is_retryable;
  transferring = λ ctx input. committed-AreShared passing_transfer;
}

lost-AreShared :
    (passing : Error → Bool)
    → passing broken ≡ Bool.false
    → AreShared sample passing (λ i. round (lost broken))
lost-AreShared passing is_final = record {
  others = λ j. [];
  typed = λ j. tt;
  between = λ j t. refl;
  final = λ j e eq. cc (is_final, eq);
}

lost-IsShared : IsShared sample (connection (lost broken))
lost-IsShared = record {
  creating = λ ctx input. lost-AreShared is_retryable broken_create;
  transferring = λ ctx input. lost-AreShared passing_transfer broken_transfer;
}

abbrev env : ℕ → Surroundings
env first = record { now = 1000 + first; random = λ n. (first + n) ∷ [] }

abbrev alice : Principal
alice = record { id = "alice"; role = "customer" }

abbrev rent : TransferCommand
rent = record {
  idempotency_key = " key-0001";
  from_account_id = "acct_a";
  to_account_id = "acct_b ";
  amount_minor = pos 40;
  description = "rent";
}

abbrev cfg : Config
cfg = record { max_transfer_minor = pos 0; risk_threshold_minor = pos 30 }

everything : Unit {0}
unfolding Bank.everything transfer trim_transfer_command transfer_command_invalid check_owner
    build_transfer build_risk build_transfer_input notify random_id new_config trim_space hex_encode
    format_int is_valid Postgres.get_account
everything = tt

first_reply :
    (r : TransferResult) × ((transfer
        (postgres_service sample (connection committed) cfg)
        none
        (env 30)
        alice
        rent
        (bank, tt)).0
      ≡ ok r)
unfolding everything
first_reply = (_, refl)

abbrev after : Tables
after =
    (transfer (postgres_service sample (connection committed) cfg) none (env 30) alice rent
      (bank, tt)).1.0

second_reply :
    (r : TransferResult) × ((transfer
        (postgres_service sample (connection committed) cfg)
        none
        (env 50)
        alice
        rent
        (after, tt)).0
      ≡ ok r)
unfolding everything
second_reply = (_, refl)

transfer-HasAnswered_example :
    HasAnswered
      (view sample)
      (Commits (connection committed))
      none
      alice
      rent
      first_reply.0
      bank
      after
transfer-HasAnswered_example =
    transfer-HasAnswered sample (connection committed) committed-IsShared cfg none (env 30) alice
      rent bank first_reply.0 bank-IsSound first_reply.1

transfer-pays_once_example :
    (second_reply.0.replayed ≡ true)
    × (receipt_of second_reply.0.transfer ≡ receipt_of first_reply.0.transfer)
    × ((input : ApplyTransferInput) × Asked alice rent input
        × ((seen : Tables) × FoundCommitted (λ i. round committed) after seen
            × (view sample
                  (transfer
                    (postgres_service sample (connection committed) cfg)
                    none
                    (env 50)
                    alice
                    rent
                    (after, tt)).1.0
                ≡ view sample seen)))
transfer-pays_once_example =
    transfer-pays_once sample (connection committed) (connection committed) committed-IsShared
      committed-IsShared cfg cfg none none (env 30) (env 50) alice alice rent rent bank after
      first_reply.0 second_reply.0 bank-IsSound first_reply.1 ([], tt, refl) refl refl
      second_reply.1

abbrev unheard : Tables
unheard = (apply_transfer sample (λ i. round (lost broken)) Bank.paid bank).1

failed : (apply_transfer sample (λ i. round (lost broken)) Bank.paid bank).0 ≡ err broken
unfolding everything
failed = refl

retried :
    (r : TransferResult) × ((apply_transfer sample (λ i. round committed) Bank.paid unheard).0
      ≡ ok r)
unfolding everything
retried = (_, refl)

apply_transfer-pays_once_after_error_example :
    ((seen : Tables) × ((seen ≡ bank) ⊎ Found (λ i. round (lost broken)) bank seen)
      × (view sample unheard ≡ view sample seen))
    ⊎ ((seen : Tables) × FoundCommitted (λ i. round committed) unheard seen
        × (retried.0.replayed ≡ true)
        × ((view sample unheard).paid Bank.paid.transfer.actor_id Bank.paid.transfer.idempotency_key
            ≡ some (receipt_of retried.0.transfer))
        × (view sample (apply_transfer sample (λ i. round committed) Bank.paid unheard).1
            ≡ view sample seen))
apply_transfer-pays_once_after_error_example =
    apply_transfer-pays_once_after_error sample (connection (lost broken)) (connection committed)
      lost-IsShared committed-IsShared none none Bank.paid Bank.paid bank unheard broken retried.0
      bank-IsSound failed ([], tt, refl) refl refl retried.1
