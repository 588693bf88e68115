-- ===== src/App/Types.antt =====
-- The configuration and the commands of the service, and what it is built from.
use secure_ledger.Prelude.{ℕ, String, Bool, Option, List, if◌then◌else◌, ◌++ˢ◌}
use secure_ledger.Prelude.Int.{ℤ, pos, leb_ℤ}
use secure_ledger.Prelude.Format.{hex_encode}
use secure_ledger.Domain.{RiskEvent, Time}
use secure_ledger.Store.{Repository}

pub record Config : Type 0 where
  pub max_transfer_minor : ℤ
  pub risk_threshold_minor : ℤ

-- The defaults that `New` puts in.
unfoldable pub new_config : Config → Config
new_config cfg = record {
  max_transfer_minor =
      if leb_ℤ cfg.max_transfer_minor (pos 0) then pos 100_000_000 else cfg.max_transfer_minor;
  risk_threshold_minor =
      if leb_ℤ cfg.risk_threshold_minor (pos 0) then pos 1_000_000 else cfg.risk_threshold_minor;
}

-- `Service` over a repository with state `S` and a notifier with state `N`; a nil notifier is `none`.
-- `Submit` returns whether it took the event.
pub record Service (S N : Type 0) : Type 0 where
  pub repo : Repository S
  pub notifier : Option (RiskEvent → N → Bool × N)
  pub cfg : Config

-- What one call of the service takes from its surroundings: the clock's time, and the random bytes
-- that its calls of `newID` read, one after the other.
pub record Surroundings : Type 0 where
  pub now : Time
  pub random : ℕ → List ℕ

-- `randomID`. A random source that fails panics, which is not modelled.
unfoldable pub random_id : String → List ℕ → String
random_id prefix' bytes = prefix' ++ˢ ("_" ++ˢ hex_encode bytes)

pub record CreateAccountCommand : Type 0 where
  pub owner_id : String
  pub currency : String
  pub opening_balance_minor : ℤ

pub record TransferCommand : Type 0 where
  pub idempotency_key : String
  pub from_account_id : String
  pub to_account_id : String
  pub amount_minor : ℤ
  pub description : String
