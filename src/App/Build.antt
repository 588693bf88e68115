-- ===== src/App/Build.antt =====
-- The tests of the service's commands, and what its methods build from them.
use secure_ledger.Prelude.{
  ℕ, len, count, Bool, false, not, ◌&&◌, ◌||◌, Option, none, some, [], ◌∷◌, ltb, if◌then◌else◌,
  ◌==◌, string_Eq, Done, raise_if, forbidden, ◌++ˢ◌, ◌+◌,
}
use secure_ledger.Prelude.Int.{pos, ltb_ℤ, leb_ℤ}
use secure_ledger.Prelude.Format.{format_int}
use secure_ledger.Prelude.Text.{trim_space}
use secure_ledger.Domain.{
  Principal, Account, RiskEvent, Transfer, text, number, role_customer, role_operator, role_admin,
  role_auditor, is_valid,
}
use secure_ledger.Store.{CreateAccountInput, ApplyTransferInput}
use secure_ledger.App.Types.{Config, Surroundings, random_id, CreateAccountCommand, TransferCommand}

-- The command with its texts trimmed, as the methods overwrite it.
unfoldable pub trim_account_command : CreateAccountCommand → CreateAccountCommand
trim_account_command cmd = record cmd {
  owner_id = trim_space cmd.owner_id;
  currency = trim_space cmd.currency;
}

unfoldable pub trim_transfer_command : TransferCommand → TransferCommand
trim_transfer_command cmd = record cmd {
  idempotency_key = trim_space cmd.idempotency_key;
  from_account_id = trim_space cmd.from_account_id;
  to_account_id = trim_space cmd.to_account_id;
  description = trim_space cmd.description;
}

unfoldable pub can_create : Principal → Bool
can_create actor = is_valid actor && (actor.role == role_operator || actor.role == role_admin)

unfoldable pub account_command_invalid : CreateAccountCommand → Bool
account_command_invalid cmd =
    cmd.owner_id == "" || ltb 128 (len cmd.owner_id) || ltb_ℤ cmd.opening_balance_minor (pos 0)

-- The account and the repository input that `CreateAccount` builds.
unfoldable pub build_account : Surroundings → CreateAccountCommand → Account
build_account env cmd = record {
  id = random_id "acct" (env.random 0);
  owner_id = cmd.owner_id;
  currency = cmd.currency;
  balance_minor = cmd.opening_balance_minor;
  system = false;
  created_at = env.now;
}

unfoldable pub build_account_input : Surroundings → Principal → Account → CreateAccountInput
build_account_input env actor account = record {
  account = account;
  opening_transaction_id = random_id "open" (env.random 1);
  opening_posting_ids = (random_id "post" (env.random 2), random_id "post" (env.random 3));
  audit = record {
    id = random_id "audit" (env.random 4);
    actor_id = actor.id;
    action = "account.create";
    resource_id = account.id;
    outcome = "success";
    metadata =
        some (("owner_id", text account.owner_id) ∷ ("currency", text account.currency) ∷ []);
    created_at = env.now;
  };
}

-- The tests of a transfer command by itself, trimmed.
unfoldable pub transfer_command_invalid : TransferCommand → Bool
transfer_command_invalid cmd =
    ltb (len cmd.idempotency_key) 8
    || ltb 128 (len cmd.idempotency_key)
    || cmd.from_account_id == ""
    || ltb 128 (len cmd.from_account_id)
    || cmd.to_account_id == ""
    || ltb 128 (len cmd.to_account_id)
    || leb_ℤ cmd.amount_minor (pos 0)
    || ltb 200 (count cmd.description)

-- A customer may use only an account of its own.
unfoldable pub check_owner : Principal → Account → Done
check_owner actor account =
    raise_if (actor.role == role_customer && not (account.owner_id == actor.id)) forbidden

unfoldable pub build_transfer : Surroundings → Principal → TransferCommand → Account → Transfer
build_transfer env actor cmd from = record {
  id = random_id "txn" (env.random 0);
  idempotency_key = cmd.idempotency_key;
  intent = record {
    from_account_id = cmd.from_account_id;
    to_account_id = cmd.to_account_id;
    amount_minor = cmd.amount_minor;
    description = cmd.description;
  };
  currency = from.currency;
  actor_id = actor.id;
  created_at = env.now;
}

-- The risk event of a transfer of the threshold or more.
unfoldable pub build_risk : Config → Surroundings → Transfer → Option RiskEvent
build_risk cfg env t =
    if leb_ℤ cfg.risk_threshold_minor t.intent.amount_minor
    then some (record {
      id = random_id "risk" (env.random 1);
      kind = "high_value_transfer";
      severity = "medium";
      transfer_id = t.id;
      reason = "amount_minor >= " ++ˢ format_int cfg.risk_threshold_minor;
      created_at = env.now;
    })
    else none

-- The repository input of a transfer. Its ids are read after the risk event's, if there is one.
unfoldable pub build_transfer_input :
    Surroundings → Transfer → Option RiskEvent → ApplyTransferInput
build_transfer_input env t risk =
    let next : ℕ = elim risk [ none ↦ 1 | some _ ↦ 2 ] in
    record {
      transfer = t;
      posting_ids = (random_id "post" (env.random next), random_id "post" (env.random (next + 1)));
      audit = record {
        id = random_id "audit" (env.random (next + 2));
        actor_id = t.actor_id;
        action = "transfer.create";
        resource_id = t.id;
        outcome = "success";
        metadata = some (
            ("from_account_id", text t.intent.from_account_id)
            ∷ ("to_account_id", text t.intent.to_account_id)
            ∷ ("amount_minor", number t.intent.amount_minor)
            ∷ ("currency", text t.currency)
            ∷ []);
        created_at = env.now;
      };
      risk = risk;
    }

-- `canInspect`
unfoldable pub can_inspect : Principal → Bool
can_inspect actor =
    is_valid actor
    && (actor.role == role_operator || actor.role == role_admin || actor.role == role_auditor)
