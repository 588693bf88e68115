-- ===== src/Ledger/Tests.antt =====
-- A customer, an administrator and an auditor at the service, and the theorems applied to them.
use secure_ledger.Prelude.{
  ℕ, String, ◌≡◌, ◌≢◌, ◌⊎◌, refl, true, false, none, some, List, [], ◌∷◌, ◌+◌, arith, ok, err,
  forbidden, invalid_input, eq_iff, string_Eq, All,
}
use secure_ledger.Prelude.Int.{ℤ, pos, ◌+ℤ◌, ◌-ℤ◌, ◌≤ℤ◌}
use secure_ledger.Prelude.Int64.{add64, sub64, neg64, wrap64}
use secure_ledger.Prelude.Map.{lookup, insert, contains}
use secure_ledger.Prelude.Text.{is_blank, trim_space}
use secure_ledger.Prelude.Format.{hex_encode, format_int}
use secure_ledger.Prelude.Exec.{◌>>=◌}
use secure_ledger.Domain.{
  Principal, Account, is_valid, validate_balanced, sum_postings, validate_audit_record,
  validate_risk_event, validate_currency, intent_equal,
}
use secure_ledger.Store.{TransferResult}
use secure_ledger.Memory
use secure_ledger.Memory.{
  Store, new, apply_transfer, check_transfer_input, check_account, check_opening_ids,
  system_account, find_customer_account, find_parties, apply_new, check_amount, check_transfer_ids,
  system_account_id, write_opening, write_account, write_transfer, move_balances, clone_audit,
  replay,
}
use secure_ledger.Memory.Sound.{IsSound}
use secure_ledger.App.{
  Config, new_config, Service, Surroundings, CreateAccountCommand, TransferCommand, create_account,
  get_account, transfer, trim_transfer_command, trim_account_command, can_create,
  account_command_invalid, build_account, build_account_input, transfer_command_invalid,
  check_owner, build_transfer, build_risk, build_transfer_input, notify, random_id,
}
use secure_ledger.App.Access.{
  IsAuthorised, transfer-IsAuthorised, create_account-IsAuthorised, get_account-Owns,
}
use secure_ledger.Memory.Sound.Run.{new-IsSound}
use secure_ledger.Ledger.Owners.{serve-keeps_balance}
use secure_ledger.Ledger.Transfers.{HasPaid, transfer-HasPaid}
use secure_ledger.Risk.Dispatcher.{Dispatcher, new_dispatcher, submit}
use secure_ledger.Ledger.{
  Request, opens, pays, IsTyped, memory_service, handle, serve, serve-IsSound,
}

-- Different first bytes give different identifiers.
abbrev env : ℕ → Surroundings
env first = record { now = 1000 + first; random = λ n. (first + n) ∷ [] }

abbrev admin : Principal
admin = record { id = "root"; role = "admin" }

abbrev alice : Principal
alice = record { id = "alice"; role = "customer" }

abbrev eve : Principal
eve = record { id = "eve"; role = "customer" }

abbrev opening : String → ℤ → CreateAccountCommand
opening owner balance = record {
  owner_id = owner;
  currency = " GBP ";
  opening_balance_minor = balance;
}

abbrev rent : TransferCommand
rent = record {
  idempotency_key = " key-0001";
  from_account_id = "acct_0a";
  to_account_id = "acct_14 ";
  amount_minor = pos 40;
  description = "rent";
}

abbrev cfg : Config
cfg = record { max_transfer_minor = pos 0; risk_threshold_minor = pos 30 }

abbrev desk : Service Store Dispatcher
desk = memory_service (some submit) cfg

abbrev requests : List Request
requests =
    opens none (env 10) admin (opening "alice" (pos 100))
    ∷ opens none (env 20) admin (opening "bob" (pos 0))
    ∷ []

requests-AreTyped : All IsTyped requests
requests-AreTyped = omega arith

abbrev opened : Store × Dispatcher
opened = serve (some submit) cfg requests (new, new_dispatcher (pos 4))

everything : Unit {0}
unfolding create_account get_account transfer trim_transfer_command trim_account_command can_create
    account_command_invalid build_account build_account_input transfer_command_invalid check_owner
    build_transfer build_risk build_transfer_input notify random_id new_config ◌>>=◌ trim_space
    hex_encode format_int is_valid submit new_dispatcher handle serve Memory.create_account
    Memory.get_account apply_transfer apply_new check_transfer_input validate_audit_record
    validate_risk_event is_blank lookup check_account contains validate_currency check_opening_ids
    system_account add64 wrap64 ◌+ℤ◌ validate_balanced sum_postings sub64 ◌-ℤ◌ neg64
    find_customer_account find_parties check_amount check_transfer_ids system_account_id
    write_opening write_account write_transfer move_balances insert clone_audit replay intent_equal
everything = tt

paid : (r : TransferResult) × ((transfer desk none (env 30) alice rent opened).0 ≡ ok r)
unfolding everything
paid = (_, refl)

-- Another customer may not use the account.
stolen : (transfer desk none (env 30) eve rent opened).0 ≡ err forbidden
unfolding everything
stolen = refl

abbrev bob_account : CreateAccountCommand
bob_account = opening "bob" (pos 0)

opens_one : (create_account desk none (env 20) admin bob_account opened).0 ≡ err invalid_input
unfolding everything
opens_one = refl

opens_new :
    (create_account desk none (env 40) admin bob_account opened).0
    ≡ ok (build_account (env 40) (trim_account_command bob_account))
unfolding everything
opens_new = refl

read : (a : Account) × ((get_account desk none alice " acct_0a" opened).0 ≡ ok a)
unfolding everything
read = (_, refl)

transfer-IsAuthorised_example : IsAuthorised desk none alice rent opened.0
transfer-IsAuthorised_example =
    transfer-IsAuthorised desk none (env 30) alice rent opened paid.0 paid.1

create_account-IsAuthorised_example :
    (is_valid admin ≡ true)
    × ((admin.role ≡ "operator") ⊎ (admin.role ≡ "admin"))
    × (build_account (env 40) (trim_account_command bob_account)
        ≡ build_account (env 40) (trim_account_command bob_account))
    × (pos 0 ≤ℤ bob_account.opening_balance_minor)
create_account-IsAuthorised_example =
    create_account-IsAuthorised desk none (env 40) admin bob_account opened
      (build_account (env 40) (trim_account_command bob_account)) opens_new

get_account-Owns_example :
    (is_valid alice ≡ true)
    × ((desk.repo.get_account none (trim_space " acct_0a") opened.0).0 ≡ ok read.0)
    × (alice.role ≡ "customer" → read.0.owner_id ≡ "alice")
get_account-Owns_example = get_account-Owns desk none alice " acct_0a" opened read.0 read.1

opened-IsSound : IsSound opened.0
opened-IsSound =
    serve-IsSound (some submit) cfg requests (new, new_dispatcher (pos 4)) requests-AreTyped
      new-IsSound

transfer-HasPaid_example :
    HasPaid alice rent paid.0 opened.0 (transfer desk none (env 30) alice rent opened).1.0
transfer-HasPaid_example =
    transfer-HasPaid (some submit) cfg none (env 30) alice rent opened paid.0 opened-IsSound paid.1

abbrev alice_account : Account
alice_account = record {
  id = "acct_0a";
  owner_id = "alice";
  currency = "GBP";
  balance_minor = pos 100;
  system = false;
  created_at = 1010;
}

alice_stored : lookup "acct_0a" opened.0.accounts ≡ some alice_account
unfolding everything
alice_stored = refl

-- The requests of another customer, one of them for the account's money, and of an administrator.
abbrev intrusions : List Request
intrusions = opens none (env 40) admin (opening "eve" (pos 5)) ∷ pays none (env 50) eve rent ∷ []

eve_is_other : eve.id ≢ alice.id
eve_is_other same = cc ((eq_iff eve.id alice.id).1 same)

serve-keeps_balance_example :
    (b : Account) × (lookup "acct_0a" (serve (some submit) cfg intrusions opened).0.accounts
      ≡ some b)
    × (b.owner_id ≡ "alice")
    × (b.system ≡ false)
    × (pos 100 ≤ℤ b.balance_minor)
serve-keeps_balance_example =
    serve-keeps_balance (some submit) cfg intrusions opened "acct_0a" alice_account opened-IsSound
      alice_stored refl (omega arith) (tt, ((refl, eve_is_other), tt))
