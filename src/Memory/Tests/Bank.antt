-- ===== src/Memory/Tests/Bank.antt =====
-- The data of the tests: two accounts, and a payment from one to the other.
use secure_ledger.Prelude.{String, false, none, List, [], ◌∷◌, arith, All, string_Eq}
use secure_ledger.Prelude.Int.{ℤ, pos, ◌+ℤ◌, ◌-ℤ◌}
use secure_ledger.Prelude.Int64.{add64, sub64, neg64, wrap64}
use secure_ledger.Prelude.Map.{lookup, insert, contains}
use secure_ledger.Prelude.Text.{is_blank}
use secure_ledger.Domain.{
  AuditRecord, validate_balanced, sum_postings, validate_audit_record, validate_risk_event,
  validate_currency, intent_equal,
}
use secure_ledger.Store.{CreateAccountInput, ApplyTransferInput}
use secure_ledger.Memory.{
  Store, new, create_account, apply_transfer, Call, creates, transfers, run, get_account,
  check_transfer_input, check_account, check_opening_ids, system_account, find_customer_account,
  find_parties, check_amount, check_transfer_ids, system_account_id, write_opening, write_account,
  write_transfer, move_balances, clone_audit, replay,
}
use secure_ledger.Memory.Sound.{IsSound}
use secure_ledger.Memory.Sound.Run.{IsTyped, run-IsSound, new-IsSound}

abbrev pub audit_of : String → String → String → AuditRecord
audit_of id action resource = record {
  id = id;
  actor_id = "teller";
  action = action;
  resource_id = resource;
  outcome = "success";
  metadata = none;
  created_at = 5;
}

abbrev pub opening : String → String → ℤ → CreateAccountInput
opening id suffix balance = record {
  account = record {
    id = id;
    owner_id = "alice";
    currency = "GBP";
    balance_minor = balance;
    system = false;
    created_at = 5;
  };
  opening_transaction_id = id;
  opening_posting_ids = (suffix, id);
  audit = audit_of id "account.create" id;
}

abbrev pub payment : String → String → ℤ → ApplyTransferInput
payment id key amount = record {
  transfer = record {
    id = id;
    idempotency_key = key;
    intent = record {
      from_account_id = "acct_a";
      to_account_id = "acct_b";
      amount_minor = amount;
      description = "invoice";
    };
    currency = "GBP";
    actor_id = "teller";
    created_at = 6;
  };
  posting_ids = (id, key);
  audit = audit_of id "transfer.create" id;
  risk = none;
}

abbrev pub script : List Call
script =
    creates none (opening "acct_a" "post_a" (pos 100))
    ∷ creates none (opening "acct_b" "post_b" (pos 0))
    ∷ transfers none (payment "txn_1" "key-0001" (pos 30))
    ∷ []

abbrev pub bank : Store
bank = run script new

pub script-IsTyped : All IsTyped script
script-IsTyped = omega arith

pub bank-IsSound : IsSound bank
bank-IsSound = run-IsSound script new script-IsTyped new-IsSound

-- What a run by evaluation looks through.
unfoldable pub everything : Unit {0}
unfolding apply_transfer run create_account get_account check_transfer_input validate_audit_record
    validate_risk_event is_blank lookup check_account contains validate_currency check_opening_ids
    system_account add64 wrap64 ◌+ℤ◌ validate_balanced sum_postings sub64 ◌-ℤ◌ neg64
    find_customer_account find_parties check_amount check_transfer_ids system_account_id
    write_opening write_account write_transfer move_balances insert clone_audit replay intent_equal
everything = tt
