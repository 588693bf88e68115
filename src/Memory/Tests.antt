-- ===== src/Memory/Tests.antt =====
-- The theorems of the in-memory store, applied to a small bank that is run by evaluation.
use secure_ledger.Prelude.{
  String, ◌≡◌, ◌≢◌, ◌≤◌, ap, refl, true, false, none, List, [], ◌∷◌, ◌++◌, length, arith, eq_iff,
  ok, err, insufficient_funds, idempotency_conflict, invalid_input, All, if◌then◌else◌, string_Eq,
}
pub mod Bank
mod Opening
mod Contract
use secure_ledger.Memory.Tests.Bank.{
  opening, payment, script, script-IsTyped, bank, bank-IsSound, everything,
}
use Prim.Native.Nat.{min}
use mathlib.Core.List.{Perm}
use secure_ledger.Prelude.Int.{ℤ, pos, negsuc, ◌+ℤ◌, ◌-ℤ◌, ◌≤ℤ◌, ltb_ℤ, pos_part}
use secure_ledger.Prelude.Int64.{add64, sub64, neg64, wrap64}
use secure_ledger.Prelude.Map.{lookup, insert, contains}
use secure_ledger.Prelude.Text.{is_blank}
use secure_ledger.Domain.{
  Account, Posting, AuditRecord, RiskEvent, validate_balanced, sum_postings, validate_audit_record,
  validate_risk_event, validate_currency, intent_equal, TransferIntent,
}
use secure_ledger.Store.{CreateAccountInput, ApplyTransferInput, TransferResult}
use secure_ledger.Memory.{
  Store, new, create_account, apply_transfer, Call, creates, transfers, run, get_account,
  check_transfer_input, check_account, check_opening_ids, system_account, find_customer_account,
  find_parties, apply_new, check_amount, check_transfer_ids, system_account_id, write_opening,
  write_account, write_transfer, move_balances, clone_audit, replay, Parties, normalise_limit,
  list_journal, list_risk_events, tail_of,
}
use secure_ledger.Memory.Sound.{IsSound, balance_of}
use secure_ledger.Memory.Sound.Run.{IsTyped, run-new-IsSound}
use secure_ledger.Memory.Effects.{
  Moved, apply_transfer-unchanged, create_account-unchanged, apply_transfer-Moved,
}
use secure_ledger.Memory.Idempotency.{retry_replays, reuse_conflicts}
use secure_ledger.Memory.Supply.{supply, run-new-supply}
use secure_ledger.Memory.Refusals.{IsReady, ready_decided, no_double_spend}
use secure_ledger.Memory.History.{Grows, run-Grows}
use secure_ledger.Memory.Listing.{
  Ordered, normalise_limit_bounds, list_journal-tail, list_risk_events-sorted,
}

run-new-IsSound_example : IsSound bank
run-new-IsSound_example = run-new-IsSound script script-IsTyped

abbrev second_payment : ApplyTransferInput
second_payment = payment "txn_2" "key-0002" (pos 70)

abbrev granted : ApplyTransferInput → TransferResult
granted input = record { transfer = input.transfer; replayed = false }

pay_again : (apply_transfer none second_payment bank).0 ≡ ok (granted second_payment)
unfolding everything apply_new
pay_again = refl

-- More than the account holds.
overdraw :
    (apply_transfer none (payment "txn_3" "key-0003" (pos 71)) bank).0 ≡ err insufficient_funds
unfolding everything apply_new
overdraw = refl

-- An account whose identity is taken.
open_again : (create_account none (opening "acct_a" "post_c" (pos 5)) bank).0 ≡ err invalid_input
unfolding everything apply_new
open_again = refl

apply_transfer-Moved_example : Moved second_payment bank (apply_transfer none second_payment bank).1
apply_transfer-Moved_example =
    apply_transfer-Moved none second_payment bank (granted second_payment) bank-IsSound pay_again
      refl

-- The same request, built anew with other identifiers.
abbrev resent : ApplyTransferInput
resent = payment "txn_9" "key-0002" (pos 70)

resent_passes : check_transfer_input resent ≡ ok tt
unfolding everything
resent_passes = refl

abbrev meanwhile : List Call
meanwhile = transfers none (payment "txn_4" "key-0004" (pos 1)) ∷ script

retry_replays_example :
    apply_transfer none resent (run meanwhile (apply_transfer none second_payment bank).1) ≡ (
      ok (record { transfer = second_payment.transfer; replayed = true }),
      run meanwhile (apply_transfer none second_payment bank).1,
    )
retry_replays_example =
    retry_replays none second_payment resent bank (granted second_payment) meanwhile pay_again
      resent_passes refl refl

-- The same key for another amount.
abbrev altered : ApplyTransferInput
altered = payment "txn_9" "key-0002" (pos 69)

altered_passes : check_transfer_input altered ≡ ok tt
unfolding everything
altered_passes = refl

other_intent : second_payment.transfer.intent ≢ altered.transfer.intent
other_intent e = absurd (omega (arith, ap (λ (i : TransferIntent). pos_part i.amount_minor) e))

reuse_conflicts_example :
    apply_transfer none altered (run meanwhile (apply_transfer none second_payment bank).1)
    ≡ (err idempotency_conflict, run meanwhile (apply_transfer none second_payment bank).1)
reuse_conflicts_example =
    reuse_conflicts none second_payment altered bank (granted second_payment) meanwhile pay_again
      altered_passes refl other_intent

run-new-supply_example : supply bank.accounts ≡ pos 0
run-new-supply_example = run-new-supply script script-IsTyped

run-Grows_example : Grows bank (run meanwhile bank)
run-Grows_example = run-Grows meanwhile bank

abbrev stored_account : String → String → ℤ → Account
stored_account id suffix balance = (opening id suffix balance).account

abbrev payer_and_payee : Parties
payer_and_payee = record {
  from = stored_account "acct_a" "post_a" (pos 70);
  to = stored_account "acct_b" "post_b" (pos 30);
}

different : false ≢ true
different e = cc

second_payment-IsReady : IsReady second_payment bank payer_and_payee
unfolding everything apply_new
second_payment-IsReady = record {
  valid = refl;
  unknown = refl;
  fresh = refl;
  parties = record {
    from = record { stored = refl; no_system = refl };
    to = record { stored = refl; no_system = refl };
    distinct = λ e. different ((eq_iff "acct_a" "acct_b").1 e);
    one_currency = refl;
    its_currency = refl;
  };
  positive = omega arith;
  typed = omega arith;
  currency = refl;
  first_id = refl;
  second_id = refl;
  transaction_id = refl;
  from_id = refl;
  to_id = refl;
}

-- Two payments of which the account can make both.
abbrev third_payment : ApplyTransferInput
third_payment = payment "txn_5" "key-0005" (pos 20)

abbrev small_payment : ApplyTransferInput
small_payment = payment "txn_6" "key-0006" (pos 50)

third_granted : (apply_transfer none third_payment bank).0 ≡ ok (granted third_payment)
unfolding everything apply_new
third_granted = refl

small_granted :
    (apply_transfer none small_payment (apply_transfer none third_payment bank).1).0
    ≡ ok (granted small_payment)
unfolding everything apply_new
small_granted = refl

no_double_spend_example : pos 20 +ℤ pos 50 ≤ℤ balance_of "acct_a" bank.accounts
no_double_spend_example =
    no_double_spend none none third_payment small_payment bank (granted third_payment)
      (granted small_payment) bank-IsSound refl third_granted refl small_granted refl
