-- ===== src/Postgres/Tests/Relay.antt =====
-- The outbox and the reconciliation.
use secure_ledger.Prelude.{
  ◌≡◌, ◌↔◌, refl, true, false, none, some, List, [], ◌∷◌, Result, ok, string_Eq,
}
use secure_ledger.Prelude.Int.{pos}
use secure_ledger.Prelude.Map.{lookup}
use secure_ledger.Domain.{RiskEvent}
use secure_ledger.Store.{TransferResult}
use secure_ledger.Postgres.{
  apply_transfer_tx, Tables, RiskRow, migrated, committed, sort_by, insert_by,
}
use secure_ledger.Postgres.Sound.Actions.{acts}
use secure_ledger.Postgres.Reconcile.{reconcile, is_clean}
use secure_ledger.Postgres.Reconcile.Report.{AreBooks, is_clean_iff}
use secure_ledger.Postgres.Reconcile.Reached.{no_errors, clean_report, reconcile-acts-migrated}
use secure_ledger.Postgres.Outbox.{
  outbox, Service, candidates, free_candidates, is_candidate, first_rows, claim_rows,
  claim_risk_events, mark_risk_event_published, normalise_outbox_limit,
}
use secure_ledger.Risk.Worker.{process_once, deliver_all, deliver}
use secure_ledger.Postgres.Outbox.Orderly.{IsOutbox}
use secure_ledger.Postgres.Outbox.Steps.{
  Step, changes, adds, works, claims, fails, steps, steps-migrated-IsOutbox, steps-published,
}
use secure_ledger.Postgres.Tests.Bank.{
  sample, history, history-IsTyped, bank, bank-IsSound, paid, numbers, everything,
}

bank_report :
    reconcile sample no_errors 8 9 (acts sample history migrated)
    ≡ ok (clean_report 9 (acts sample history migrated))
bank_report = reconcile-acts-migrated sample history 8 9 history-IsTyped

is_clean_iff_example : (is_clean (clean_report 9 bank) ≡ true) ↔ AreBooks bank
is_clean_iff_example =
    is_clean_iff sample no_errors 8 9 bank (clean_report 9 bank) bank-IsSound.one_account
      bank-IsSound.one_transaction bank-IsSound.keyed bank_report

abbrev pub done : Result TransferResult × Tables
done = apply_transfer_tx sample (numbers 5) paid bank

-- A worker that claims, publishes, and comes again an hour later.
abbrev pub alert : RiskEvent
alert = record {
  id = "risk_1";
  kind = "large_transfer";
  severity = "high";
  transfer_id = "txn_1";
  reason = "amount";
  created_at = 6;
}

abbrev pub service : Service
service = record {
  claim = committed;
  locked = λ _. false;
  arranged = λ rs. rs;
  mark = λ _. committed;
}

-- A transfer books the event's transaction and the event.
abbrev shift : List Step
shift = changes (λ _. done.1) ∷ adds alert paid.transfer ∷ works service (λ _. none) none 10 ∷ []

abbrev later : List Step
later = claims service none (pos 32) 4_000_000_000_000 ∷ fails service none "risk_1" "late" 12 ∷ []

steps-migrated-IsOutbox_example : IsOutbox (steps sample shift migrated).risks
steps-migrated-IsOutbox_example = steps-migrated-IsOutbox sample shift

abbrev row : RiskRow
row = record {
  id = "risk_1";
  event_type = "large_transfer";
  severity = "high";
  transaction_id = "txn_1";
  reason = "amount";
  status = "published";
  attempts = 1;
  created_at = 6;
  available_at = 6;
  locked_at = none;
  published_at = some 10;
  last_error = none;
}

is_published : lookup "risk_1" (steps sample shift migrated).risks ≡ some row
unfolding everything candidates free_candidates is_candidate first_rows claim_rows claim_risk_events
    mark_risk_event_published normalise_outbox_limit sort_by insert_by outbox process_once
    deliver_all deliver
is_published = refl

steps-published_example :
    lookup "risk_1" (steps sample later (steps sample shift migrated)).risks ≡ some row
steps-published_example =
    steps-published sample later (steps sample shift migrated) steps-migrated-IsOutbox_example
      "risk_1" row is_published refl
