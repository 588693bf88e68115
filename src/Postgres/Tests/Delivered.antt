-- ===== src/Postgres/Tests/Delivered.antt =====
-- A cycle of a worker whose publisher fails, and the opening of a pool.
use secure_ledger.Prelude.{
  String, ◌≡◌, refl, true, none, some, Option, List, [], ◌∷◌, length, ok, string_Eq, nat_Eq,
}
use secure_ledger.Prelude.Map.{lookup}
use secure_ledger.Domain.{RiskEvent}
use secure_ledger.Risk.Worker.{process_once}
use secure_ledger.Postgres.{Tables, sort_by, insert_by, migrated}
use secure_ledger.Postgres.Open.{Driver, open_store}
use secure_ledger.Postgres.Open.Outcome.{Opening, open_store-Opening}
use secure_ledger.Postgres.Outbox.{
  outbox, candidates, free_candidates, is_candidate, first_rows, normalise_outbox_limit,
  deliveries_of,
}
use secure_ledger.Postgres.Outbox.Chosen.{row_of, IsArranged}
use secure_ledger.Postgres.Outbox.Cycles.{publisher}
use secure_ledger.Postgres.Outbox.Delivered.{chosen, after_cycle, process_once-delivers}
use secure_ledger.Postgres.Outbox.Steps.{Step, changes, adds, steps, steps-migrated-IsOutbox}
use secure_ledger.Postgres.Tests.Bank.{sample, paid, everything}
use secure_ledger.Postgres.Tests.Relay.{alert, service, done}

abbrev before : List Step
before = changes (λ _. done.1) ∷ adds alert paid.transfer ∷ []

abbrev pending : Tables
pending = steps sample before migrated

abbrev unreachable : RiskEvent → Option String
unreachable e = some "no route to host"

in_order :
    IsArranged
      (chosen sample service unreachable none 10 pending)
      (chosen sample service unreachable none 10 pending)
unfolding everything candidates free_candidates is_candidate first_rows normalise_outbox_limit
    sort_by insert_by
in_order = record { once = (refl, tt); same = λ id. refl }

process_once-delivers_example :
    ((process_once
        (outbox sample service)
        (publisher sample service unreachable none 10)
        none
        10
        pending).0
      ≡ ok (
          length
            (deliveries_of (sample.stamp 10) (chosen sample service unreachable none 10 pending))))
    × (lookup "risk_1"
          (process_once
            (outbox sample service)
            (publisher sample service unreachable none 10)
            none
            10
            pending).1.risks
        ≡ after_cycle sample service unreachable none 10
            (λ id. refl)
            (row_of "risk_1" (chosen sample service unreachable none 10 pending))
            (lookup "risk_1" pending.risks))
process_once-delivers_example =
    process_once-delivers sample service unreachable none 10 pending
      (steps-migrated-IsOutbox sample before) refl (λ id. refl) in_order "risk_1"

abbrev driver : Driver
driver = record {
  parse_config = λ url. ok (record { application_name = ""; connect_timeout = 0 });
  new_with_config = λ c. none;
  pinged = λ c. none;
  migration = λ c. ok true;
}

open_store-Opening_example :
    Opening driver "postgres://ledger"
      (open_store driver migrated "postgres://ledger" none).0
      (open_store driver migrated "postgres://ledger" none).1
open_store-Opening_example = open_store-Opening driver migrated "postgres://ledger"
