-- ===== src/Commands/Tests.antt =====
-- The theorems on the commands at concrete inputs.
use secure_ledger.Prelude.{
  ◌≡◌, refl, true, none, [], ◌∷◌, ok, err, internal, String, ◌==◌, string_Eq, if◌then◌else◌,
}
use secure_ledger.Prelude.Int.{pos}
use secure_ledger.Prelude.Text.{is_space, trim_left, trim_right, trim_space}
use secure_ledger.Postgres.{migrated}
use secure_ledger.Postgres.Reconcile.{reconcile}
use secure_ledger.Postgres.Reconcile.Reached.{no_errors, clean_report}
use secure_ledger.Postgres.Sound.Actions.{acts}
use secure_ledger.Postgres.Tests.Bank.{sample, history, history-IsTyped}
use secure_ledger.Commands.{
  Environment, postgres, set_up, open_repository, configuration, env_string, env_int64,
  print_reconciliation, setup_of,
}
use secure_ledger.Prelude.Exec.{◌>>=◌}
use secure_ledger.Prelude.{◌↔◌, Error}
use secure_ledger.Commands.Serve.{
  Course, requested, failed, run, main, serve_setup, await_stop, opened_repository, started_worker,
  started_server, closed_repository, http_server,
}
use secure_ledger.Commands.Serve.Stopped.{HasStopped, main_iff}
use secure_ledger.Commands.Clean.{print_reconciliation-acts-migrated}

print_reconciliation-acts-migrated_example :
    print_reconciliation (reconcile sample no_errors 8 9 (acts sample history migrated)) none []
    ≡ (ok tt, clean_report 9 (acts sample history migrated) ∷ [])
print_reconciliation-acts-migrated_example =
    print_reconciliation-acts-migrated sample history 8 9 history-IsTyped

-- An environment that sets the store alone.
abbrev chosen : String → Environment
chosen store = record {
  getenv = λ name. if name == "SECURELEDGER_STORE" then store else "";
  parse_int = λ _. none;
  lower = λ s. s;
}

set_up_postgres :
    set_up (chosen " postgresql ") none
    ≡ ok (record {
      backend = postgres;
      durable_outbox = true;
      config = record {
        max_transfer_minor = pos 100_000_000;
        risk_threshold_minor = pos 1_000_000;
      };
      address = ":8080";
    })
unfolding set_up open_repository configuration env_string env_int64 trim_space trim_left trim_right
    is_space
set_up_postgres = refl

set_up_other : set_up (chosen "sqlite") none ≡ err internal
unfolding set_up open_repository configuration env_string env_int64 trim_space trim_left trim_right
    is_space
set_up_other = refl

abbrev quiet : Course
quiet = record { opened = none; stop = requested; shutdown = none }

main_iff_example :
    ((main (chosen "memory") quiet ≡ 0) ↔ HasStopped (chosen "memory") quiet)
    × ((e : Error)
        → open_repository (chosen "memory") none ≡ err e
        → run (chosen "memory") quiet [] ≡ (err e, []))
main_iff_example = main_iff (chosen "memory") quiet

-- A server whose port is taken stops with 1, and its database is closed.
taken_port :
    run (chosen "postgres") (record { opened = none; stop = failed internal; shutdown = none }) []
    ≡ (
      err internal,
      opened_repository postgres
          ∷ started_worker
          ∷ started_server (http_server (setup_of (chosen "postgres") postgres))
          ∷ closed_repository postgres
          ∷ [],
    )
unfolding run serve_setup await_stop ◌>>=◌ open_repository env_string trim_space trim_left
    trim_right is_space
taken_port = refl
