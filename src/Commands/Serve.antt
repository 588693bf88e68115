-- ===== src/Commands/Serve.antt =====
-- cmd/secureledger/main.go from the start of the process to its exit, and the exit codes of the others.
pub mod Stopped
use Prim.Native.Nat.{ℕ, ◌*◌, ◌^◌}
use secure_ledger.Prelude.{
  String, Bool, true, false, Option, none, some, List, [], ◌∷◌, ◌++◌, Error, Result, Done, ok, err,
  check_context, Context,
}
use secure_ledger.Prelude.Exec.{Exec, lift, modify, ◌>>=◌, ◌>>◌}
use secure_ledger.Postgres.Reconcile.{ReconciliationReport}
use secure_ledger.Commands.{
  Environment, Level, info, Backend, Setup, env_log_level, open_repository, setup_of, check,
  run_reconciliation,
}

-- In nanoseconds.
abbrev pub second : ℕ
second = 1000 * 1000 * 1000

-- The limits of the `http.Server` that `run` starts.
pub record HttpServer : Type 0 where
  pub addr : String
  pub read_header_timeout : ℕ
  pub read_timeout : ℕ
  pub write_timeout : ℕ
  pub idle_timeout : ℕ
  pub max_header_bytes : ℕ

abbrev pub http_server : Setup → HttpServer
http_server setup = record {
  addr = setup.address;
  read_header_timeout = 5 * second;
  read_timeout = 10 * second;
  write_timeout = 15 * second;
  idle_timeout = 60 * second;
  max_header_bytes = 2 ^ 20;
}

-- What `run` starts and stops, in the order of its statements.
pub data Event : Type 0 where
  opened_repository : Backend → Event
  started_worker : Event
  started_dispatcher : (capacity : ℕ) → Event
  started_server : HttpServer → Event
  shut_down : (patience : ℕ) → Event
  closed_repository : Backend → Event

-- What the `select` of `run` takes: a signal, or the error of `ListenAndServe`, which is not
-- `http.ErrServerClosed`.
pub data Stop : Type 0 where
  requested : Stop
  failed : Error → Stop

-- What happens outside the program in one run of it: the result of `postgresstore.Open`, the end of the
-- serving, and the result of `server.Shutdown`.
pub record Course : Type 0 where
  pub opened : Context
  pub stop : Stop
  pub shutdown : Context

abbrev pub note : Event → Exec (List Event) Unit
note event = modify (λ events. events ++ event ∷ [])

abbrev pub start_delivery : Setup → Exec (List Event) Unit
start_delivery setup = if_outbox setup.durable_outbox
  where
    if_outbox : Bool → Exec (List Event) Unit
    if_outbox true = note started_worker
    if_outbox false = note (started_dispatcher 128)

abbrev pub shutdown_timeout : ℕ
shutdown_timeout = 10 * second

-- Behind the start of the server.
unfoldable pub await_stop : Stop → (shutdown : Context) → Exec (List Event) Unit
await_stop (failed e) shutdown = lift (err e)
await_stop requested shutdown = do note (shut_down shutdown_timeout); lift (check_context shutdown)

-- `run` behind `openRepository`, without its `defer`.
unfoldable pub serve_setup : Course → Setup → Exec (List Event) Unit
serve_setup course setup = do
  start_delivery setup
  note (started_server (http_server setup))
  await_stop course.stop course.shutdown

-- `defer closeRepository()` behind a body, whatever the body returns.
abbrev pub closing : Backend → Done × List Event → Done × List Event
closing backend (result, events) = (result, events ++ closed_repository backend ∷ [])

module _ (env : Environment) where
  -- `run`
  unfoldable pub run : Course → Exec (List Event) Unit
  run course events = elim (open_repository env course.opened) [
    | err e ↦ (err e, events)
    | ok backend ↦
        closing backend
          (serve_setup course (setup_of env backend) (events ++ opened_repository backend ∷ []))
  ]

  -- The level of the log that `main` builds.
  unfoldable pub log_level : Level
  log_level = env_log_level env "SECURELEDGER_LOG_LEVEL" info

-- What each `main` makes of the error of its `run` or `check`.
abbrev pub exit_code : Done → ℕ
exit_code (ok _) = 0
exit_code (err _) = 1

unfoldable pub main : Environment → Course → ℕ
main env course = exit_code (run env course []).0

unfoldable pub main_healthcheck : Result ℕ → ℕ
main_healthcheck answer = exit_code (check answer)

unfoldable pub main_reconciliation :
    (opened : Context) → Result ReconciliationReport → (written : Context) → ℕ
main_reconciliation opened found written = exit_code (run_reconciliation opened found written []).0
