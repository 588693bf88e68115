-- ===== src/Commands.antt =====
-- The commands: cmd/secureledger/main.go reads the environment and puts the service together,
-- cmd/secureledger-reconcile/main.go prints a reconciliation, cmd/secureledger-healthcheck/main.go asks the
-- service whether it is ready.
pub mod Configured
pub mod Clean
pub mod Serve
mod Tests
use Prim.Native.Nat.{ℕ}
use secure_ledger.Prelude.{
  String, Bool, true, false, not, ◌||◌, Option, none, some, List, [], ◌∷◌, ◌++◌, if◌then◌else◌,
  ◌==◌, string_Eq, nat_Eq, Result, Done, ok, err, internal, raise_if, check_context, Context,
}
use secure_ledger.Prelude.Int.{ℤ, pos, leb_ℤ}
use secure_ledger.Prelude.Exec.{Exec, lift, modify, ◌>>=◌, ◌>>◌}
use secure_ledger.Prelude.Text.{trim_space}
use secure_ledger.App.{Config}
use secure_ledger.Postgres.Reconcile.{ReconciliationReport, is_clean}

-- What the commands read outside the program: `getenv` is `os.Getenv`, the empty text for a variable that is
-- not set, `parse_int` is `strconv.ParseInt` of base 10 and 64 bits, none for an error, and `lower` is
-- `strings.ToLower`.
pub record Environment : Type 0 where
  pub getenv : String → String
  pub parse_int : String → Option ℤ
  pub lower : String → String

pub data Level : Type 0 where
  debug : Level
  info : Level
  warn : Level
  error : Level

pub data Backend : Type 0 where
  in_memory : Backend
  postgres : Backend

-- What `run` puts together before it serves.
pub record Setup : Type 0 where
  pub backend : Backend
  -- A repository that is an outbox gets a worker, and the service no notifier.
  pub durable_outbox : Bool
  pub config : Config
  pub address : String

module _ (env : Environment) where
  -- `envString`
  unfoldable pub env_string : String → String → String
  env_string name fallback =
      let value = env.getenv name in if not (value == "") then value else fallback

  -- The number that `envInt64` takes.
  abbrev pub positive_or : ℤ → Option ℤ → ℤ
  positive_or fallback none = fallback
  positive_or fallback (some parsed) = if leb_ℤ parsed (pos 0) then fallback else parsed

  -- `envInt64`
  unfoldable pub env_int64 : String → ℤ → ℤ
  env_int64 name fallback =
      let value = env.getenv name in
      if value == "" then fallback else positive_or fallback (env.parse_int value)

  -- `envLogLevel`
  unfoldable pub env_log_level : String → Level → Level
  env_log_level name fallback =
      let value = env.lower (trim_space (env.getenv name)) in
      if value == "debug"
      then debug
      else if value == "info"
      then info
      else if value == "warn" || value == "warning"
      then warn
      else if value == "error"
      then error
      else fallback

  -- `openRepository`; `opened` is the error of `postgresstore.Open`, if it has one.
  unfoldable pub open_repository : (opened : Context) → Result Backend
  open_repository opened =
      let value = env.lower (trim_space (env_string "SECURELEDGER_STORE" "memory")) in
      if value == "memory"
      then ok in_memory
      else if value == "postgres" || value == "postgresql"
      then elim opened [ none ↦ ok postgres | some e ↦ err e ]
      else err internal

  -- The limits that `run` hands to the service.
  unfoldable pub configuration : Config
  configuration = record {
    max_transfer_minor = env_int64 "SECURELEDGER_MAX_TRANSFER_MINOR" (pos 100_000_000);
    risk_threshold_minor = env_int64 "SECURELEDGER_RISK_THRESHOLD_MINOR" (pos 1_000_000);
  }

  abbrev pub is_outbox : Backend → Bool
  is_outbox in_memory = false
  is_outbox postgres = true

  abbrev pub setup_of : Backend → Setup
  setup_of backend = record {
    backend = backend;
    durable_outbox = is_outbox backend;
    config = configuration;
    address = env_string "SECURELEDGER_ADDR" ":8080";
  }

  -- `run`, until it serves.
  unfoldable pub set_up : (opened : Context) → Result Setup
  set_up opened = elim (open_repository opened) [
    | err e ↦ err e
    | ok backend ↦ ok (setup_of backend)
  ]

  -- The address that the health check asks.
  unfoldable pub healthcheck_url : String
  healthcheck_url =
      let url = env.getenv "SECURELEDGER_HEALTHCHECK_URL" in
      if url == "" then "http://127.0.0.1:8080/readyz" else url

-- `check` of the health check, of the status that `client.Get` got.
unfoldable pub check : Result ℕ → Done
check (err e) = err e
check (ok status) = raise_if (not (status == 200)) internal

-- `reconcile` of its command: `found` is what `Reconcile` returned, `written` the error of the encoder, and
-- the state is what is printed.
unfoldable pub print_reconciliation :
    Result ReconciliationReport → (written : Context) → Exec (List ReconciliationReport) Unit
print_reconciliation found written = do
  report ← lift found
  lift (check_context written)
  modify (λ printed. printed ++ report ∷ [])
  lift (raise_if (not (is_clean report)) internal)

-- `run` of the same command; `opened` is the error of `postgresstore.Open`.
unfoldable pub run_reconciliation :
    (opened : Context)
    → Result ReconciliationReport
    → (written : Context) → Exec (List ReconciliationReport) Unit
run_reconciliation opened found written = do
  lift (check_context opened)
  print_reconciliation found written
