-- ===== src/Postgres.antt =====
-- internal/store/postgres/store.go: the methods of the PostgreSQL adapter. PostgreSQL itself is a
-- parameter: `Server` is what its columns keep, `Round` how it serves an attempt at a transaction, and
-- the `reply` of a query outside a transaction is its error, if it has one.
mod Schema
mod Statements
mod Inputs
mod Rows
mod Reads
mod Writes
mod Rounds
mod Lists
unfoldable pub use Schema.*
unfoldable pub use Statements.*
unfoldable pub use Inputs.*
unfoldable pub use Rows.*
unfoldable pub use Reads.*
unfoldable pub use Writes.*
unfoldable pub use Rounds.*
pub mod Sound
pub mod Retry
pub mod Replay
pub mod Refines
pub mod Open
pub mod Trigger
pub mod Listing
pub mod Reconcile
pub mod Outbox
pub mod Tests
unfoldable pub use Lists.*
use Prim.Native.Nat.{ℕ}
use secure_ledger.Prelude.{
  String, Bool, true, false, not, ◌||◌, ◌&&◌, Option, none, some, List, Result, Done, ok, err,
  or_raise, not_found, internal, Error, raise_if, check_context, Context, string_Eq,
}
use secure_ledger.Prelude.Int.{ℤ}
use secure_ledger.Prelude.Map.{lookup}
use secure_ledger.Prelude.Exec.{Exec, pure, lift, asks, gets, ◌>>=◌, ◌>>◌}
use secure_ledger.Domain.{Account, Posting, AuditRecord, RiskEvent}
use secure_ledger.Store.{CreateAccountInput, ApplyTransferInput, TransferResult, Repository}
use secure_ledger.Memory.{normalise_limit}

module _ (server : Server) where
  unfoldable pub create_account : (ℕ → Round) → CreateAccountInput → Exec Tables Unit
  create_account rounds input = do
    lift (validate_create_account input)
    retry rounds is_retryable (λ n. create_account_tx server n input) internal max_retries 0

  unfoldable pub apply_transfer : (ℕ → Round) → ApplyTransferInput → Exec Tables TransferResult
  apply_transfer rounds input = do
    lift (validate_transfer input)
    retry rounds (λ e. is_retryable e || is_idempotency_race e)
        (λ n. apply_transfer_tx server n input) internal max_retries 0

  unfoldable pub get_account : (reply : Context) → String → Exec Tables Account
  get_account reply id = do
    lift (check_context reply)
    asks (λ t. or_raise (customer server (lookup id t.accounts)) not_found)

  unfoldable pub list_journal : (reply : Context) → ℤ → Exec Tables (List Posting)
  list_journal reply limit = do
    lift (check_context reply)
    gets (λ t.
        latest posting_earlier (normalise_limit limit) (join_postings t.transactions t.postings))

  unfoldable pub list_audit : (reply : Context) → ℤ → Exec Tables (List AuditRecord)
  list_audit reply limit = do
    lift (check_context reply)
    asks (λ t. decode_all server (latest audit_earlier (normalise_limit limit) t.audits))

  unfoldable pub list_risk_events : (reply : Context) → ℤ → Exec Tables (List RiskEvent)
  list_risk_events reply limit = do
    lift (check_context reply)
    gets (λ t. events_of (latest (risk_earlier server) (normalise_limit limit) (values t.risks)))

-- `Ping`: the reply of the pool, and that of the query for the migration.
unfoldable pub ping : Context → Result Bool → Exec Tables Unit
ping reply applied = do
  lift (check_context reply)
  found ← lift applied
  lift (raise_if (not found) internal)

-- What the calls of a client meet: the replies of the pool, and the rounds of its transactions.
pub record Connection : Type 0 where
  pub pinged : Context → Context
  pub migration : Context → Result Bool
  pub creating : Context → CreateAccountInput → ℕ → Round
  pub reading : Context → String → Context
  pub transferring : Context → ApplyTransferInput → ℕ → Round
  pub listing : Context → ℤ → Context

-- `var _ store.Repository = (*Store)(nil)`
abbrev pub repository : Server → Connection → Repository Tables
repository server c = record {
  ping = λ ctx. ping (c.pinged ctx) (c.migration ctx);
  create_account = λ ctx input. create_account server (c.creating ctx input) input;
  get_account = λ ctx id. get_account server (c.reading ctx id) id;
  apply_transfer = λ ctx input. apply_transfer server (c.transferring ctx input) input;
  list_journal = λ ctx limit. list_journal server (c.listing ctx limit) limit;
  list_audit = λ ctx limit. list_audit server (c.listing ctx limit) limit;
  list_risk_events = λ ctx limit. list_risk_events server (c.listing ctx limit) limit;
}
