-- ===== src/Cluster.antt =====
-- Servers of cmd/secureledger that share one PostgreSQL database: SECURELEDGER_STORE is "postgres" for each of
-- them, and each has its own connections. What the other servers do between the attempts of one is a list of
-- transactions that commit.
mod Tests
use secure_ledger.Prelude.{◌≡◌, ◌⊎◌, true, none, some, Context, Error, ok, err}
use secure_ledger.Prelude.Text.{trim_space}
use secure_ledger.Domain.{Principal}
use secure_ledger.Store.{ApplyTransferInput, TransferResult}
use secure_ledger.App.{Service, Config, new_config, Surroundings, TransferCommand, transfer}
use secure_ledger.App.Applied.{Asked}
use secure_ledger.Contract.{receipt_of}
use secure_ledger.Contract.Client
use secure_ledger.Contract.Service
use secure_ledger.Contract.Service.{HasAnswered}
use secure_ledger.Postgres.{Server, Tables, Connection, repository, apply_transfer}
use secure_ledger.Postgres.Sound.{IsSound}
use secure_ledger.Postgres.Refines.{view}
use secure_ledger.Postgres.Refines.Others.{Between, Found, FoundCommitted}
use secure_ledger.Postgres.Refines.Contracted.{IsShared, Finds, Commits, repository-IsLedger}

-- `app.New(repo, nil, cfg)`: the repository is an outbox, and the service has no notifier.
abbrev pub postgres_service : Server → Connection → Config → Service Tables (Unit {0})
postgres_service server c cfg = record {
  repo = repository server c;
  notifier = none;
  cfg = new_config cfg;
}

module _ (server : Server) (c : Connection) (shared : IsShared server c) where
  -- Others commit transactions of the adapter, and a lost reply is no error that another attempt follows.
  -- A transfer that a server grants on sound tables is the payment that the command asks for, in the name of
  -- the actor, in the ledger that the committed attempt found, as others had left it, or is reported as a
  -- replay of a payment with the same intent, which stands there under the actor and the key, and changes
  -- nothing of that ledger.
  pub transfer-HasAnswered :
      (cfg : Config) (ctx : Context) (env : Surroundings) (actor : Principal)
      (cmd : TransferCommand) (t : Tables) (r : TransferResult)
      → IsSound server t
      → (transfer (postgres_service server c cfg) ctx env actor cmd (t, tt)).0 ≡ ok r
      → HasAnswered
          (view server)
          (Commits c)
          ctx
          actor
          cmd
          r
          t
          (transfer (postgres_service server c cfg) ctx env actor cmd (t, tt)).1.0
  transfer-HasAnswered cfg ctx env actor cmd t r sound granted =
      Service.service_transfer-HasAnswered (postgres_service server c cfg) (view server)
        (IsSound server) (Between server) (Finds c) (Commits c)
        (repository-IsLedger server c shared) ctx env actor cmd (t, tt) r sound granted

module _ (server : Server) (c c' : Connection) (shared : IsShared server c)
    (shared' : IsShared server c') where
  -- Others commit transactions of the adapter, and a lost reply is no error that another attempt follows.
  -- A transfer that one server has granted on sound tables is paid once: a granted transfer of the same actor
  -- with the same trimmed key at another server (or at the same), after whatever transactions have
  -- committed in between, is reported as a replay of the same payment, and leaves the ledger as its
  -- committed attempt found it, by the work of others alone.
  pub transfer-pays_once :
      (cfg cfg' : Config) (ctx ctx' : Context) (env env' : Surroundings) (actor actor' : Principal)
      (first second : TransferCommand) (t t' : Tables) (r r' : TransferResult)
      → IsSound server t
      → (transfer (postgres_service server c cfg) ctx env actor first (t, tt)).0 ≡ ok r
      → Between server (transfer (postgres_service server c cfg) ctx env actor first (t, tt)).1.0 t'
      → actor'.id ≡ actor.id
      → trim_space second.idempotency_key ≡ trim_space first.idempotency_key
      → (transfer (postgres_service server c' cfg') ctx' env' actor' second (t', tt)).0 ≡ ok r'
      → (r'.replayed ≡ true)
        × (receipt_of r'.transfer ≡ receipt_of r.transfer)
        × ((input : ApplyTransferInput) × Asked actor' second input
            × ((seen : Tables) × FoundCommitted (c'.transferring ctx' input) t' seen
                × (view server
                      (transfer
                        (postgres_service server c' cfg')
                        ctx'
                        env'
                        actor'
                        second
                        (t', tt)).1.0
                    ≡ view server seen)))
  transfer-pays_once cfg cfg' ctx ctx' env env' actor actor' first second t t' r r' sound granted
        moved same key granted' =
      Service.service_transfer-pays_once (postgres_service server c cfg)
        (postgres_service server c' cfg') (view server) (IsSound server) (Between server) (Finds c)
        (Commits c) (Finds c') (Commits c') (repository-IsLedger server c shared)
        (repository-IsLedger server c' shared') ctx ctx' env env' actor actor' first second (t, tt)
        (t', tt) r r' sound granted moved same key granted'

  -- Others commit transactions of the adapter, and a lost reply is no error that another attempt follows.
  -- Trying again after an error never pays twice: when `ApplyTransfer` has failed on sound tables, and one of the
  -- same actor and key is granted, on this or another connection, after whatever transactions have
  -- committed in between, then the failed one left the ledger as it was, or as one of its attempts found
  -- it by the work of others alone, or the granted one is reported as a replay of the payment that the
  -- failed one left under the actor and the key, and leaves the ledger as its committed attempt found it.
  pub apply_transfer-pays_once_after_error :
      (ctx ctx' : Context) (first second : ApplyTransferInput) (t t' : Tables) (e : Error)
      (r : TransferResult)
      → IsSound server t
      → (apply_transfer server (c.transferring ctx first) first t).0 ≡ err e
      → Between server (apply_transfer server (c.transferring ctx first) first t).1 t'
      → second.transfer.actor_id ≡ first.transfer.actor_id
      → second.transfer.idempotency_key ≡ first.transfer.idempotency_key
      → (apply_transfer server (c'.transferring ctx' second) second t').0 ≡ ok r
      → ((seen : Tables) × ((seen ≡ t) ⊎ Found (c.transferring ctx first) t seen)
          × (view server (apply_transfer server (c.transferring ctx first) first t).1
              ≡ view server seen))
        ⊎ ((seen : Tables) × FoundCommitted (c'.transferring ctx' second) t' seen
            × (r.replayed ≡ true)
            × ((view server (apply_transfer server (c.transferring ctx first) first t).1).paid
                  first.transfer.actor_id first.transfer.idempotency_key
                ≡ some (receipt_of r.transfer))
            × (view server (apply_transfer server (c'.transferring ctx' second) second t').1
                ≡ view server seen))
  apply_transfer-pays_once_after_error ctx ctx' first second t t' e r sound failed moved actor key
        granted =
      Client.pays_once_after_error (view server) (IsSound server) (Between server)
        (repository server c) (repository server c') (Finds c) (Commits c) (Finds c') (Commits c')
        (repository-IsLedger server c shared) (repository-IsLedger server c' shared') ctx ctx' first
        second t t' e r sound failed moved actor key granted
