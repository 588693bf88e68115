-- ===== src/Lib.antt =====
-- Verification of the ledger: accounts with double-entry postings, idempotent transfers, and the
-- service that authorises them.
--
-- The program takes commands over HTTP (internal/httpapi), authorises and completes them
-- (internal/app), and hands them to a repository (internal/store) that is either held in memory
-- (internal/store/memory) or by PostgreSQL (internal/store/postgres). Large transfers raise risk
-- events, which go to a bounded dispatcher (internal/risk/dispatcher.go) or, with PostgreSQL, to an
-- outbox that a worker empties (internal/risk/outbox.go).
--
-- Files:
--   Prelude: integers with int64 wrap-around, texts, results, maps as association lists, and
--     methods as functions of a state that return a result and the next state.
--   Domain: internal/domain/model.go. Model has the types, Domain the validations; Balanced,
--     Currency and Records compare the balance of postings, `ValidateCurrency` and the equality of intents
--     with independent descriptions.
--   Store: internal/store/store.go. `Repository` is the interface as a record over any state.
--   Memory: internal/store/memory/store.go. State has the fields of `Store`; Accounts, Transfers,
--     Audit and Lists have the parts of the methods, and Memory the methods: `create_account` is
--     `CreateAccount`, `apply_transfer` is `ApplyTransfer`, and so on. `apply_new` is the part of
--     `ApplyTransfer` behind the idempotency test. `Call`, `step` and `run` are sequences of
--     writing calls. Proofs: Cases (the ways in which a method ends), Facts (what the checks
--     guarantee), Sound (the invariant), Effects, Idempotency, Refusals, Supply, History, Listing.
--     Refines is the view of the store as an abstract ledger; its Paid, Opening and Ledger show that the
--     store keeps to the contract.
--   Contract: what internal/store/store.go promises its clients, as an abstract ledger: a function from
--     ids to holdings and one from actors and keys to receipts. `IsLedger` is the contract of a
--     repository, with `between` for what others may do, and `finds` and `commits` for what the attempts of
--     a call find by the work of others alone. Client and
--     Service are what follows from it alone.
--   App: internal/app/service.go. Types has the configuration and the commands, Build what the
--     methods compute, App the methods over any repository and any notifier. Proofs: Access
--     (authorisation), Keeps, Clean and Applied (what the methods do to their repository).
--   Ledger: the service over the in-memory store, as cmd/secureledger/main.go joins them. Proofs:
--     Transfers, Answers, Owners (requests of other customers).
--   Cluster: servers of cmd/secureledger/main.go that share one PostgreSQL database.
--   Http: internal/httpapi/server.go. Wire has what the handlers read and write, Http the handlers and
--     `serve`, which calls the handler of a route. Proofs: Access, Failures, Limits, Writer (the response
--     writer and the middleware); and
--     Ledger.Answers for the handlers over the in-memory store.
--   Risk.Dispatcher: internal/risk/dispatcher.go. Risk.Worker: internal/risk/outbox.go.
--   Postgres: internal/store/postgres/store.go. Schema has the tables of deploy/postgres/001_init.sql,
--     Statements the statements on them, Inputs the validations and the classes of errors, Rows the rows
--     that are written, Reads the tests of the rows that are read, Writes `createAccountTx` and `applyTransferTx`,
--     Rounds the loop that tries a transaction again, Lists the listings, and Postgres the methods.
--     Proofs: Sound and its children (the invariant of the tables; Entry is the step that both
--     transactions share, Actions the orders of transactions), Retry (the loop), Replay (a key that
--     is used again), Refines (the tables as an abstract ledger; Others is what transactions of
--     others do to it, Ledger the methods, Contracted the contract). Open is `Open` with the pool of connections,
--     Trigger the deferred trigger of the schema, Listing what `ListJournal` returns.
--   Postgres.Reconcile: internal/store/postgres/reconcile.go; Clean, Report and Reached are its proofs.
--   Postgres.Outbox: internal/store/postgres/outbox.go; `outbox` is an instance of the worker's
--     `Outbox`. Proofs: Claims, Orderly, Calls, Cycles (`ProcessOnce` and `Run` over this
--     outbox), Steps, Chosen and Delivered (a cycle that the server serves).
--   Commands: cmd/secureledger/main.go (the environment and the set-up of `run`; Serve has `run` and
--     `main`, with what `run` starts and closes as a list of events), cmd/secureledger-reconcile/main.go,
--     cmd/secureledger-healthcheck/main.go. Proofs: Configured, Clean, Serve.Stopped.
--
-- How the code is rendered:
--   An int64 or int is an integer, and its arithmetic wraps around as `add64`, `sub64`, `neg64`.
--   A list's length is not wrapped. A string is a text of Unicode characters, so a string that is no
--   valid UTF-8 is not modelled; `len` counts bytes, `count` runes.
--   An error is its sentinel (internal/domain/errors.go) without the text that wraps it; `canceled` and
--   `deadline_exceeded` are those of a context, `database` is one of PostgreSQL, and `internal` stands for
--   all others. A context is what
--   `ctx.Err()` returns.
--   A time is the number of nanoseconds since Go's zero time.
--   Every method of the in-memory store holds the mutex from its first access to its last, so it is
--   one step, and every interleaving of calls is a sequence of steps. `GetAccount`, which the service
--   calls before `ApplyTransfer`, is a step of its own.
--   The clock and the random bytes of new identifiers are inputs of the service's methods. Nothing
--   is assumed of them; equal identifiers are refused by the store.
--   `sort.Slice` is a stable sort here; Go leaves the order of equal times open.
--   The tables of PostgreSQL are one state, and a statement is a function of it that writes its rows or
--   fails with the error of its first constraint that does not hold, `database` with a code and a
--   constraint. PostgreSQL itself is a parameter. `Server` is what a timestamptz column keeps of a time,
--   the JSON and the SHA-256 of a fingerprint, the reading of stored JSON and the order of texts; `Numbers` are the
--   values of identity columns. A serializable transaction runs as if alone, on the tables that others
--   left (`Round.meanwhile`), or is aborted, and its commit may succeed with the reply lost: `Attempt`.
--   `aborted` stands for every error of a statement that is not a constraint's, a serialization failure
--   among them, with whatever code. The loops try four times, as `defaultMaxRetries` says, so they need
--   no fuel beyond it. `Deadline` is what is left of the caller's context behind an
--   attempt, which `wait_for_retry` compares with the pause of `waitForRetry`.
--   Row versions and posting counts are not bounded.
--   Printing a number goes digit by digit with fuel for 19 digits, which an int64 never exceeds.
--
-- Not modelled: how the goroutines of the server run beside each other; the HTTP
-- server and the HTTP client themselves; the connection pool
-- itself; the append-only
-- triggers, roles and indexes of the schema; the choice of a route; the parsing and printing of JSON and of numbers
-- in a query or in the environment (their results are inputs); the messages of error responses; logging; the ticker of the worker; a failing random source; and the sharing of
-- metadata maps between a caller and the store.
pub mod App
pub mod Cluster
pub mod Commands
pub mod Contract
pub mod Domain
pub mod Http
pub mod Ledger
pub mod Memory
pub mod Postgres
pub mod Prelude
pub mod Risk
pub mod Store
