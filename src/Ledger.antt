-- ===== src/Ledger.antt =====
-- The service of internal/app over the in-memory store, as cmd/secureledger puts them together when
-- SECURELEDGER_STORE is "memory". A request runs alone from its first read to its last write; the
-- theorems on the store's own calls (Memory) hold for every interleaving.
mod Tests
pub mod Answers
pub mod Transfers
pub mod Owners
use secure_ledger.Prelude.{
  String, ◌≡◌, Bool, Option, none, some, string_Eq, Option-cases, inl, inr, List, [], ◌∷◌, Context,
  check_context, arith, All, ok, err, Result-cases, sym, subst, ap,
}
use secure_ledger.Prelude.Int.{pos, ◌≤ℤ◌}
use secure_ledger.Prelude.Int64.{IsInt64}
use secure_ledger.Prelude.Map.{lookup}
use secure_ledger.Prelude.Text.{trim_space}
use secure_ledger.Prelude.Exec.{Keeps, ◌>>=◌}
use secure_ledger.Domain.{Principal, Account, RiskEvent, role_customer}
use secure_ledger.Store.{TransferResult}
use secure_ledger.Memory
use secure_ledger.Memory.{Store, new, repository, find_customer_account}
use secure_ledger.Memory.Facts.{get_account-same, get_account-IsCustomer}
use secure_ledger.Memory.Sound.{IsSound}
use secure_ledger.Memory.Sound.Run.{new-IsSound, create_account-IsSound, apply_transfer-IsSound}
use secure_ledger.App.{
  Service, Config, new_config, Surroundings, CreateAccountCommand, TransferCommand, create_account,
  transfer,
}
use secure_ledger.App.Keeps.{RepositoryKeeps, create_account-Keeps, transfer-Keeps}
use secure_ledger.App.Access.{transfer-IsAuthorised}

-- `app.New(memory.New(), notifier, cfg)`
abbrev pub memory_service :
    {N : Type 0} → Option (RiskEvent → N → Bool × N) → Config → Service Store N
memory_service notifier cfg = record {
  repo = repository;
  notifier = notifier;
  cfg = new_config cfg;
}

repository-Keeps : RepositoryKeeps repository IsSound
repository-Keeps = record {
  create_account =
      λ ctx input typed. record { at = λ s h. create_account-IsSound ctx input s h typed };
  get_account = λ ctx id. record { at = λ s h. subst IsSound (sym (get_account-same ctx id s)) h };
  apply_transfer = λ ctx input. record { at = λ s h. apply_transfer-IsSound ctx input s h };
}

-- The requests that may write, with all that they read from their surroundings.
pub data Request : Type 0 where
  opens : Context → Surroundings → Principal → CreateAccountCommand → Request
  pays : Context → Surroundings → Principal → TransferCommand → Request

abbrev pub IsTyped : Request → Type 0
IsTyped (opens ctx env actor cmd) = IsInt64 cmd.opening_balance_minor
IsTyped (pays ctx env actor cmd) = Unit {0}

module _ {N : Type 0} (notifier : Option (RiskEvent → N → Bool × N)) (cfg : Config) where
  pub handle : Request → Store × N → Store × N
  handle (opens ctx env actor cmd) w =
      (create_account (memory_service notifier cfg) ctx env actor cmd w).1
  handle (pays ctx env actor cmd) w = (transfer (memory_service notifier cfg) ctx env actor cmd w).1

  pub serve : List Request → Store × N → Store × N
  serve [] w = w
  serve (q ∷ qs) w = serve qs (handle q w)

  pub handle-IsSound :
      (q : Request) (w : Store × N) → IsTyped q → IsSound w.0 → IsSound (handle q w).0
  unfolding handle
  handle-IsSound (opens ctx env actor cmd) w t h =
      (create_account-Keeps (memory_service notifier cfg) IsSound repository-Keeps.create_account
          ctx env actor cmd t).at
        w h
  handle-IsSound (pays ctx env actor cmd) w t h =
      (transfer-Keeps (memory_service notifier cfg) IsSound repository-Keeps ctx env actor cmd).at w
        h

  pub serve-IsSound :
      (qs : List Request) (w : Store × N) → All IsTyped qs → IsSound w.0 → IsSound (serve qs w).0
  unfolding serve
  serve-IsSound [] w t h = h
  serve-IsSound (q ∷ qs) w t h = serve-IsSound qs (handle q w) t.1 (handle-IsSound q w t.0 h)

-- With the in-memory store, a customer whose transfer succeeds owned the account that is stored under
-- the trimmed source id at the time of the request.
pub transfer_own_account :
    {N : Type 0} (notifier : Option (RiskEvent → N → Bool × N)) (cfg : Config) (ctx : Context)
    (env : Surroundings) (actor : Principal) (cmd : TransferCommand) (w : Store × N)
    (r : TransferResult)
    → actor.role ≡ role_customer
    → (transfer (memory_service notifier cfg) ctx env actor cmd w).0 ≡ ok r
    → (from : Account) × (lookup (trim_space cmd.from_account_id) w.0.accounts ≡ some from)
      × (from.owner_id ≡ actor.id)
transfer_own_account notifier cfg ctx env actor cmd w r customer h =
    let granted = transfer-IsAuthorised (memory_service notifier cfg) ctx env actor cmd w r h in
    (
      granted.from,
      (get_account-IsCustomer ctx (trim_space cmd.from_account_id) w.0 granted.from
          granted.read).stored,
      granted.owned customer,
    )
