-- ===== src/Postgres/Open.antt =====
-- `Open`, `New` and `Close` of internal/store/postgres/store.go: the pool of connections. The state is the
-- configuration of the open pool, if there is one.
pub mod Outcome
use Prim.Native.Nat.{ℕ}
use secure_ledger.Prelude.{
  String, ◌≡◌, refl, ap, sym, ◌∙◌, Bool, true, false, Option, none, some, if◌then◌else◌, ◌==◌,
  string_Eq, nat_Eq, Error, internal, Result, Done, ok, err, Context, check_context, raise_if,
  arith, Bool-cases, Result-cases, Option-cases, inl, inr, ◌≢◌, eq_iff, ◌*◌,
}
use secure_ledger.Prelude.Text.{trim_space}
use secure_ledger.Prelude.Exec.{Exec, lift, modify, ◌>>=◌, ◌>>◌}
use secure_ledger.Postgres.{Tables, ping}

-- The part of `pgxpool.Config` that `Open` reads; a time-out is in nanoseconds.
pub record PoolConfig : Type 0 where
  pub application_name : String
  pub connect_timeout : ℕ

-- pgxpool: `parse_config` reads a URL, `new_with_config` is the error of a new pool, and `pinged` and `migration`
-- are the replies that `Ping` gets of it.
pub record Driver : Type 0 where
  pub parse_config : String → Result PoolConfig
  pub new_with_config : PoolConfig → Context
  pub pinged : PoolConfig → Context
  pub migration : PoolConfig → Result Bool

-- The defaults that `Open` sets.
unfoldable pub with_defaults : PoolConfig → PoolConfig
with_defaults c = record {
  application_name = if c.application_name == "" then "secureledger" else c.application_name;
  connect_timeout = if c.connect_timeout == 0 then 5 * 1_000_000_000 else c.connect_timeout;
}

-- `Ping` of a new store, and the `Close` behind its error.
unfoldable pub keep_if : Done → Exec (Option PoolConfig) Unit
keep_if (ok _) pool = (ok tt, pool)
keep_if (err e) pool = (err e, none)

module _ (driver : Driver) where
  unfoldable pub open_pool : PoolConfig → Exec (Option PoolConfig) Unit
  open_pool c = do lift (check_context (driver.new_with_config c)); modify (λ _. some c)

  -- `Open`, on the tables that its `Ping` finds.
  unfoldable pub open_store : Tables → String → Exec (Option PoolConfig) Unit
  open_store t url = do
    lift (raise_if (trim_space url == "") internal)
    parsed ← lift (driver.parse_config url)
    open_pool (with_defaults parsed)
    keep_if
        (ping (driver.pinged (with_defaults parsed)) (driver.migration (with_defaults parsed)) t).0
