-- ===== src/Commands/Configured.antt =====
-- The configuration of the service against the environment.
use secure_ledger.Prelude.{
  ◌≡◌, refl, String, false, Option, none, some, Bool-cases, inl, inr, arith, ◌==◌, string_Eq,
}
use secure_ledger.Prelude.Int.{ℤ, pos, ◌≤ℤ◌, leb_ℤ}
use secure_ledger.App.{new_config}
use secure_ledger.Commands.{Environment, positive_or, env_int64, configuration}

positive_or_positive :
    (env : Environment) (fallback : ℤ) (o : Option ℤ)
    → pos 1 ≤ℤ fallback
    → pos 1 ≤ℤ positive_or env fallback o
positive_or_positive env fallback none h = h
positive_or_positive env fallback (some parsed) h = ground arith

-- A positive fallback leaves a positive number, whatever the environment holds.
pub env_int64_positive :
    (env : Environment) (name : String) (fallback : ℤ)
    → pos 1 ≤ℤ fallback
    → pos 1 ≤ℤ env_int64 env name fallback
unfolding env_int64
env_int64_positive env name fallback h = elim (Bool-cases (env.getenv name == "")) [
  | inl unset ↦ rw unset h
  | inr given ↦ rw given (positive_or_positive env fallback (env.parse_int (env.getenv name)) h)
]

-- The limits of `run` pass through `New` of the service unchanged.
pub new_config-configuration :
    (env : Environment) → new_config (configuration env) ≡ configuration env
unfolding new_config configuration
new_config-configuration env =
    let most : leb_ℤ (env_int64 env "SECURELEDGER_MAX_TRANSFER_MINOR" (pos 100_000_000)) (pos 0)
        ≡ false =
      ground (arith, env_int64_positive env "SECURELEDGER_MAX_TRANSFER_MINOR" (pos 100_000_000)) in
    let risky : leb_ℤ (env_int64 env "SECURELEDGER_RISK_THRESHOLD_MINOR" (pos 1_000_000)) (pos 0)
        ≡ false =
      ground (arith, env_int64_positive env "SECURELEDGER_RISK_THRESHOLD_MINOR" (pos 1_000_000)) in
    rw (most, risky) refl
