-- ===== src/Postgres/Open/Outcome.antt =====
-- What `Open` leaves behind.
use secure_ledger.Prelude.{
  String, ◌≡◌, ◌≢◌, refl, sym, ap, ◌∙◌, Bool, true, false, Option, none, some, Bool-cases,
  Result-cases, Option-cases, inl, inr, arith, ◌==◌, string_Eq, nat_Eq, if◌then◌else◌, Error,
  internal, Result, Done, ok, err,
}
use secure_ledger.Prelude.Text.{trim_space}
use secure_ledger.Prelude.Exec.{lift, modify, ◌>>=◌}
use secure_ledger.Postgres.{Tables, ping}
use secure_ledger.Postgres.Open.{PoolConfig, Driver, with_defaults, keep_if, open_pool, open_store}

-- A pool whose database is reached and migrated, with the settings that the program gives it.
pub record IsUsable (driver : Driver) (url : String) (pool : Option PoolConfig) : Type 0 where
  pub parsed : PoolConfig
  pub its_url : driver.parse_config url ≡ ok parsed
  pub kept : pool ≡ some (with_defaults parsed)
  pub reached : driver.pinged (with_defaults parsed) ≡ none
  pub migrated : driver.migration (with_defaults parsed) ≡ ok true
  pub named : (with_defaults parsed).application_name ≢ ""
  pub timed : (with_defaults parsed).connect_timeout ≢ 0

pub data Opening (driver : Driver) (url : String) (reply : Done) (pool : Option PoolConfig)
    : Type 0 where
  opened : reply ≡ ok tt → IsUsable driver url pool → Opening driver url reply pool
  failed : (e : Error) → reply ≡ err e → pool ≡ none → Opening driver url reply pool

is_named : (c : PoolConfig) → (with_defaults c).application_name ≢ ""
unfolding with_defaults
is_named c e = elim (Bool-cases (c.application_name == "")) [
  | inl missing ↦
      let default : (if c.application_name == "" then "secureledger" else c.application_name)
          ≡ "secureledger" =
        ap (λ b. if b then "secureledger" else c.application_name) missing in
      cc (ap (λ s. s == "") (sym default ∙ e))
  | inr given ↦
      let own : (if c.application_name == "" then "secureledger" else c.application_name)
          ≡ c.application_name =
        ap (λ b. if b then "secureledger" else c.application_name) given in
      cc (given, ap (λ s. s == "") (sym own ∙ e))
]

is_timed : (c : PoolConfig) → (with_defaults c).connect_timeout ≢ 0
unfolding with_defaults
is_timed c e = ground arith

ping-ok :
    (driver : Driver) (c : PoolConfig) (t : Tables)
    → (ping (driver.pinged c) (driver.migration c) t).0 ≡ ok tt
    → (driver.pinged c ≡ none) × (driver.migration c ≡ ok true)
unfolding ping lift ◌>>=◌
ping-ok driver c t h = go (driver.pinged c) (driver.migration c) h
  where
    go : (p : Option Error) (m : Result Bool) → (ping p m t).0 ≡ ok tt → (p ≡ none) × (m ≡ ok true)
    go none (ok true) k = (refl, refl)
    go none (ok false) k = cc
    go none (err e) k = cc
    go (some e) m k = cc

module _ (driver : Driver) (t : Tables) (url : String) where
  pinged_case :
      (parsed : PoolConfig)
      → driver.parse_config url ≡ ok parsed
      → (d : Done)
      → (ping (driver.pinged (with_defaults parsed)) (driver.migration (with_defaults parsed)) t).0
        ≡ d
      → Opening driver url
          (keep_if d (some (with_defaults parsed))).0
          (keep_if d (some (with_defaults parsed))).1
  unfolding keep_if
  pinged_case parsed its (err e) h = failed e refl refl
  pinged_case parsed its (ok _) h =
      let (reached, migrated) = ping-ok driver (with_defaults parsed) t h in
      opened refl (record {
        parsed = parsed;
        its_url = its;
        kept = refl;
        reached = reached;
        migrated = migrated;
        named = is_named parsed;
        timed = is_timed parsed;
      })

  -- With no pool open before, `Open` succeeds with an open pool of the URL's configuration, which has an
  -- application name and a time-out, whose database answers and is migrated; or it fails and leaves no
  -- pool open.
  pub open_store-Opening :
      Opening driver url (open_store driver t url none).0 (open_store driver t url none).1
  unfolding open_store open_pool lift modify ◌>>=◌
  open_store-Opening = elim (Bool-cases (trim_space url == "")) [
    | inl empty ↦ rw empty (failed internal refl refl)
    | inr given ↦ elim (Result-cases (driver.parse_config url)) [
      | inl (e, bad) ↦ rw (given, bad) (failed e refl refl)
      | inr (parsed, its) ↦ elim (Option-cases (driver.new_with_config (with_defaults parsed))) [
        | inl connects ↦ rw (given, its, connects) (pinged_case parsed its _ refl)
        | inr (e, bad) ↦ rw (given, its, bad) (failed e refl refl)
      ]
    ]
  ]
