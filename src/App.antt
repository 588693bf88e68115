-- ===== src/App.antt =====
-- internal/app/service.go: authorisation and limits in front of a repository.
mod Types
mod Build
pub mod Access
pub mod Clean
pub mod Applied
pub mod Keeps
unfoldable pub use Types.*
unfoldable pub use Build.*
use secure_ledger.Prelude.{
  String, len, Bool, true, false, not, ◌&&◌, ◌||◌, Option, none, some, List, ltb, if◌then◌else◌,
  ◌==◌, string_Eq, Done, raise_if, invalid_input, forbidden, currency_mismatch, transfer_limit,
  Context, ok,
}
use secure_ledger.Prelude.Int.{ℤ, ltb_ℤ}
use secure_ledger.Prelude.Text.{trim_space}
use secure_ledger.Prelude.Exec.{Exec, pure, lift, ◌>>=◌, ◌>>◌}
use secure_ledger.Domain.{
  Principal, Account, Posting, AuditRecord, RiskEvent, role_auditor, is_valid, validate_currency,
}
use secure_ledger.Store.{Repository, TransferResult}

-- A call of the repository leaves the notifier alone.
abbrev pub on_repo : {S N A : Type 0} → Exec S A → Exec (S × N) A
on_repo m (s, n) = let (r, s') = m s in (r, (s', n))

-- `if riskEvent != nil && !result.Replayed && s.notifier != nil { s.notifier.Submit(*riskEvent) }`
unfoldable pub notify :
    {S N : Type 0}
    → Option (RiskEvent → N → Bool × N)
    → Option RiskEvent
    → TransferResult
    → Exec (S × N) Unit
notify none risk result w = (ok tt, w)
notify (some submit) none result w = (ok tt, w)
notify (some submit) (some event) result (s, n) =
    (ok tt, (s, (if result.replayed then n else (submit event n).1)))

-- The methods of the service. The state is the repository's and the notifier's.
module _ {S N : Type 0} (service : Service S N) where
  unfoldable pub create_account :
      Context → Surroundings → Principal → CreateAccountCommand → Exec (S × N) Account
  create_account ctx env actor command = do
    lift (raise_if (not (can_create actor)) forbidden)
    let cmd = trim_account_command command
    lift (raise_if (account_command_invalid cmd) invalid_input)
    lift (validate_currency cmd.currency)
    let account = build_account env cmd
    on_repo (service.repo.create_account ctx (build_account_input env actor account))
    pure account

  unfoldable pub get_account : Context → Principal → String → Exec (S × N) Account
  get_account ctx actor requested = do
    lift (raise_if (not (is_valid actor)) forbidden)
    let id = trim_space requested
    lift (raise_if (id == "" || ltb 128 (len id)) invalid_input)
    account ← on_repo (service.repo.get_account ctx id)
    lift (check_owner actor account)
    pure account

  -- `Ready`, under the context with its two seconds of time.
  unfoldable pub ready : Context → Exec (S × N) Unit
  ready ready_ctx = on_repo (service.repo.ping ready_ctx)

  unfoldable pub transfer :
      Context → Surroundings → Principal → TransferCommand → Exec (S × N) TransferResult
  transfer ctx env actor command = do
    lift (raise_if (not (is_valid actor) || actor.role == role_auditor) forbidden)
    let cmd = trim_transfer_command command
    lift (raise_if (transfer_command_invalid cmd) invalid_input)
    lift (raise_if (ltb_ℤ service.cfg.max_transfer_minor cmd.amount_minor) transfer_limit)
    from ← on_repo (service.repo.get_account ctx cmd.from_account_id)
    lift (check_owner actor from)
    to ← on_repo (service.repo.get_account ctx cmd.to_account_id)
    lift (raise_if (not (from.currency == to.currency)) currency_mismatch)
    let t = build_transfer env actor cmd from
    let risk = build_risk service.cfg env t
    result ← on_repo (service.repo.apply_transfer ctx (build_transfer_input env t risk))
    notify service.notifier risk result
    pure result

  unfoldable pub list_journal : Context → Principal → ℤ → Exec (S × N) (List Posting)
  list_journal ctx actor limit = do
    lift (raise_if (not (can_inspect actor)) forbidden)
    on_repo (service.repo.list_journal ctx limit)

  unfoldable pub list_audit : Context → Principal → ℤ → Exec (S × N) (List AuditRecord)
  list_audit ctx actor limit = do
    lift (raise_if (not (can_inspect actor)) forbidden)
    on_repo (service.repo.list_audit ctx limit)

  unfoldable pub list_risk_events : Context → Principal → ℤ → Exec (S × N) (List RiskEvent)
  list_risk_events ctx actor limit = do
    lift (raise_if (not (can_inspect actor)) forbidden)
    on_repo (service.repo.list_risk_events ctx limit)
