-- ===== src/Memory.antt =====
-- internal/store/memory/store.go: the in-memory repository. Its methods are put together here from
-- the checks and the writes in the child modules.
mod State
mod Audit
mod Accounts
mod Transfers
mod Lists
pub mod Cases
pub mod Effects
pub mod Refines
pub mod Listing
pub mod Supply
pub mod Refusals
pub mod History
pub mod Tests
pub mod Idempotency
pub mod Sound
pub mod Facts
pub use State.*
pub use State.{scope_Eq}
unfoldable pub use Audit.*
unfoldable pub use Accounts.*
unfoldable pub use Transfers.*
unfoldable pub use Lists.*
use secure_ledger.Prelude.{
  String, Bool, true, false, Option, none, some, List, [], ◌∷◌, ◌++◌, if◌then◌else◌, Context,
  check_context,
}
use secure_ledger.Prelude.Int.{ℤ, pos, ltb_ℤ}
use secure_ledger.Prelude.Map.{lookup}
use secure_ledger.Prelude.Exec.{Exec, pure, lift, asks, gets, modify, ◌>>=◌, ◌>>◌}
use secure_ledger.Domain.{Account, Posting, AuditRecord, RiskEvent, validate_balanced}
use secure_ledger.Store.{CreateAccountInput, ApplyTransferInput, TransferResult, Repository}

unfoldable pub ping : Context → Exec Store Unit
unfolding ◌>>=◌
ping ctx = lift (check_context ctx)

-- The block under `if in.Account.BalanceMinor > 0`.
unfoldable pub open_with_balance : CreateAccountInput → Exec Store Unit
unfolding ◌>>=◌
open_with_balance input = do
  asks (check_opening_ids input)
  system_acct ← asks (system_account input.account)
  postings ← gets (λ s. opening_postings input s.sequence)
  lift (validate_balanced postings)
  modify (write_opening input system_acct postings)

unfoldable pub create_account : Context → CreateAccountInput → Exec Store Unit
unfolding ◌>>=◌ open_with_balance
create_account ctx input = do
  lift (check_context ctx)
  asks (check_account input)
  if ltb_ℤ (pos 0) input.account.balance_minor then open_with_balance input else pure tt
  modify (write_account input)

unfoldable pub get_account : Context → String → Exec Store Account
unfolding ◌>>=◌
get_account ctx id = do lift (check_context ctx); asks (find_customer_account id)

-- What follows the test for a known idempotency scope.
unfoldable pub apply_new : ApplyTransferInput → Exec Store TransferResult
unfolding ◌>>=◌
apply_new input = do
  asks (check_transfer_ids input)
  parties ← asks (find_parties input.transfer)
  lift (check_amount input.transfer.intent.amount_minor parties)
  postings ← gets (λ s. transfer_postings input parties s.sequence)
  lift (validate_balanced postings)
  modify (write_transfer input parties postings)
  pure (record { transfer = input.transfer; replayed = false })

unfoldable pub apply_transfer : Context → ApplyTransferInput → Exec Store TransferResult
unfolding ◌>>=◌
apply_transfer ctx input = do
  lift (check_context ctx)
  lift (check_transfer_input input)
  existing ← gets (λ s. lookup (scope_of input.transfer) s.idempotency)
  elim existing [ some t ↦ lift (replay input t) | none ↦ apply_new input ]

unfoldable pub list_journal : Context → ℤ → Exec Store (List Posting)
unfolding ◌>>=◌
list_journal ctx limit = do
  lift (check_context ctx)
  gets (λ s. tail_of (normalise_limit limit) s.journal)

unfoldable pub list_audit : Context → ℤ → Exec Store (List AuditRecord)
unfolding ◌>>=◌
list_audit ctx limit = do
  lift (check_context ctx)
  gets (λ s. clone_all (tail_of (normalise_limit limit) s.audit))

unfoldable pub list_risk_events : Context → ℤ → Exec Store (List RiskEvent)
unfolding ◌>>=◌
list_risk_events ctx limit = do
  lift (check_context ctx)
  gets (λ s. sort_events (tail_of (normalise_limit limit) s.risk))

-- The store as a repository.
abbrev pub repository : Repository Store
repository = record {
  ping = ping;
  create_account = create_account;
  get_account = get_account;
  apply_transfer = apply_transfer;
  list_journal = list_journal;
  list_audit = list_audit;
  list_risk_events = list_risk_events;
}

-- The calls of a store that write, as they reach its lock one after the other.
pub data Call : Type 0 where
  creates : Context → CreateAccountInput → Call
  transfers : Context → ApplyTransferInput → Call

pub step : Call → Store → Store
step (creates ctx input) s = (create_account ctx input s).1
step (transfers ctx input) s = (apply_transfer ctx input s).1

pub run : List Call → Store → Store
unfolding step
run [] s = s
run (c ∷ cs) s = run cs (step c s)
