-- ===== src/Postgres/Sound/Kept.antt =====
-- The transactions of the adapter keep the tables sound.
use text.Mathlib.Text.{starts_with}
use secure_ledger.Prelude.{
  ◌≡◌, refl, sym, ap, subst, Bool, true, false, Option, none, some, arith, Result, Done, ok,
  >>=-eq-ok, string_Eq, raise_if, invalid_input,
}
use secure_ledger.Prelude.Int.{pos, ◌≤ℤ◌, ltb_ℤ, eq_of_parts}
use secure_ledger.Prelude.Int64.{IsInt64}
use secure_ledger.Prelude.Map.{contains}
use secure_ledger.Prelude.Exec.{pure, lift, asks, >>=-runs}
use secure_ledger.Domain.{Transfer}
use secure_ledger.Store.{CreateAccountInput, ApplyTransferInput, TransferResult}
use secure_ledger.Memory.Facts.{system_account_id-ne}
use secure_ledger.Postgres.{
  Server, Numbers, Tables, validate_transfer, validate_create_account, apply_transfer_tx,
  create_account_tx, answer, account_row, add_account, find_accounts, find_idempotent_transfer,
  record_transfer, open_if, insert_audit, insert_audit_row, audit_row, add_audit, unusable_account,
  unusable_transfer,
}
use secure_ledger.Postgres.Sound.{IsSound}
use secure_ledger.Postgres.Sound.Booked.{
  find_accounts-AreAccounts, record_transfer-IsBooked, statement-ok,
}
use secure_ledger.Postgres.Sound.Moved.{moved-IsSound}
use secure_ledger.Postgres.Sound.Opened.{insert_opening-IsOpened, fresh_account}
use secure_ledger.Postgres.Sound.Funded.{opened-IsSound}
use secure_ledger.Postgres.Sound.Accounts.{add_account-IsSound, logs-IsSound}

-- A transfer that is tried at all moves a positive amount.
pub transfer_positive :
    (input : ApplyTransferInput)
    → validate_transfer input ≡ ok tt
    → pos 1 ≤ℤ input.transfer.intent.amount_minor
unfolding validate_transfer
transfer_positive input h =
    let (_, passed, _) =
      >>=-eq-ok (raise_if (unusable_transfer input.transfer) invalid_input) _ h in
    ground arith

-- An account that is tried at all is a customer's, and opens at zero or more.
pub account_valid :
    (input : CreateAccountInput)
    → validate_create_account input ≡ ok tt
    → (starts_with input.account.id "system:" ≡ false) × (pos 0 ≤ℤ input.account.balance_minor)
unfolding validate_create_account
account_valid input h =
    let (_, passed, _) = >>=-eq-ok (raise_if (unusable_account input.account) invalid_input) _ h in
    (ground arith, ground arith)

pub lifted_ok :
    {A : Type 0} (r : Result A) (t t' : Tables) {a : A}
    → lift r t ≡ (ok a, t')
    → (r ≡ ok a) × (t' ≡ t)
unfolding lift
lifted_ok {A} r t t' h =
    (ap (λ (x : Result A × Tables). x.0) h, sym (ap (λ (x : Result A × Tables). x.1) h))

pub asked_ok :
    {A : Type 0} (f : Tables → Result A) (t t' : Tables) {a : A}
    → asks f t ≡ (ok a, t')
    → (f t ≡ ok a) × (t' ≡ t)
unfolding asks
asked_ok {A} f t t' h =
    (ap (λ (x : Result A × Tables). x.0) h, sym (ap (λ (x : Result A × Tables). x.1) h))

module _ (server : Server) (n : Numbers) (t t' : Tables) (sound : IsSound server t) where
  answer-IsSound :
      (input : ApplyTransferInput) (found : Option Transfer) (r : TransferResult)
      → validate_transfer input ≡ ok tt
      → answer server n input found t ≡ (ok r, t')
      → IsSound server t'
  unfolding answer
  answer-IsSound input (some existing) r v h =
      subst (IsSound server) (sym (lifted_ok _ t t' h).1) sound
  answer-IsSound input none r v h =
      let ((from, to), t₁, m, h₁) = >>=-runs _ _ t h in
      let (found, same) = asked_ok (find_accounts server input.transfer) t t₁ m in
      let (booked, _) = record_transfer-IsBooked server n input from to t t' r (
        subst (λ (s : Tables). record_transfer server n input (from, to) s ≡ (ok r, t')) same h₁) in
      moved-IsSound server n input from to t t' sound
        (find_accounts-AreAccounts server input.transfer t from to found) booked
        (transfer_positive input v)

  pub apply_transfer_tx-IsSound :
      (input : ApplyTransferInput) (r : TransferResult)
      → validate_transfer input ≡ ok tt
      → apply_transfer_tx server n input t ≡ (ok r, t')
      → IsSound server t'
  unfolding apply_transfer_tx
  apply_transfer_tx-IsSound input r v h =
      let (existing, t₁, m, h₁) = >>=-runs _ _ t h in
      let (_, same) = asked_ok (find_idempotent_transfer server input.transfer) t t₁ m in
      answer-IsSound input existing r v
        (subst (λ (s : Tables). answer server n input existing s ≡ (ok r, t')) same h₁)

  opened_or_empty :
      (input : CreateAccountInput) (b : Bool) {u : Unit {0}}
      → ltb_ℤ (pos 0) input.account.balance_minor ≡ b
      → validate_create_account input ≡ ok tt
      → IsInt64 input.account.balance_minor
      → contains input.account.id t.accounts ≡ false
      → open_if server b n input
          (add_account (account_row server input.account input.account.balance_minor) t)
        ≡ (ok u, t')
      → IsSound server t'
  unfolding open_if pure
  opened_or_empty input true {u} e v typed fresh h =
      let (customer, _) = account_valid input v in
      opened-IsSound server n input t t' sound (insert_opening-IsOpened server n input t t' h) fresh
        (system_account_id-ne input.account.id input.account.currency customer) typed (ground arith)
  opened_or_empty input false {u} e v typed fresh h =
      let (_, nonneg) = account_valid input v in
      subst (IsSound server) (ap (λ (x : Done × Tables). x.1) h) (
        add_account-IsSound server (account_row server input.account input.account.balance_minor) t
          sound fresh (ground (arith, eq_of_parts input.account.balance_minor (pos 0))))

pub create_account_tx-IsSound :
    (server : Server) (n : Numbers) (input : CreateAccountInput) (t t' : Tables) {u : Unit {0}}
    → IsSound server t
    → validate_create_account input ≡ ok tt
    → IsInt64 input.account.balance_minor
    → create_account_tx server n input t ≡ (ok u, t')
    → IsSound server t'
unfolding create_account_tx insert_audit insert_audit_row
create_account_tx-IsSound server n input t t' sound v typed h =
    let (_, t₁, m₁, h₁) = >>=-runs _ _ t h in
    let (fresh, w₁) = fresh_account _ t t₁ m₁ in
    let (_, t₂, m₂, m₃) = >>=-runs _ _ t₁ h₁ in
    let before = opened_or_empty server n t t₂ sound input _ refl v typed fresh (
      subst
        (λ (s : Tables).
          open_if server (ltb_ℤ (pos 0) input.account.balance_minor) n input s ≡ (ok tt, t₂))
        w₁ m₂) in
    subst (IsSound server) (sym (statement-ok _ _ t₂ t' m₃).1) (
      logs-IsSound server (add_audit (audit_row server n.audit input.audit) t₂).audits t₂.risks t₂
        before)
