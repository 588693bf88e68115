-- ===== src/Postgres/Writes.antt =====
-- The two transactions of internal/store/postgres/store.go that write the ledger, `createAccountTx` and
-- `applyTransferTx`, as functions of the tables.
use secure_ledger.Prelude.{Bool, true, false, Option, none, some, string_Eq}
use secure_ledger.Prelude.Int.{pos, ltb_ℤ}
use secure_ledger.Prelude.Int64.{add64, sub64}
use secure_ledger.Prelude.Map.{lookup}
use secure_ledger.Prelude.Exec.{Exec, pure, lift, asks, ◌>>=◌, ◌>>◌}
use secure_ledger.Domain.{Account, AuditRecord, RiskEvent, Transfer}
use secure_ledger.Store.{CreateAccountInput, ApplyTransferInput, TransferResult}
use secure_ledger.Memory.{system_account_id}
use secure_ledger.Postgres.Schema.{Tables}
use secure_ledger.Postgres.Statements.{
  insert_account, insert_account_if_new, update_balance, insert_transaction, insert_postings,
  insert_intent, insert_audit_row, insert_risk_row,
}
use secure_ledger.Postgres.Rows.{
  Server, Numbers, account_row, system_row, opening_transaction, first_opening, second_opening,
  audit_row, transfer_transaction, intent_row, first_posting, second_posting, risk_row,
}
use secure_ledger.Postgres.Reads.{
  check_system, find_idempotent_transfer, check_intent, find_accounts,
}

module _ (server : Server) where
  -- `insertAudit`. `json.Marshal` does not fail on the program's metadata.
  unfoldable pub insert_audit : Numbers → AuditRecord → Exec Tables Unit
  insert_audit n a = insert_audit_row (audit_row server n.audit a)

  -- The block of `createAccountTx` for a positive balance.
  unfoldable pub insert_opening : Numbers → CreateAccountInput → Exec Tables Unit
  insert_opening n input = do
    insert_account_if_new (system_row server input.account)
    balance ← asks (λ t.
        check_system server input.account
          (lookup (system_account_id input.account.currency) t.accounts))
    update_balance (system_account_id input.account.currency)
        (sub64 balance input.account.balance_minor) (server.stamp input.account.created_at)
    insert_transaction (opening_transaction server input)
    insert_postings (first_opening server n input) (second_opening server n input)

  unfoldable pub open_if : Bool → Numbers → CreateAccountInput → Exec Tables Unit
  open_if true n input = insert_opening n input
  open_if false n input = pure tt

  -- `createAccountTx`
  unfoldable pub create_account_tx : Numbers → CreateAccountInput → Exec Tables Unit
  create_account_tx n input = do
    insert_account (account_row server input.account input.account.balance_minor)
    open_if (ltb_ℤ (pos 0) input.account.balance_minor) n input
    insert_audit n input.audit

  unfoldable pub insert_risk : Option RiskEvent → Transfer → Exec Tables Unit
  insert_risk none t = pure tt
  insert_risk (some e) t = insert_risk_row (risk_row server e t)

  -- `applyTransferTx`, from its first write on.
  unfoldable pub record_transfer :
      Numbers → ApplyTransferInput → Account × Account → Exec Tables TransferResult
  record_transfer n input (from, to) = do
    insert_transaction (transfer_transaction server input.transfer from)
    insert_intent (intent_row server input.transfer from to)
    update_balance from.id (sub64 from.balance_minor input.transfer.intent.amount_minor)
        (server.stamp input.transfer.created_at)
    update_balance to.id (add64 to.balance_minor input.transfer.intent.amount_minor)
        (server.stamp input.transfer.created_at)
    insert_postings (first_posting server n input from) (second_posting server n input to)
    insert_audit n input.audit
    insert_risk input.risk input.transfer
    pure (record { transfer = input.transfer; replayed = false })

  unfoldable pub answer :
      Numbers → ApplyTransferInput → Option Transfer → Exec Tables TransferResult
  answer n input (some existing) = lift (check_intent server existing input.transfer)
  answer n input none = do
    accounts ← asks (find_accounts server input.transfer)
    record_transfer n input accounts

  unfoldable pub apply_transfer_tx : Numbers → ApplyTransferInput → Exec Tables TransferResult
  apply_transfer_tx n input = do
    existing ← asks (find_idempotent_transfer server input.transfer)
    answer n input existing
