-- ===== src/Postgres/Reconcile/Reached.antt =====
-- The reconciliation of tables that only the adapter wrote.
use secure_ledger.Prelude.{◌≡◌, refl, sym, ap, ◌∙◌, none, List, [], length, All, ok, if◌then◌else◌}
use secure_ledger.Domain.{Time, is_zero}
use secure_ledger.Postgres.{Server, Tables, migrated, sort_by}
use secure_ledger.Postgres.Reconcile.{ReconciliationReport, Replies, reconcile, scan_differences}
use secure_ledger.Postgres.Reconcile.Report.{AreBooks, no_defects, no_difference}
use secure_ledger.Postgres.Sound.{IsSound, row_balance}
use secure_ledger.Postgres.Sound.Actions.{Action, IsTyped, acts, acts-migrated-IsSound}

-- No step of the server fails.
abbrev pub no_errors : Replies
no_errors = record { begin = none; accounts = none; journal = none; balances = none; commit = none }

-- The report on tables without a defect, checked at a time.
abbrev pub clean_report : Time → Tables → ReconciliationReport
clean_report at t = record {
  checked_at = at;
  accounts_checked = length t.accounts;
  unbalanced_transaction_count = 0;
  balance_differences = [];
}

module _ (server : Server) (t : Tables) (sound : IsSound server t) where
  sound-AreBooks : AreBooks t
  sound-AreBooks = record {
    balances = λ id r found. sym (ap row_balance found) ∙ sound.reconciled id;
    transactions = sound.balanced;
  }

  reconcile-clean :
      (now checked_at : Time)
      → reconcile server no_errors now checked_at t
        ≡ ok (clean_report (if is_zero checked_at then now else checked_at) t)
  unfolding reconcile sort_by scan_differences
  reconcile-clean now checked_at =
      rw
        (
          no_difference server no_errors now checked_at t (clean_report 0 t) sound.one_account
              sound.one_transaction sound.keyed sound-AreBooks,
          no_defects server no_errors now checked_at t (clean_report 0 t) sound.one_account
              sound.one_transaction sound.keyed sound-AreBooks,
        )
        refl

-- Whatever transactions have committed on a migrated database, in whatever order and with amounts that
-- are int64 values, a reconciliation that the server lets through counts all accounts and reports them
-- clean: no unbalanced transaction and no difference of a balance.
pub reconcile-acts-migrated :
    (server : Server) (as' : List Action) (now checked_at : Time)
    → All IsTyped as'
    → reconcile server no_errors now checked_at (acts server as' migrated)
      ≡ ok
          (clean_report (if is_zero checked_at then now else checked_at) (acts server as' migrated))
reconcile-acts-migrated server as' now checked_at typed =
    reconcile-clean server (acts server as' migrated) (acts-migrated-IsSound server as' typed) now
      checked_at
