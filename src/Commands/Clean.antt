-- ===== src/Commands/Clean.antt =====
-- The reconciliation command over tables that only the adapter wrote.
use secure_ledger.Prelude.{◌≡◌, refl, none, List, [], ◌∷◌, All, ok, if◌then◌else◌}
use secure_ledger.Prelude.Exec.{lift, modify, ◌>>=◌}
use secure_ledger.Domain.{Time, is_zero}
use secure_ledger.Postgres.{Server, migrated}
use secure_ledger.Postgres.Reconcile.{reconcile, is_clean}
use secure_ledger.Postgres.Reconcile.Reached.{no_errors, clean_report, reconcile-acts-migrated}
use secure_ledger.Postgres.Sound.Actions.{Action, IsTyped, acts}
use secure_ledger.Commands.{print_reconciliation}

-- Whatever transactions have committed on a migrated database, in whatever order and with amounts that
-- are int64 values, the reconciliation command succeeds if the server and the output let it: what it
-- prints counts all accounts and has no unbalanced transaction and no difference of a balance.
pub print_reconciliation-acts-migrated :
    (server : Server) (as' : List Action) (now checked_at : Time)
    → All IsTyped as'
    → print_reconciliation
        (reconcile server no_errors now checked_at (acts server as' migrated))
        none
        []
      ≡ (
        ok tt,
        clean_report (if is_zero checked_at then now else checked_at) (acts server as' migrated)
            ∷ [],
      )
unfolding print_reconciliation is_clean lift modify ◌>>=◌
print_reconciliation-acts-migrated server as' now checked_at typed =
    rw (reconcile-acts-migrated server as' now checked_at typed) refl
