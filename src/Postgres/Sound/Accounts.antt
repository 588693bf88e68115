-- ===== src/Postgres/Sound/Accounts.antt =====
-- Rows that move no money keep the tables sound: a new account that holds nothing, an audit record, a
-- row of the outbox.
use secure_ledger.Prelude.{
  String, ◌≡◌, refl, sym, ap, ◌∙◌, false, some, List, Bool-cases, inl, inr, arith, eq_iff, ◌==◌,
  string_Eq, if◌then◌else◌, subst,
}
use secure_ledger.Prelude.Int.{pos}
use secure_ledger.Prelude.Int64.{wrap64}
use secure_ledger.Prelude.Map.{lookup, insert, contains, lookup-insert, insert-Distinct}
use secure_ledger.Postgres.{
  Server, Tables, AccountRow, RiskRow, migrated, add_account, add_account_if_new,
}
use secure_ledger.Postgres.Sound.{IsSound, balance_of}
use secure_ledger.Prelude.Map.{Map}
use secure_ledger.Postgres.{AuditRow}

module _ (server : Server) where
  -- The tables after the migration are sound.
  pub migrated-IsSound : IsSound server migrated
  unfolding lookup contains
  migrated-IsSound = record {
    one_account = tt;
    one_transaction = tt;
    keyed = λ id r e. cc;
    transactions_keyed = λ id r e. cc;
    in_range = λ id r e. cc;
    solvent = λ id r e n. cc;
    reconciled = λ id. refl;
    balanced = λ id r e. cc;
    unposted = λ id e. refl;
    unintended = λ id e. refl;
    fingerprints = λ id key r i e f. cc;
  }

  -- The audit log and the outbox are in no clause of the invariant.
  pub logs-IsSound :
      (audits : List AuditRow) (risks : Map String RiskRow) (t : Tables)
      → IsSound server t
      → IsSound server (record t { audits = audits; risks = risks })
  logs-IsSound audits risks t h = record {
    one_account = h.one_account;
    one_transaction = h.one_transaction;
    keyed = h.keyed;
    transactions_keyed = h.transactions_keyed;
    in_range = h.in_range;
    solvent = h.solvent;
    reconciled = h.reconciled;
    balanced = h.balanced;
    unposted = h.unposted;
    unintended = h.unintended;
    fingerprints = h.fingerprints;
  }

  module _ (r : AccountRow) (t : Tables) (sound : IsSound server t)
      (fresh : contains r.account.id t.accounts ≡ false)
      (nothing : r.account.balance_minor ≡ pos 0) where
    found :
        (id : String)
        → lookup id (insert r.account.id r t.accounts)
          ≡ (if id == r.account.id then some r else lookup id t.accounts)
    found id = lookup-insert id r.account.id r t.accounts

    -- An account that is not there holds nothing.
    held :
        (id : String) → balance_of id (insert r.account.id r t.accounts) ≡ balance_of id t.accounts
    unfolding contains
    held id = ground (arith, found id, eq_iff id r.account.id, fresh, nothing)

    pub add_account-IsSound : IsSound server (add_account r t)
    unfolding wrap64
    add_account-IsSound = record {
      one_account = insert-Distinct r.account.id r t.accounts sound.one_account;
      one_transaction = sound.one_transaction;
      keyed = λ id x e. ground (arith, found id, eq_iff id r.account.id, sound.keyed id x);
      transactions_keyed = sound.transactions_keyed;
      in_range = λ id x e. ground (arith, found id, nothing, sound.in_range id x);
      solvent = λ id x e n. ground (arith, found id, nothing, sound.solvent id x);
      reconciled = λ id. held id ∙ sound.reconciled id;
      balanced = sound.balanced;
      unposted = sound.unposted;
      unintended = sound.unintended;
      fingerprints = sound.fingerprints;
    }

  pub add_account_if_new-IsSound :
      (r : AccountRow) (t : Tables)
      → IsSound server t
      → r.account.balance_minor ≡ pos 0
      → IsSound server (add_account_if_new r t)
  add_account_if_new-IsSound r t sound nothing =
      elim (Bool-cases (contains r.account.id t.accounts)) [
        | inl known ↦
            subst (IsSound server) (ap (λ b. if b then t else add_account r t) (sym known)) sound
        | inr fresh ↦
            subst (IsSound server) (ap (λ b. if b then t else add_account r t) (sym fresh))
              (add_account-IsSound r t sound fresh nothing)
      ]
