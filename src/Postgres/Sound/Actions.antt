-- ===== src/Postgres/Sound/Actions.antt =====
-- Any order of the committed transactions of any clients, beside any change of the outbox.
use secure_ledger.Prelude.{◌≡◌, refl, Result, Done, ok, err, List, [], ◌∷◌, All}
use secure_ledger.Prelude.Int64.{IsInt64}
use secure_ledger.Prelude.Map.{Map}
use secure_ledger.Prelude.{String}
use secure_ledger.Store.{CreateAccountInput, ApplyTransferInput}
use secure_ledger.Postgres.{
  Server, Numbers, Tables, RiskRow, migrated, close, validate_create_account, validate_transfer,
  create_account_tx, apply_transfer_tx,
}
use secure_ledger.Postgres.Sound.{IsSound}
use secure_ledger.Postgres.Sound.Accounts.{migrated-IsSound, logs-IsSound}
use secure_ledger.Postgres.Sound.Kept.{create_account_tx-IsSound, apply_transfer_tx-IsSound}

pub data Action : Type 0 where
  creates : Numbers → CreateAccountInput → Action
  transfers : Numbers → ApplyTransferInput → Action
  relays : (Map String RiskRow → Map String RiskRow) → Action

-- A transaction behind its validation, as it leaves the tables.
abbrev pub validated : {A : Type 0} → Done → Tables → Result A × Tables → Tables
validated (err e) t m = t
validated (ok _) t m = (close t m).1

abbrev pub act : Server → Action → Tables → Tables
act server (creates n input) t =
    validated (validate_create_account input) t (create_account_tx server n input t)
act server (transfers n input) t =
    validated (validate_transfer input) t (apply_transfer_tx server n input t)
act server (relays change) t = record t { risks = change t.risks }

abbrev pub acts : Server → List Action → Tables → Tables
acts server [] t = t
acts server (a ∷ as') t = acts server as' (act server a t)

-- The amounts of an action are int64 values.
abbrev pub IsTyped : Action → Type 0
IsTyped (creates n input) = IsInt64 input.account.balance_minor
IsTyped (transfers n input) = Unit {0}
IsTyped (relays change) = Unit {0}

validated-IsSound :
    {A : Type 0} (server : Server) (d : Done) (t : Tables) (m : Result A × Tables)
    → IsSound server t
    → ((r : A) (t' : Tables) → d ≡ ok tt → m ≡ (ok r, t') → IsSound server t')
    → IsSound server (validated d t m)
validated-IsSound server (err e) t m sound f = sound
validated-IsSound server (ok _) t (ok r, t') sound f = f r t' refl refl
validated-IsSound server (ok _) t (err e, t') sound f = sound

pub act-IsSound :
    (server : Server) (a : Action) (t : Tables)
    → IsTyped a
    → IsSound server t
    → IsSound server (act server a t)
act-IsSound server (creates n input) t typed sound =
    validated-IsSound server (validate_create_account input) t (create_account_tx server n input t)
      sound (λ _ t' v h. create_account_tx-IsSound server n input t t' sound v typed h)
act-IsSound server (transfers n input) t typed sound =
    validated-IsSound server (validate_transfer input) t (apply_transfer_tx server n input t) sound
      (λ r t' v h. apply_transfer_tx-IsSound server n t t' sound input r v h)
act-IsSound server (relays change) t typed sound =
    logs-IsSound server t.audits (change t.risks) t sound

pub acts-IsSound :
    (server : Server) (as' : List Action) (t : Tables)
    → All IsTyped as'
    → IsSound server t
    → IsSound server (acts server as' t)
acts-IsSound server [] t typed sound = sound
acts-IsSound server (a ∷ as') t typed sound =
    acts-IsSound server as' (act server a t) typed.1 (act-IsSound server a t typed.0 sound)

-- Whatever transactions commit on a migrated database, and in whatever order, with amounts that are
-- int64 values, the tables end sound: no customer account is overdrawn, every balance is the sum of
-- the account's postings, and the postings of every transaction are as many as it expects and cancel out.
pub acts-migrated-IsSound :
    (server : Server) (as' : List Action)
    → All IsTyped as'
    → IsSound server (acts server as' migrated)
acts-migrated-IsSound server as' typed =
    acts-IsSound server as' migrated typed (migrated-IsSound server)
