-- ===== src/Memory/Sound/Run.antt =====
-- The invariant holds in every state that the store's methods reach, in any order of calls.
use secure_ledger.Prelude.{◌≡◌, refl, ap, subst, sym, List, [], ◌∷◌, All, Context}
use secure_ledger.Prelude.Int64.{IsInt64, wrap64}
use secure_ledger.Prelude.Map.{lookup}
use secure_ledger.Store.{CreateAccountInput, ApplyTransferInput}
use secure_ledger.Memory.{
  Store, new, create_account, apply_transfer, Call, creates, transfers, step, run,
}
use secure_ledger.Memory.Cases.{
  TransferCase, refused, replayed, accepted, apply_transfer-cases, CreateCase, rejected, empty,
  funded, create_account-cases,
}
use secure_ledger.Memory.Sound.{IsSound}
use secure_ledger.Memory.Sound.Applied.{accepted_state-IsSound}
use secure_ledger.Memory.Sound.Created.{empty_state-IsSound, opened_state-IsSound}

-- A new store is sound.
pub new-IsSound : IsSound new
unfolding lookup wrap64
new-IsSound = record {
  keyed = λ id a e. cc;
  in_range = λ id a e. cc;
  solvent = λ id a e n. cc;
  reconciled = λ id. refl;
  double_entry = tt;
  numbered = tt;
  counted = refl;
  remembered = λ k t e. cc;
}

after-IsSound :
    {A B : Type 0} (P : B → Type 0) (m : A × B) {a : A} {b : B} → m ≡ (a, b) → P b → P m.1
after-IsSound P m e h = subst P (sym (ap (λ x. x.1) e)) h

-- A transfer, whatever its outcome, keeps the store sound.
pub apply_transfer-IsSound :
    (ctx : Context) (input : ApplyTransferInput) (s : Store)
    → IsSound s
    → IsSound (apply_transfer ctx input s).1
apply_transfer-IsSound ctx input s h = go (apply_transfer-cases ctx input s)
  where
    go : TransferCase ctx input s → IsSound (apply_transfer ctx input s).1
    go (refused e eq) = after-IsSound IsSound _ eq h
    go (replayed t known same eq) = after-IsSound IsSound _ eq h
    go (accepted p a eq) = after-IsSound IsSound _ eq (accepted_state-IsSound input s p h a)

-- An account creation, whatever its outcome, keeps the store sound.
pub create_account-IsSound :
    (ctx : Context) (input : CreateAccountInput) (s : Store)
    → IsSound s
    → IsInt64 input.account.balance_minor
    → IsSound (create_account ctx input s).1
create_account-IsSound ctx input s h typed = go (create_account-cases ctx input s)
  where
    go : CreateCase ctx input s → IsSound (create_account ctx input s).1
    go (rejected e eq) = after-IsSound IsSound _ eq h
    go (empty valid zero eq) =
        after-IsSound IsSound _ eq (empty_state-IsSound input s h typed valid zero)
    go (funded a valid positive o eq) =
        after-IsSound IsSound _ eq (opened_state-IsSound input s h typed valid positive a o)

-- The amounts of a call are int64 values.
abbrev pub IsTyped : Call → Type 0
IsTyped (creates ctx input) = IsInt64 input.account.balance_minor
IsTyped (transfers ctx input) = Unit {0}

pub step-IsSound : (c : Call) (s : Store) → IsTyped c → IsSound s → IsSound (step c s)
unfolding step
step-IsSound (creates ctx input) s t h = create_account-IsSound ctx input s h t
step-IsSound (transfers ctx input) s t h = apply_transfer-IsSound ctx input s h

pub run-IsSound : (cs : List Call) (s : Store) → All IsTyped cs → IsSound s → IsSound (run cs s)
unfolding run
run-IsSound [] s t h = h
run-IsSound (c ∷ cs) s t h = run-IsSound cs (step c s) t.1 (step-IsSound c s t.0 h)

-- Whatever calls the clients of a new store make, and in whatever order they reach its lock, with
-- amounts that are int64 values, the store ends sound: no customer account is overdrawn, every
-- balance is the sum of the account's postings, and the journal is a numbered list of entries that
-- each sum to zero.
pub run-new-IsSound : (cs : List Call) → All IsTyped cs → IsSound (run cs new)
run-new-IsSound cs t = run-IsSound cs new t new-IsSound
