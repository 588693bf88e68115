-- ===== src/Memory/Effects.antt =====
-- What each method of the in-memory store does to the accounts, the journal and the trail.
pub mod Created
use secure_ledger.Prelude.{
  String, ◌≡◌, ◌≢◌, refl, sym, ap, ◌∙◌, subst, false, some, [], ◌∷◌, ◌++◌, arith, eq_iff, string_Eq,
  Error, ok, err, Context,
}
use secure_ledger.Prelude.Int.{pos, ◌+ℤ◌, ◌-ℤ◌, ◌≤ℤ◌}
use secure_ledger.Prelude.Map.{lookup}
use secure_ledger.Store.{CreateAccountInput, ApplyTransferInput, TransferResult}
use secure_ledger.Memory.{
  Store, Parties, transfer_postings, write_transfer, move_balances, clone_audit, append_risk,
  create_account, apply_transfer,
}
use secure_ledger.Memory.Cases.{
  TransferCase, refused, replayed, accepted, apply_transfer-cases, Accepted, accepted_state,
  CreateCase, rejected, empty, funded, create_account-cases,
}
use secure_ledger.Memory.Sound.{IsSound, balance_of}
use secure_ledger.Memory.Sound.Applied

-- A transfer that returns an error has written nothing.
pub apply_transfer-unchanged :
    (ctx : Context) (input : ApplyTransferInput) (s : Store) (e : Error)
    → (apply_transfer ctx input s).0 ≡ err e
    → (apply_transfer ctx input s).1 ≡ s
apply_transfer-unchanged ctx input s e h = go (apply_transfer-cases ctx input s)
  where
    go : TransferCase ctx input s → (apply_transfer ctx input s).1 ≡ s
    go (refused e' eq) = ap (λ x. x.1) eq
    go (replayed t known same eq) = ap (λ x. x.1) eq
    go (accepted p a eq) = cc (h, ap (λ x. x.0) eq)

-- An account creation that returns an error has written nothing.
pub create_account-unchanged :
    (ctx : Context) (input : CreateAccountInput) (s : Store) (e : Error)
    → (create_account ctx input s).0 ≡ err e
    → (create_account ctx input s).1 ≡ s
create_account-unchanged ctx input s e h = go (create_account-cases ctx input s)
  where
    go : CreateCase ctx input s → (create_account ctx input s).1 ≡ s
    go (rejected e' eq) = ap (λ x. x.1) eq
    go (empty valid zero eq) = cc (h, ap (λ x. x.0) eq)
    go (funded a valid positive o eq) = cc (h, ap (λ x. x.0) eq)

-- What one new transfer has done.
pub record Moved (input : ApplyTransferInput) (s s' : Store) : Type 0 where
  pub distinct : input.transfer.intent.from_account_id ≢ input.transfer.intent.to_account_id
  pub debited :
      balance_of input.transfer.intent.from_account_id s'.accounts
      ≡ balance_of input.transfer.intent.from_account_id s.accounts
        -ℤ input.transfer.intent.amount_minor
  pub credited :
      balance_of input.transfer.intent.to_account_id s'.accounts
      ≡ balance_of input.transfer.intent.to_account_id s.accounts
        +ℤ input.transfer.intent.amount_minor
  pub covered :
      input.transfer.intent.amount_minor
      ≤ℤ balance_of input.transfer.intent.from_account_id s.accounts
  pub positive : pos 1 ≤ℤ input.transfer.intent.amount_minor
  pub others :
      (id : String)
      → id ≢ input.transfer.intent.from_account_id
      → id ≢ input.transfer.intent.to_account_id
      → lookup id s'.accounts ≡ lookup id s.accounts
  pub posted_two :
      (p : Parties) × (lookup input.transfer.intent.from_account_id s.accounts ≡ some p.from)
      × (lookup input.transfer.intent.to_account_id s.accounts ≡ some p.to)
      × (s'.journal ≡ s.journal ++ transfer_postings input p s.sequence)
  pub audited : s'.audit ≡ s.audit ++ clone_audit input.audit ∷ []
  pub flagged : s'.risk ≡ append_risk input.risk s.risk

module _ (input : ApplyTransferInput) (s : Store) (p : Parties) (sound : IsSound s)
    (a : Accepted input s p) where
  abbrev from_id : String
  from_id = input.transfer.intent.from_account_id

  abbrev to_id : String
  to_id = input.transfer.intent.to_account_id

  at_from : lookup from_id s.accounts ≡ some p.from
  at_from = (Applied.parties input s p sound a).from.stored

  at_to : lookup to_id s.accounts ≡ some p.to
  at_to = (Applied.parties input s p sound a).to.stored

  distinct : from_id ≢ to_id
  distinct e =
      (Applied.parties input s p sound a).distinct
        (Applied.from_id input s p sound a ∙ e ∙ sym (Applied.to_id input s p sound a))

  debited :
      balance_of from_id (move_balances input.transfer.intent.amount_minor p s.accounts)
      ≡ balance_of from_id s.accounts -ℤ input.transfer.intent.amount_minor
  debited = ground (
    arith,
    Applied.lookup-moved input s p sound a from_id,
    eq_iff from_id p.to.id,
    eq_iff from_id p.from.id,
    Applied.from_id input s p sound a,
    Applied.to_id input s p sound a,
    Applied.from_exact input s p sound a,
    distinct,
    at_from,
  )

  credited :
      balance_of to_id (move_balances input.transfer.intent.amount_minor p s.accounts)
      ≡ balance_of to_id s.accounts +ℤ input.transfer.intent.amount_minor
  credited = ground (
    arith,
    Applied.lookup-moved input s p sound a to_id,
    eq_iff to_id p.to.id,
    Applied.to_id input s p sound a,
    Applied.to_exact input s p sound a,
    at_to,
  )

  others :
      (id : String)
      → id ≢ from_id
      → id ≢ to_id
      → lookup id (move_balances input.transfer.intent.amount_minor p s.accounts)
        ≡ lookup id s.accounts
  others id nf nt = ground (
    arith,
    Applied.lookup-moved input s p sound a id,
    eq_iff id p.to.id,
    eq_iff id p.from.id,
    Applied.from_id input s p sound a,
    Applied.to_id input s p sound a,
  )

  pub accepted_state-Moved : Moved input s (accepted_state input p s)
  unfolding write_transfer
  accepted_state-Moved = record {
    distinct = distinct;
    debited = debited;
    credited = credited;
    covered = ground (arith, at_from, Applied.covered input s p sound a);
    positive = (Applied.covered input s p sound a).positive;
    others = others;
    posted_two = (p, at_from, at_to, refl);
    audited = refl;
    flagged = refl;
  }

-- From a sound store, a transfer that is reported as new has moved exactly its amount from one
-- account to another, which covered it, has changed no third account, and has appended two postings,
-- its audit record and its risk event, if it has one.
pub apply_transfer-Moved :
    (ctx : Context) (input : ApplyTransferInput) (s : Store) (r : TransferResult)
    → IsSound s
    → (apply_transfer ctx input s).0 ≡ ok r
    → r.replayed ≡ false
    → Moved input s (apply_transfer ctx input s).1
apply_transfer-Moved ctx input s r sound h n = go (apply_transfer-cases ctx input s)
  where
    go : TransferCase ctx input s → Moved input s (apply_transfer ctx input s).1
    go (refused e eq) = cc (h, ap (λ x. x.0) eq)
    go (replayed t known same eq) = cc (h, n, ap (λ x. x.0) eq)
    go (accepted p a eq) =
        subst (Moved input s) (sym (ap (λ x. x.1) eq)) (accepted_state-Moved input s p sound a)
