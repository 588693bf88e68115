-- ===== src/Memory/Refines/Ledger.antt =====
-- The in-memory store keeps to the contract of a repository.
use secure_ledger.Prelude.{
  ◌≡◌, refl, sym, ap, ◌∙◌, subst, true, false, some, Option-cases, inl, inr, List, [], All, Context,
  Result, Error, ok, err, string_Eq,
}
use secure_ledger.Prelude.Int64.{IsInt64}
use secure_ledger.Prelude.Map.{lookup}
use secure_ledger.Domain.{Transfer}
use secure_ledger.Domain.Records.{intent_equal_iff}
use secure_ledger.Store.{CreateAccountInput, ApplyTransferInput, TransferResult}
use secure_ledger.Contract.{Receipt, receipt_of, Answered, newly, again, Opened, IsLedger}
use secure_ledger.Memory.{
  Store, Scope, scope_Eq, apply_transfer, create_account, repository, Call, run,
}
use secure_ledger.Memory.Cases.{
  TransferCase, refused, replayed, accepted, apply_transfer-cases, CreateCase, rejected, empty,
  funded, create_account-cases,
}
use secure_ledger.Memory.Facts.{get_account-same, get_account-IsCustomer}
use secure_ledger.Memory.Idempotency.{run-Remembers}
use secure_ledger.Memory.Sound.{IsSound}
use secure_ledger.Memory.Sound.Created
use secure_ledger.Memory.Sound.Run.{IsTyped, run-IsSound, apply_transfer-IsSound}
use secure_ledger.Memory.Refines.{view, view_account, view_transfer}
use secure_ledger.Memory.Refines.Paid.{accepted-pay, accepted-IsPayable}
use secure_ledger.Memory.Refines.Opening.{empty-open, opened-open}

-- What others may do to a store: calls that write.
abbrev pub Between : Store → Store → Type 0
Between s s' = (cs : List Call) × All IsTyped cs × (s' ≡ run cs s)

-- A method of the store is one step.
abbrev pub AtOnce : Context → ApplyTransferInput → Store → Store → Type 0
AtOnce ctx input s s' = s' ≡ s

same_reply : {m : Result TransferResult} {a b : TransferResult} → m ≡ ok a → m ≡ ok b → a ≡ b
same_reply ea eb = cc

-- On a sound store, a granted transfer pays in the ledger that the store holds, which allowed it, or is reported
-- as a replay of a payment with the same intent that stands in the ledger under the actor and the key, and
-- changes nothing of the ledger.
pub apply_transfer-Answered :
    (ctx : Context) (input : ApplyTransferInput) (s : Store) (r : TransferResult)
    → IsSound s
    → (apply_transfer ctx input s).0 ≡ ok r
    → Answered input.transfer r (view s) (view (apply_transfer ctx input s).1)
apply_transfer-Answered ctx input s r sound granted = go (apply_transfer-cases ctx input s)
  where
    go :
        TransferCase ctx input s
        → Answered input.transfer r (view s) (view (apply_transfer ctx input s).1)
    go (refused e eq) = cc (granted, ap (λ x. x.0) eq)
    go (replayed t known same eq) =
        let answer : r ≡ record { transfer = t; replayed = true } =
          same_reply granted (ap (λ x. x.0) eq) in
        let its : r.transfer ≡ t = ap (λ (x : TransferResult). x.transfer) answer in
        again (ap (λ (x : TransferResult). x.replayed) answer)
          (ap view_transfer known ∙ ap (λ u. some (receipt_of u)) (sym its))
          (ap (λ (u : Transfer). u.intent) its
            ∙ (intent_equal_iff t.intent input.transfer.intent).0 same)
          (ap (λ x. view x.1) eq)
    go (accepted p a eq) =
        let answer : r ≡ record { transfer = input.transfer; replayed = false } =
          same_reply granted (ap (λ x. x.0) eq) in
        newly (ap (λ (x : TransferResult). x.replayed) answer)
          (ap (λ (x : TransferResult). x.transfer) answer) (accepted-IsPayable input s p sound a)
          (ap (λ x. view x.1) eq ∙ accepted-pay input s p sound a)

-- An error has no effect.
transfer-err :
    (ctx : Context) (input : ApplyTransferInput) (s : Store) (e : Error)
    → (apply_transfer ctx input s).0 ≡ err e
    → view (apply_transfer ctx input s).1 ≡ view s
transfer-err ctx input s e failed = go (apply_transfer-cases ctx input s)
  where
    go : TransferCase ctx input s → view (apply_transfer ctx input s).1 ≡ view s
    go (refused c eq) = ap (λ x. view x.1) eq
    go (replayed t known same eq) = cc (failed, ap (λ x. x.0) eq)
    go (accepted p a eq) = cc (failed, ap (λ x. x.0) eq)

module _ (ctx : Context) (input : CreateAccountInput) (s : Store)
    (typed : IsInt64 input.account.balance_minor) (sound : IsSound s)
    (granted : (create_account ctx input s).0 ≡ ok tt) where
  -- On a sound store, a granted account creation, of a balance that is an int64 value, opens the account in the
  -- ledger that the store holds, where its id was unknown, and takes a positive balance from the system
  -- account of the currency; every other account and every payment stays as it was.
  pub create_account-Opened : Opened input.account (view s) (view (create_account ctx input s).1)
  create_account-Opened = go (create_account-cases ctx input s)
    where
      go :
          CreateCase ctx input s
          → Opened input.account (view s) (view (create_account ctx input s).1)
      go (rejected e eq) = cc (granted, ap (λ x. x.0) eq)
      go (empty valid zero eq) = record {
        unknown = ap view_account (Created.fresh input s sound typed valid).unknown;
        customer = (Created.fresh input s sound typed valid).no_system;
        nonneg = (Created.fresh input s sound typed valid).nonneg;
        after = ap (λ x. view x.1) eq ∙ empty-open input s sound typed valid zero;
      }
      go (funded a valid positive o eq) = record {
        unknown = ap view_account (Created.fresh input s sound typed valid).unknown;
        customer = (Created.fresh input s sound typed valid).no_system;
        nonneg = (Created.fresh input s sound typed valid).nonneg;
        after = ap (λ x. view x.1) eq ∙ opened-open input s sound typed valid positive a o;
      }

view_transfer-remembered :
    (s s' : Store) (k : Scope) (receipt : Receipt)
    → ((t : Transfer) → lookup k s.idempotency ≡ some t → lookup k s'.idempotency ≡ some t)
    → view_transfer (lookup k s.idempotency) ≡ some receipt
    → view_transfer (lookup k s'.idempotency) ≡ some receipt
view_transfer-remembered s s' k receipt keeps paid = elim (Option-cases (lookup k s.idempotency)) [
  | inl missing ↦ cc (paid, ap view_transfer missing)
  | inr (t, known) ↦ ap view_transfer (keeps t known) ∙ sym (ap view_transfer known) ∙ paid
]

-- The in-memory store is a ledger: on every sound store, a granted transfer or account creation is the
-- abstract one on the view of the store, a transfer that fails changes nothing of it, a
-- read finds what the view holds and changes nothing, and no
-- sequence of writes by others forgets a payment.
pub repository-IsLedger : IsLedger repository view IsSound Between AtOnce AtOnce
unfolding run
repository-IsLedger = record {
  same = get_account-same;
  found = λ ctx id s a h.
      let customer = get_account-IsCustomer ctx id s a h in
      (ap view_account customer.stored, customer.no_system);
  transfers =
      λ ctx input s r sound granted. (s, refl, apply_transfer-Answered ctx input s r sound granted);
  fails = λ ctx input s e sound failed. (s, inl refl, inl (transfer-err ctx input s e failed));
  creates = λ ctx input s typed sound granted.
      (s, ([], tt, refl), create_account-Opened ctx input s typed sound granted);
  stays = apply_transfer-IsSound;
  others = λ ctx input s s' here. ([], tt, here);
  goes_on = λ s s' sound moved. subst IsSound (sym moved.2) (run-IsSound moved.0 s moved.1 sound);
  remembers = λ s s' actor key receipt sound moved paid.
      view_transfer-remembered s s' (record { actor_id = actor; key = key }) receipt
        (λ t known.
          subst (λ u. lookup (record { actor_id = actor; key = key }) u.idempotency ≡ some t)
            (sym moved.2)
            (run-Remembers (record { actor_id = actor; key = key }) t moved.0 s known))
        paid;
}
