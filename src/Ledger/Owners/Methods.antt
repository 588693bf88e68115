-- ===== src/Ledger/Owners/Methods.antt =====
-- What one method does to the account of a customer who did not ask for it.
use secure_ledger.Prelude.{
  String, ◌≡◌, ◌≢◌, refl, sym, ap, ◌∙◌, subst, Bool, ◌&&◌, false, Option, none, some, inl, inr,
  arith, eq_iff, ◌==◌, string_Eq, Bool-cases, Result-cases, Context, ok,
}
use secure_ledger.Prelude.Int.{ℤ, pos, ◌≤ℤ◌, ltb_ℤ, ◌+ℤ◌, +ℤ_parts}
use secure_ledger.Prelude.Int64.{IsInt64}
use secure_ledger.Prelude.Map.{lookup}
use secure_ledger.Prelude.Text.{trim_space}
use secure_ledger.Domain.{Principal, Account, RiskEvent, role_customer, Transfer}
use secure_ledger.Store.{CreateAccountInput, TransferResult}
use secure_ledger.Contract.{View, Holding, holding_of, Answered, newly, again}
use secure_ledger.Memory
use secure_ledger.Memory.{Store, system_account_id}
use secure_ledger.Memory.Cases.{CreateCase, rejected, empty, funded, create_account-cases}
use secure_ledger.Memory.Facts.{
  get_account-IsCustomer, IsSystemAccount, system_account-IsSystemAccount,
}
use secure_ledger.Memory.Sound.{IsSound}
use secure_ledger.Memory.Sound.Created
use secure_ledger.Memory.Refines.{view, view_account}
use secure_ledger.Memory.Refines.Ledger.{apply_transfer-Answered, create_account-Opened}
use secure_ledger.App.{Config, Surroundings, TransferCommand, transfer}
use secure_ledger.App.Access.{transfer-IsAuthorised}
use secure_ledger.App.Applied.{transfer-Applied}
use secure_ledger.App.Clean.{transfer-IsClean}
use secure_ledger.Ledger.{memory_service}
use secure_ledger.Ledger.Answers.{repository-IsAtomicRepository}

-- A customer account of the owner with a balance of at least `least`.
pub record IsKept (owner : String) (least : ℤ) (o : Option Holding) : Type 0 where
  pub holding : Holding
  pub known : o ≡ some holding
  pub its_owner : holding.owner_id ≡ owner
  pub customer : holding.system ≡ false
  pub at_least : least ≤ℤ holding.balance_minor

abbrev pub owner_of : Option Holding → String
owner_of none = ""
owner_of (some h) = h.owner_id

module _ (owner id : String) (least : ℤ) where
  abbrev pub Kept : Store → Type 0
  Kept s = IsKept owner least ((view s).accounts id)

  -- A payment from another account.
  paid-Kept :
      (t : Transfer) (r : TransferResult) (v v' : View)
      → t.intent.from_account_id ≢ id
      → Answered t r v v'
      → IsKept owner least (v.accounts id)
      → IsKept owner least (v'.accounts id)
  paid-Kept t r v v' other (again y stored intent after) kept =
      subst (λ (w : View). IsKept owner least (w.accounts id)) (sym after) kept
  paid-Kept t r v v' other (newly n same payable after) kept =
      subst (λ (w : View). IsKept owner least (w.accounts id)) (sym after)
        (elim (Bool-cases (id == t.intent.to_account_id)) [
          | inl to ↦
              rw (to, kept.known)
                (record {
                  holding = record kept.holding {
                    balance_minor = kept.holding.balance_minor +ℤ t.intent.amount_minor;
                  };
                  known = refl;
                  its_owner = kept.its_owner;
                  customer = kept.customer;
                  at_least = ground (
                    arith,
                    +ℤ_parts kept.holding.balance_minor t.intent.amount_minor,
                    kept.at_least,
                    payable.positive,
                  );
                })
          | inr not_to ↦
              let not_from : (id == t.intent.from_account_id) ≡ false =
                ground (arith, eq_iff id t.intent.from_account_id) in
              rw (not_to, not_from) kept
        ])

  -- The opening of an account under a new id.
  other_id :
      (a : Account) (s : Store) → (view s).accounts a.id ≡ none → Kept s → (id == a.id) ≡ false
  other_id a s unknown kept = elim (Bool-cases (id == a.id)) [
    | inr other ↦ other
    | inl same ↦
        let here : (view s).accounts id ≡ none =
          subst (λ (j : String). (view s).accounts j ≡ none) (sym ((eq_iff id a.id).0 same))
            unknown in
        cc (kept.known, here)
  ]

  no_system :
      (account a : Account) (s : Store)
      → IsSystemAccount account s a
      → Kept s
      → (id == system_account_id account.currency) ≡ false
  no_system account a s system kept = elim (Bool-cases (id == system_account_id account.currency)) [
    | inr other ↦ other
    | inl same ↦
        let here : view_account (lookup (system_account_id account.currency) s.accounts)
            ≡ some kept.holding =
          subst (λ (j : String). (view s).accounts j ≡ some kept.holding)
            ((eq_iff id (system_account_id account.currency)).0 same) kept.known in
        elim system.stored_or_new [
          | inl stored ↦ ground (arith, here, stored, system.system, kept.customer)
          | inr (missing, fresh) ↦ cc (here, ap view_account missing)
        ]
  ]

  pub opened-Kept :
      (ctx : Context) (input : CreateAccountInput) (s : Store)
      → IsInt64 input.account.balance_minor
      → IsSound s
      → Kept s
      → Kept (Memory.create_account ctx input s).1
  opened-Kept ctx input s typed sound kept = go (create_account-cases ctx input s)
    where
      opened :
          (Memory.create_account ctx input s).0 ≡ ok tt
          → (id == system_account_id input.account.currency
              && ltb_ℤ (pos 0) input.account.balance_minor)
            ≡ false
          → Kept (Memory.create_account ctx input s).1
      opened granted not_system =
          let o = create_account-Opened ctx input s typed sound granted in
          subst (λ (w : View). IsKept owner least (w.accounts id)) (sym o.after)
            (rw (other_id input.account s o.unknown kept, not_system) kept)

      go : CreateCase ctx input s → Kept (Memory.create_account ctx input s).1
      go (rejected e eq) = subst Kept (sym (ap (λ x. x.1) eq)) kept
      go (empty valid zero eq) = opened (ap (λ x. x.0) eq) (ground arith)
      go (funded a valid positive o eq) =
          let system =
            system_account-IsSystemAccount input.account s a typed
              (Created.fresh input s sound typed valid).nonneg o.system in
          opened (ap (λ x. x.0) eq) (ground (arith, no_system input.account a s system kept))

  -- A transfer that another customer asks for.
  pub transfer-Kept :
      {N : Type 0} (notifier : Option (RiskEvent → N → Bool × N)) (cfg : Config) (ctx : Context)
      (env : Surroundings) (actor : Principal) (cmd : TransferCommand) (w : Store × N)
      → actor.role ≡ role_customer
      → actor.id ≢ owner
      → IsSound w.0
      → Kept w.0
      → Kept (transfer (memory_service notifier cfg) ctx env actor cmd w).1.0
  transfer-Kept {N} notifier cfg ctx env actor cmd w customer foreign sound kept =
      elim (Result-cases (transfer (memory_service notifier cfg) ctx env actor cmd w).0) [
        | inl (e, failed) ↦
            subst Kept
              (sym (
                (transfer-IsClean (memory_service notifier cfg) repository-IsAtomicRepository ctx
                    env actor cmd).at
                  w e failed))
              kept
        | inr (r, granted) ↦ answered r granted
      ]
    where
      from_other :
          (r : TransferResult)
          → (transfer (memory_service notifier cfg) ctx env actor cmd w).0 ≡ ok r
          → trim_space cmd.from_account_id ≢ id
      from_other r granted same =
          let allowed =
            transfer-IsAuthorised (memory_service notifier cfg) ctx env actor cmd w r granted in
          let stored =
            (get_account-IsCustomer ctx (trim_space cmd.from_account_id) w.0 allowed.from
              allowed.read).stored in
          let here : (view w.0).accounts id ≡ some (holding_of allowed.from) =
            subst (λ (j : String). (view w.0).accounts j ≡ some (holding_of allowed.from)) same
              (ap view_account stored) in
          foreign
            (sym (allowed.owned customer) ∙ ap owner_of (sym here ∙ kept.known) ∙ kept.its_owner)

      answered :
          (r : TransferResult)
          → (transfer (memory_service notifier cfg) ctx env actor cmd w).0 ≡ ok r
          → Kept (transfer (memory_service notifier cfg) ctx env actor cmd w).1.0
      answered r granted =
          let a =
            transfer-Applied (memory_service notifier cfg) repository-IsAtomicRepository.get_account
              ctx env actor cmd w r granted in
          subst Kept (sym a.after) (
            paid-Kept a.input.transfer r _ _
              (λ same. from_other r granted (sym a.asked.from ∙ same))
              (apply_transfer-Answered ctx a.input w.0 r sound a.granted) kept)
