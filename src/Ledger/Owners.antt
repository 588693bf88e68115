-- ===== src/Ledger/Owners.antt =====
-- What the requests of other customers may do to an account behind the service.
pub mod Methods
use secure_ledger.Prelude.{
  String, ◌≡◌, ◌≢◌, refl, sym, ap, ◌∙◌, subst, Bool, ◌&&◌, false, Option, none, some, inl, inr,
  List, [], ◌∷◌, All, arith, eq_iff, ◌==◌, string_Eq, Bool-cases, Option-cases, Result-cases,
  Context, ok,
}
use secure_ledger.Prelude.Int.{ℤ, pos, ◌≤ℤ◌, ltb_ℤ, ◌+ℤ◌, +ℤ_parts}
use secure_ledger.Prelude.Int64.{IsInt64}
use secure_ledger.Prelude.Map.{lookup}
use secure_ledger.Prelude.Text.{trim_space}
use secure_ledger.Domain.{Principal, Account, RiskEvent, role_customer, Transfer}
use secure_ledger.Store.{CreateAccountInput, TransferResult}
use secure_ledger.Contract.{View, Holding, holding_of, Answered, newly, again}
use secure_ledger.Memory
use secure_ledger.Memory.{Store, system_account_id}
use secure_ledger.Memory.Cases.{CreateCase, rejected, empty, funded, create_account-cases}
use secure_ledger.Memory.Facts.{
  get_account-IsCustomer, IsSystemAccount, system_account-IsSystemAccount,
}
use secure_ledger.Memory.Sound.{IsSound}
use secure_ledger.Memory.Sound.Created
use secure_ledger.Memory.Sound.Run.{create_account-IsSound}
use secure_ledger.Memory.Refines.{view, view_account}
use secure_ledger.Memory.Refines.Ledger.{apply_transfer-Answered, create_account-Opened}
use secure_ledger.App.{Config, Surroundings, TransferCommand, transfer}
use secure_ledger.App.Access.{transfer-IsAuthorised}
use secure_ledger.App.Applied.{transfer-Applied}
use secure_ledger.App.Clean.{transfer-IsClean}
use secure_ledger.App.Keeps.{create_account-Keeps}
use secure_ledger.Ledger.{
  Request, opens, pays, IsTyped, memory_service, handle, serve, handle-IsSound,
}
use secure_ledger.Ledger.Answers.{repository-IsAtomicRepository}
use secure_ledger.Ledger.Owners.Methods.{IsKept, owner_of, Kept, opened-Kept, transfer-Kept}

-- A transfer is asked for by a customer who is not the owner; anybody may open accounts.
abbrev pub IsForeign : String → Request → Type 0
IsForeign owner (opens ctx env actor cmd) = Unit {0}
IsForeign owner (pays ctx env actor cmd) = (actor.role ≡ role_customer) × (actor.id ≢ owner)

module _ {N : Type 0} (notifier : Option (RiskEvent → N → Bool × N)) (cfg : Config)
    (owner id : String) (least : ℤ) where
  handle-Kept :
      (q : Request) (w : Store × N)
      → IsTyped q
      → IsForeign owner q
      → IsSound w.0
      → Kept owner id least w.0
      → Kept owner id least (handle notifier cfg q w).0
  unfolding handle
  handle-Kept (pays ctx env actor cmd) w typed foreign sound kept =
      transfer-Kept owner id least notifier cfg ctx env actor cmd w foreign.0 foreign.1 sound kept
  handle-Kept (opens ctx env actor cmd) w typed foreign sound kept =
      ((create_account-Keeps (memory_service notifier cfg) (λ s. IsSound s × Kept owner id least s)
          (λ ctx input int64. record {
            at = λ s h. (
              create_account-IsSound ctx input s h.0 int64,
              opened-Kept owner id least ctx input s int64 h.0 h.1,
            );
          })
          ctx env actor cmd typed).at
        w (sound, kept)).1

  serve-Kept :
      (qs : List Request) (w : Store × N)
      → All IsTyped qs
      → All (IsForeign owner) qs
      → IsSound w.0
      → Kept owner id least w.0
      → Kept owner id least (serve notifier cfg qs w).0
  unfolding serve
  serve-Kept [] w typed foreign sound kept = kept
  serve-Kept (q ∷ qs) w typed foreign sound kept =
      serve-Kept qs (handle notifier cfg q w) typed.1 foreign.1
        (handle-IsSound notifier cfg q w typed.0 sound)
        (handle-Kept q w typed.0 foreign.0 sound kept)

-- Whatever other customers ask of the service over a sound in-memory store, and whatever accounts anybody
-- opens, with opening balances that are int64 values, a customer account stays its owner's, and its balance
-- does not fall.
pub serve-keeps_balance :
    {N : Type 0} (notifier : Option (RiskEvent → N → Bool × N)) (cfg : Config) (qs : List Request)
    (w : Store × N) (id : String) (a : Account)
    → IsSound w.0
    → lookup id w.0.accounts ≡ some a
    → a.system ≡ false
    → All IsTyped qs
    → All (IsForeign a.owner_id) qs
    → (b : Account) × (lookup id (serve notifier cfg qs w).0.accounts ≡ some b)
      × (b.owner_id ≡ a.owner_id)
      × (b.system ≡ false)
      × (a.balance_minor ≤ℤ b.balance_minor)
serve-keeps_balance notifier cfg qs w id a sound stored customer typed foreign =
    let kept =
      serve-Kept notifier cfg a.owner_id id a.balance_minor qs w typed foreign sound (record {
        holding = holding_of a;
        known = ap view_account stored;
        its_owner = refl;
        customer = customer;
        at_least = omega arith;
      }) in
    elim (Option-cases (lookup id (serve notifier cfg qs w).0.accounts)) [
      | inl missing ↦ cc (kept.known, ap view_account missing)
      | inr (b, found) ↦
          let here : some (holding_of b) ≡ some kept.holding =
            sym (ap view_account found) ∙ kept.known in
          (
            b,
            found,
            ap owner_of here ∙ kept.its_owner,
            ground (arith, here, kept.customer),
            ground (arith, here, kept.at_least),
          )
    ]
