-- ===== src/Contract.antt =====
-- What a repository of internal/store/store.go promises to the service: an abstract ledger, a function from
-- ids to accounts and one from actors and keys to payments, that forgets how a store holds them. What a
-- store's methods do to it is an equation between such functions.
pub mod Client
pub mod Service
use secure_ledger.Prelude.{
  String, ◌≡◌, ◌≢◌, Bool, true, false, ◌&&◌, Option, none, some, if◌then◌else◌, ◌==◌, string_Eq,
  Context, ok, err, Error, ◌⊎◌,
}
use secure_ledger.Prelude.Int.{ℤ, pos, ◌+ℤ◌, ◌-ℤ◌, ◌≤ℤ◌, ltb_ℤ}
use secure_ledger.Prelude.Int64.{IsInt64, min_int64, max_int64}
use secure_ledger.Domain.{Account, Transfer, TransferIntent}
use secure_ledger.Store.{Repository, CreateAccountInput, ApplyTransferInput, TransferResult}
use secure_ledger.Memory.{system_account_id}

-- An account without its times.
pub record Holding : Type 0 where
  pub owner_id : String
  pub currency : String
  pub balance_minor : ℤ
  pub system : Bool

-- A transfer without its key, its actor and its time.
pub record Receipt : Type 0 where
  pub id : String
  pub intent : TransferIntent
  pub currency : String

pub record View : Type 0 where
  pub accounts : String → Option Holding
  pub paid : (actor key : String) → Option Receipt

abbrev pub holding_of : Account → Holding
holding_of a = record {
  owner_id = a.owner_id;
  currency = a.currency;
  balance_minor = a.balance_minor;
  system = a.system;
}

abbrev pub receipt_of : Transfer → Receipt
receipt_of t = record { id = t.id; intent = t.intent; currency = t.currency }

-- The balance of an account; an unknown account holds nothing.
abbrev pub held : Option Holding → ℤ
held none = pos 0
held (some h) = h.balance_minor

abbrev pub set_held : ℤ → Option Holding → Option Holding
set_held balance none = none
set_held balance (some h) = some (record h { balance_minor = balance })

-- The ledger after a transfer.
abbrev pub pay_accounts : Transfer → (String → Option Holding) → String → Option Holding
pay_accounts t accounts id =
    if id == t.intent.to_account_id
    then set_held (held (accounts id) +ℤ t.intent.amount_minor) (accounts id)
    else if id == t.intent.from_account_id
    then set_held (held (accounts id) -ℤ t.intent.amount_minor) (accounts id)
    else accounts id

abbrev pub pay_receipts :
    Transfer → (String → String → Option Receipt) → String → String → Option Receipt
pay_receipts t paid actor key =
    if actor == t.actor_id && key == t.idempotency_key then some (receipt_of t) else paid actor key

abbrev pub pay : Transfer → View → View
pay t v = record { accounts = pay_accounts t v.accounts; paid = pay_receipts t v.paid }

-- The system account that an opening balance comes from.
abbrev pub equity : Account → Option Holding → Holding
equity a before = record {
  owner_id = "system";
  currency = a.currency;
  balance_minor = held before -ℤ a.balance_minor;
  system = true;
}

-- The ledger after the opening of an account.
abbrev pub open_accounts : Account → (String → Option Holding) → String → Option Holding
open_accounts a accounts id =
    if id == a.id
    then some (holding_of a)
    else if id == system_account_id a.currency && ltb_ℤ (pos 0) a.balance_minor
    then some (equity a (accounts id))
    else accounts id

abbrev pub open_account : Account → View → View
open_account a v = record { accounts = open_accounts a v.accounts; paid = v.paid }

-- A ledger that a new transfer may change.
pub record IsPayable (t : Transfer) (v : View) : Type 0 where
  pub from : Holding
  pub to : Holding
  pub from_known : v.accounts t.intent.from_account_id ≡ some from
  pub to_known : v.accounts t.intent.to_account_id ≡ some to
  pub distinct : t.intent.from_account_id ≢ t.intent.to_account_id
  pub from_customer : from.system ≡ false
  pub to_customer : to.system ≡ false
  pub from_currency : from.currency ≡ t.currency
  pub to_currency : to.currency ≡ t.currency
  pub positive : pos 1 ≤ℤ t.intent.amount_minor
  pub covered : t.intent.amount_minor ≤ℤ from.balance_minor
  pub room : (to.balance_minor +ℤ t.intent.amount_minor) ≤ℤ max_int64
  pub unpaid : v.paid t.actor_id t.idempotency_key ≡ none

-- What a granted transfer has done: it is new and paid, or it was paid before.
pub data Answered (t : Transfer) (r : TransferResult) (v v' : View) : Type 0 where
  newly : r.replayed ≡ false → r.transfer ≡ t → IsPayable t v → v' ≡ pay t v → Answered t r v v'
  again :
      r.replayed ≡ true
      → v.paid t.actor_id t.idempotency_key ≡ some (receipt_of r.transfer)
      → r.transfer.intent ≡ t.intent
      → v' ≡ v
      → Answered t r v v'

-- What a granted account creation has done.
pub record Opened (a : Account) (v v' : View) : Type 0 where
  pub unknown : v.accounts a.id ≡ none
  pub customer : a.system ≡ false
  pub nonneg : pos 0 ≤ℤ a.balance_minor
  pub after : v' ≡ open_account a v

-- A repository that keeps to the contract. `good` are its reachable states, `view` is the ledger in one, and
-- `between s s'` says that others may turn `s` into `s'`. `finds ctx input s s'` says that an attempt of the
-- transfer that is called in `s` finds `s'`, as others alone have left it, and `commits ctx input s s'` that
-- it is the attempt that is answered.
pub record IsLedger {S : Type 0} (repo : Repository S) (view : S → View) (good : S → Type 0)
    (between : S → S → Type 0) (finds commits : Context → ApplyTransferInput → S → S → Type 0)
    : Type 0 where
  pub same : (ctx : Context) (id : String) (s : S) → (repo.get_account ctx id s).1 ≡ s
  pub found :
      (ctx : Context) (id : String) (s : S) (a : Account)
      → (repo.get_account ctx id s).0 ≡ ok a
      → ((view s).accounts id ≡ some (holding_of a)) × (a.system ≡ false)
  pub transfers :
      (ctx : Context) (input : ApplyTransferInput) (s : S) (r : TransferResult)
      → good s
      → (repo.apply_transfer ctx input s).0 ≡ ok r
      → (seen : S) × commits ctx input s seen
        × Answered input.transfer r (view seen) (view (repo.apply_transfer ctx input s).1)
  -- A transfer that fails has not happened, or it has and the answer was lost. It may fail before any attempt.
  pub fails :
      (ctx : Context) (input : ApplyTransferInput) (s : S) (e : Error)
      → good s
      → (repo.apply_transfer ctx input s).0 ≡ err e
      → (seen : S) × ((seen ≡ s) ⊎ finds ctx input s seen)
        × ((view (repo.apply_transfer ctx input s).1 ≡ view seen)
            ⊎ ((r : TransferResult) × Answered input.transfer r
                  (view seen)
                  (view (repo.apply_transfer ctx input s).1)))
  pub creates :
      (ctx : Context) (input : CreateAccountInput) (s : S)
      → IsInt64 input.account.balance_minor
      → good s
      → (repo.create_account ctx input s).0 ≡ ok tt
      → (seen : S) × between s seen
        × Opened input.account (view seen) (view (repo.create_account ctx input s).1)
  -- Good states stay good, and payments are never forgotten.
  pub stays :
      (ctx : Context) (input : ApplyTransferInput) (s : S)
      → good s
      → good (repo.apply_transfer ctx input s).1
  pub others :
      (ctx : Context) (input : ApplyTransferInput) (s s' : S)
      → commits ctx input s s'
      → between s s'
  pub goes_on : (s s' : S) → good s → between s s' → good s'
  pub remembers :
      (s s' : S) (actor key : String) (receipt : Receipt)
      → good s
      → between s s'
      → (view s).paid actor key ≡ some receipt
      → (view s').paid actor key ≡ some receipt
