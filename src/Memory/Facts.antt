-- ===== src/Memory/Facts.antt =====
-- What the checks of the in-memory store guarantee once they have passed.
use text.Mathlib.Text.{starts_with}
use text.Mathlib.TextLemmas
use text.Mathlib.TextPositions.{starts_with-append}
use secure_ledger.Prelude.{
  String, ◌≡◌, ◌≢◌, ap, sym, subst, ◌++ˢ◌, ◌⊎◌, true, false, none, some, Option-cases, inl, inr,
  >>=-eq-ok, ok, Result-cases, Context, check_context, arith, eq_iff, string_Eq,
}
use secure_ledger.Prelude.Int.{ℤ, pos, ◌+ℤ◌, ◌-ℤ◌, ◌≤ℤ◌, -ℤ_parts, +ℤ_parts}
use secure_ledger.Prelude.Int64.{IsInt64, max_int64, min_int64, sub64_lem, add64_lem}
use secure_ledger.Prelude.Map.{lookup, contains}
use secure_ledger.Domain.{Account, Transfer, validate_currency}
use secure_ledger.Store.{CreateAccountInput}
use secure_ledger.Memory.{
  Store, Parties, find_customer_account, find_parties, check_amount, check_account, system_account,
  get_account, system_account_id, fresh_system_account,
}

-- A customer account that is found is stored under the id that was asked for, and is no system account.
pub record IsCustomer (id : String) (s : Store) (a : Account) : Type 0 where
  pub stored : lookup id s.accounts ≡ some a
  pub no_system : a.system ≡ false

pub find_customer_account-IsCustomer :
    (id : String) (s : Store) (a : Account) → find_customer_account id s ≡ ok a → IsCustomer id s a
unfolding find_customer_account
find_customer_account-IsCustomer id s a h = elim (Option-cases (lookup id s.accounts)) [
  | inl missing ↦ ground arith
  | inr (b, found) ↦ ground arith
]

pub get_account-same : (ctx : Context) (id : String) (s : Store) → (get_account ctx id s).1 ≡ s
unfolding get_account
get_account-same ctx id s = elim (Result-cases (check_context ctx)) [
  | inl (e, dead) ↦ ground arith
  | inr (_, live) ↦ ground arith
]

-- What `GetAccount` of the store returns is a customer account under the id that was asked for.
pub get_account-IsCustomer :
    (ctx : Context) (id : String) (s : Store) (a : Account)
    → (get_account ctx id s).0 ≡ ok a
    → IsCustomer id s a
unfolding get_account
get_account-IsCustomer ctx id s a h = elim (Result-cases (check_context ctx)) [
  | inl (e, dead) ↦ ground arith
  | inr (_, live) ↦ find_customer_account-IsCustomer id s a (ground arith)
]

pub record AreParties (t : Transfer) (s : Store) (p : Parties) : Type 0 where
  pub from : IsCustomer t.intent.from_account_id s p.from
  pub to : IsCustomer t.intent.to_account_id s p.to
  pub distinct : p.from.id ≢ p.to.id
  pub one_currency : p.from.currency ≡ p.to.currency
  pub its_currency : p.from.currency ≡ t.currency

pub find_parties-AreParties :
    (t : Transfer) (s : Store) (p : Parties) → find_parties t s ≡ ok p → AreParties t s p
unfolding find_parties
find_parties-AreParties t s p h =
    let (a, found_a, h₁) = >>=-eq-ok (find_customer_account t.intent.from_account_id s) _ h in
    let (b, found_b, h₂) = >>=-eq-ok (find_customer_account t.intent.to_account_id s) _ h₁ in
    let from = find_customer_account-IsCustomer t.intent.from_account_id s a found_a in
    let to = find_customer_account-IsCustomer t.intent.to_account_id s b found_b in
    ground (
      arith,
      from.stored,
      from.no_system,
      to.stored,
      to.no_system,
      eq_iff a.id b.id,
      eq_iff a.currency b.currency,
      eq_iff a.currency t.currency,
    )

-- An amount that passes is positive, covered by the source, and leaves the destination an int64.
pub record IsCovered (amount : ℤ) (p : Parties) : Type 0 where
  pub positive : pos 1 ≤ℤ amount
  pub covered : amount ≤ℤ p.from.balance_minor
  pub room : p.to.balance_minor +ℤ amount ≤ℤ max_int64

pub check_amount-IsCovered :
    (amount : ℤ) (p : Parties)
    → IsInt64 p.from.balance_minor
    → check_amount amount p ≡ ok tt
    → IsCovered amount p
unfolding check_amount
check_amount-IsCovered amount p h e = ground (
  arith,
  sub64_lem max_int64 amount,
  -ℤ_parts max_int64 amount,
  +ℤ_parts p.to.balance_minor amount,
)

-- A passed check leaves an account that is new, not reserved, and opens at zero or more.
pub record IsFreshAccount (input : CreateAccountInput) (s : Store) : Type 0 where
  pub unknown : lookup input.account.id s.accounts ≡ none
  pub no_system : input.account.system ≡ false
  pub not_reserved : starts_with input.account.id "system:" ≡ false
  pub valid_currency : validate_currency input.account.currency ≡ ok tt
  pub nonneg : pos 0 ≤ℤ input.account.balance_minor
  pub new_audit : contains input.audit.id s.audits ≡ false

pub check_account-IsFreshAccount :
    (input : CreateAccountInput) (s : Store)
    → check_account input s ≡ ok tt
    → IsFreshAccount input s
unfolding check_account contains
check_account-IsFreshAccount input s h = ground arith

-- The system account of a currency: the stored one, or a new one at zero.
pub record IsSystemAccount (account : Account) (s : Store) (a : Account) : Type 0 where
  pub system : a.system ≡ true
  pub owner : a.owner_id ≡ "system"
  pub currency : a.currency ≡ account.currency
  pub room : min_int64 ≤ℤ a.balance_minor -ℤ account.balance_minor
  pub stored_or_new :
      (lookup (system_account_id account.currency) s.accounts ≡ some a)
      ⊎ ((lookup (system_account_id account.currency) s.accounts ≡ none)
          × (a ≡ fresh_system_account account))

pub system_account-IsSystemAccount :
    (account : Account) (s : Store) (a : Account)
    → IsInt64 account.balance_minor
    → pos 0 ≤ℤ account.balance_minor
    → system_account account s ≡ ok a
    → IsSystemAccount account s a
unfolding system_account
system_account-IsSystemAccount account s a i n h =
    elim (Option-cases (lookup (system_account_id account.currency) s.accounts)) [
      | inl missing ↦ ground (
        arith,
        add64_lem min_int64 account.balance_minor,
        +ℤ_parts min_int64 account.balance_minor,
        -ℤ_parts a.balance_minor account.balance_minor,
      )
      | inr (b, found) ↦ ground (
        arith,
        eq_iff b.owner_id "system",
        eq_iff b.currency account.currency,
        add64_lem min_int64 account.balance_minor,
        +ℤ_parts min_int64 account.balance_minor,
        -ℤ_parts a.balance_minor account.balance_minor,
      )
    ]

reserved : (currency : String) → starts_with (system_account_id currency) "system:" ≡ true
unfolding system_account_id
reserved currency =
    subst (λ s. starts_with s "system:" ≡ true)
      (sym (TextLemmas.append_assoc "system:" "equity:" currency))
      (starts_with-append "system:" ("equity:" ++ˢ currency))

-- A customer's id is never that of a system account.
pub system_account_id-ne :
    (id currency : String) → starts_with id "system:" ≡ false → id ≢ system_account_id currency
unfolding system_account_id
system_account_id-ne id currency h e = cc (reserved currency, ap (λ s. starts_with s "system:") e)
