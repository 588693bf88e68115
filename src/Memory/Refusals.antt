-- ===== src/Memory/Refusals.antt =====
-- Which requests the in-memory store grants, and which it refuses for lack of funds.
use secure_ledger.Prelude.{
  String, ◌≡◌, ◌≢◌, refl, sym, ap, subst, ◌∙◌, Bool-cases, inl, inr, if◌then◌else◌, true, false,
  none, arith, eq_iff, string_Eq, ok, err, insufficient_funds, Context,
}
use secure_ledger.Prelude.Int.{
  ℤ, pos, pos_part, neg_part, ◌+ℤ◌, ◌-ℤ◌, ◌≤ℤ◌, ltb_ℤ, +ℤ_parts, -ℤ_parts, int_laws,
}
use secure_ledger.Prelude.Int64.{IsInt64, max_int64, neg64, sub64_lem, neg64_lem}
use secure_ledger.Prelude.Map.{lookup}
use secure_ledger.Prelude.Text.{is_blank}
use secure_ledger.Domain.{Account, Transfer, validate_currency}
use secure_ledger.Domain.Balanced.{IsBalanced, validate_balanced_iff}
use secure_ledger.Store.{ApplyTransferInput, TransferResult}
use secure_ledger.Memory.{
  Store, Parties, scope_of, scope_Eq, find_customer_account, find_parties, check_amount,
  check_transfer_input, check_transfer_ids, transfer_postings, apply_new, apply_transfer,
}
use secure_ledger.Memory.Facts.{IsCustomer, AreParties}
use secure_ledger.Memory.Sound.{IsSound, balance_of}
use secure_ledger.Memory.Sound.Run.{apply_transfer-IsSound}
use secure_ledger.Memory.Effects.{apply_transfer-Moved}

IsCustomer-find :
    (id : String) (s : Store) (a : Account) → IsCustomer id s a → find_customer_account id s ≡ ok a
unfolding find_customer_account
IsCustomer-find id s a c = ground (arith, c.stored, c.no_system)

AreParties-find :
    (t : Transfer) (s : Store) (p : Parties) → AreParties t s p → find_parties t s ≡ ok p
unfolding find_parties
AreParties-find t s p c = ground (
  arith,
  IsCustomer-find t.intent.from_account_id s p.from c.from,
  IsCustomer-find t.intent.to_account_id s p.to c.to,
  eq_iff p.from.id p.to.id,
  eq_iff p.from.currency p.to.currency,
  eq_iff p.from.currency t.currency,
  c.distinct,
  c.one_currency,
  c.its_currency,
)

-- A well-formed new request between two customer accounts, whatever their balances.
pub record IsReady (input : ApplyTransferInput) (s : Store) (p : Parties) : Type 0 where
  pub valid : check_transfer_input input ≡ ok tt
  pub unknown : lookup (scope_of input.transfer) s.idempotency ≡ none
  pub fresh : check_transfer_ids input s ≡ ok tt
  pub parties : AreParties input.transfer s p
  pub positive : pos 1 ≤ℤ input.transfer.intent.amount_minor
  pub typed : IsInt64 input.transfer.intent.amount_minor
  pub currency : validate_currency p.from.currency ≡ ok tt
  pub first_id : is_blank input.posting_ids.0 ≡ false
  pub second_id : is_blank input.posting_ids.1 ≡ false
  pub transaction_id : is_blank input.transfer.id ≡ false
  pub from_id : is_blank p.from.id ≡ false
  pub to_id : is_blank p.to.id ≡ false

module _ (input : ApplyTransferInput) (s : Store) (p : Parties) (r : IsReady input s p) where
  abbrev amount : ℤ
  amount = input.transfer.intent.amount_minor

  neg_exact : neg64 amount ≡ pos 0 -ℤ amount
  neg_exact = neg64_lem amount (omega (arith, r.typed, r.positive, -ℤ_parts (pos 0) amount))

  neg-IsInt64 : IsInt64 (neg64 amount)
  neg-IsInt64 = rw neg_exact (omega (arith, r.typed, r.positive, -ℤ_parts (pos 0) amount))

  neg_nonzero : neg64 amount ≢ pos 0
  neg_nonzero e = absurd (
      omega (
        arith,
        r.positive,
        ap pos_part (sym neg_exact ∙ e),
        ap neg_part (sym neg_exact ∙ e),
        -ℤ_parts (pos 0) amount,
      ))

  postings-IsBalanced : IsBalanced (transfer_postings input p s.sequence)
  postings-IsBalanced = record {
    currency = p.from.currency;
    two = omega arith;
    valid = r.currency;
    well_formed = (
      record {
        id_given = r.first_id;
        transaction_given = r.transaction_id;
        account_given = r.from_id;
        nonzero = neg_nonzero;
        same_currency = refl;
      },
      (
        record {
          id_given = r.second_id;
          transaction_given = r.transaction_id;
          account_given = r.to_id;
          nonzero = λ e. ground (arith, r.positive);
          same_currency = sym r.parties.one_currency;
        },
        tt,
      ),
    );
    fits = rw neg_exact (omega (int_laws, r.typed, r.positive));
    zero_sum = rw neg_exact (omega int_laws);
  }

  -- A ready request whose amount the source covers, and the destination can hold, is granted.
  pub ready_granted :
      amount ≤ℤ p.from.balance_minor
      → p.to.balance_minor +ℤ amount ≤ℤ max_int64
      → (apply_transfer none input s).0
        ≡ ok (record { transfer = input.transfer; replayed = false })
  unfolding apply_transfer apply_new check_amount
  ready_granted covered room = ground (
    arith,
    r.valid,
    r.unknown,
    r.fresh,
    r.positive,
    AreParties-find input.transfer s p r.parties,
    (validate_balanced_iff (transfer_postings input p s.sequence) (neg-IsInt64, (r.typed, tt))).1
        postings-IsBalanced,
    sub64_lem max_int64 amount,
    -ℤ_parts max_int64 amount,
    +ℤ_parts p.to.balance_minor amount,
    r.typed,
  )

  -- A ready request for more than the source holds is refused, and changes nothing.
  pub ready_refused :
      ltb_ℤ p.from.balance_minor amount ≡ true
      → apply_transfer none input s ≡ (err insufficient_funds, s)
  unfolding apply_transfer apply_new check_amount
  ready_refused short =
      ground (
        arith,
        r.valid,
        r.unknown,
        r.fresh,
        r.positive,
        AreParties-find input.transfer s p r.parties,
      )

-- Under a live context, a well-formed new request between two customer accounts, which leaves the
-- destination an int64, is granted if the source holds the amount and refused for insufficient funds
-- if not.
pub ready_decided :
    (input : ApplyTransferInput) (s : Store) (p : Parties)
    → IsReady input s p
    → p.to.balance_minor +ℤ input.transfer.intent.amount_minor ≤ℤ max_int64
    → (apply_transfer none input s).0 ≡ (
        if ltb_ℤ p.from.balance_minor input.transfer.intent.amount_minor
        then err insufficient_funds
        else ok (record { transfer = input.transfer; replayed = false }))
ready_decided input s p r room =
    elim (Bool-cases (ltb_ℤ p.from.balance_minor input.transfer.intent.amount_minor)) [
      | inl short ↦ rw short (ap (λ x. x.0) (ready_refused input s p r short))
      | inr enough ↦ rw enough (ready_granted input s p r (ground arith) room)
    ]

-- Two requests on one source account of a sound store, the second served right after the first: if both
-- are reported as new transfers then the account held both amounts together.
pub no_double_spend :
    (ctx ctx' : Context) (input other : ApplyTransferInput) (s : Store) (r r' : TransferResult)
    → IsSound s
    → input.transfer.intent.from_account_id ≡ other.transfer.intent.from_account_id
    → (apply_transfer ctx input s).0 ≡ ok r
    → r.replayed ≡ false
    → (apply_transfer ctx' other (apply_transfer ctx input s).1).0 ≡ ok r'
    → r'.replayed ≡ false
    → input.transfer.intent.amount_minor +ℤ other.transfer.intent.amount_minor
      ≤ℤ balance_of input.transfer.intent.from_account_id s.accounts
no_double_spend ctx ctx' input other s r r' sound same h n h' n' =
    let first = apply_transfer-Moved ctx input s r sound h n in
    let second =
      apply_transfer-Moved ctx' other (apply_transfer ctx input s).1 r'
        (apply_transfer-IsSound ctx input s sound) h' n' in
    both _ _ _ (
      subst (λ b. other.transfer.intent.amount_minor ≤ℤ b)
        (ap (λ id. balance_of id (apply_transfer ctx input s).1.accounts) (sym same)
          ∙ first.debited)
        second.covered)
  where
    both : (b x y : ℤ) → y ≤ℤ b -ℤ x → x +ℤ y ≤ℤ b
    both b x y k = omega int_laws
