-- ===== src/Memory/Sound/Applied.antt =====
-- An accepted transfer keeps the invariant of the store.
use secure_ledger.Prelude.{
  String, ◌≡◌, refl, sym, ap, ◌∙◌, false, Bool-cases, inl, inr, some, arith, eq_iff, ◌==◌,
  string_Eq, if◌then◌else◌,
}
use secure_ledger.Prelude.Int.{
  ℤ, pos, pos_part, neg_part, ◌+ℤ◌, ◌-ℤ◌, ◌≤ℤ◌, int_laws, +ℤ_parts, -ℤ_parts,
}
use secure_ledger.Prelude.Int64.{
  IsInt64, add64, sub64, neg64, add64_lem, sub64_lem, neg64_lem, wrap64-IsInt64,
}
use secure_ledger.Prelude.Map.{lookup, insert, lookup-insert}
use secure_ledger.Domain.{Account, Transfer}
use secure_ledger.Store.{ApplyTransferInput}
use secure_ledger.Memory.{
  Store, Scope, Parties, scope_Eq, scope_eq_iff, scope_of, move_balances, from_posting, to_posting,
  transfer_postings, write_transfer,
}
use secure_ledger.Memory.Cases.{Accepted, accepted_state}
use secure_ledger.Memory.Facts.{
  AreParties, IsCovered, find_parties-AreParties, check_amount-IsCovered,
}
use secure_ledger.Memory.Sound.{IsSound, balance_of, stored_balance, posted, IsEntry}
use secure_ledger.Memory.Sound.Journal.{
  posted-append, IsDoubleEntry-append, IsNumbered-append, next_sequence, count_entry,
}

module _ (input : ApplyTransferInput) (s : Store) (p : Parties) (sound : IsSound s)
    (a : Accepted input s p) where
  abbrev amount : ℤ
  amount = input.transfer.intent.amount_minor

  pub parties : AreParties input.transfer s p
  parties = find_parties-AreParties input.transfer s p a.parties

  from-IsInt64 : IsInt64 p.from.balance_minor
  from-IsInt64 = sound.in_range _ p.from parties.from.stored

  to-IsInt64 : IsInt64 p.to.balance_minor
  to-IsInt64 = sound.in_range _ p.to parties.to.stored

  pub covered : IsCovered amount p
  covered = check_amount-IsCovered amount p from-IsInt64 a.covered

  amount-IsInt64 : IsInt64 amount
  amount-IsInt64 = omega (arith, covered, from-IsInt64)

  -- No balance wraps.
  pub from_exact : sub64 p.from.balance_minor amount ≡ p.from.balance_minor -ℤ amount
  from_exact =
      sub64_lem p.from.balance_minor amount
        (omega (arith, covered, from-IsInt64, -ℤ_parts p.from.balance_minor amount))

  pub to_exact : add64 p.to.balance_minor amount ≡ p.to.balance_minor +ℤ amount
  to_exact =
      add64_lem p.to.balance_minor amount
        (omega (arith, covered, to-IsInt64, +ℤ_parts p.to.balance_minor amount))

  pub neg_exact : neg64 amount ≡ pos 0 -ℤ amount
  neg_exact = neg64_lem amount (omega (arith, covered, amount-IsInt64, -ℤ_parts (pos 0) amount))

  pub from_id : p.from.id ≡ input.transfer.intent.from_account_id
  from_id = sound.keyed _ p.from parties.from.stored

  pub to_id : p.to.id ≡ input.transfer.intent.to_account_id
  to_id = sound.keyed _ p.to parties.to.stored

  abbrev from' : Account
  from' = record p.from { balance_minor = sub64 p.from.balance_minor amount }

  abbrev to' : Account
  to' = record p.to { balance_minor = add64 p.to.balance_minor amount }

  pub lookup-moved :
      (id : String)
      → lookup id (move_balances amount p s.accounts) ≡ (
          if id == p.to.id
          then some to'
          else if id == p.from.id
          then some from'
          else lookup id s.accounts)
  unfolding move_balances
  lookup-moved id = simp lookup-insert

  keyed :
      (id : String) (b : Account)
      → lookup id (move_balances amount p s.accounts) ≡ some b
      → b.id ≡ id
  keyed id b e =
      ground (arith, lookup-moved id, eq_iff id p.to.id, eq_iff id p.from.id, sound.keyed id b)

  in_range :
      (id : String) (b : Account)
      → lookup id (move_balances amount p s.accounts) ≡ some b
      → IsInt64 b.balance_minor
  unfolding add64 sub64
  in_range id b e = ground (
    arith,
    lookup-moved id,
    wrap64-IsInt64 (p.from.balance_minor -ℤ amount),
    wrap64-IsInt64 (p.to.balance_minor +ℤ amount),
    sound.in_range id b,
  )

  solvent :
      (id : String) (b : Account)
      → lookup id (move_balances amount p s.accounts) ≡ some b
      → b.system ≡ false
      → pos 0 ≤ℤ b.balance_minor
  solvent id b e n = ground (
    arith,
    lookup-moved id,
    from_exact,
    to_exact,
    covered,
    -ℤ_parts p.from.balance_minor amount,
    +ℤ_parts p.to.balance_minor amount,
    sound.solvent _ p.to parties.to.stored parties.to.no_system,
    sound.solvent id b,
  )

  pub from_stored : lookup p.from.id s.accounts ≡ some p.from
  from_stored = ap (λ k. lookup k s.accounts) from_id ∙ parties.from.stored

  pub to_stored : lookup p.to.id s.accounts ≡ some p.to
  to_stored = ap (λ k. lookup k s.accounts) to_id ∙ parties.to.stored

  -- The balances move by what is posted.
  pub moved :
      (id : String)
      → balance_of id (move_balances amount p s.accounts)
        ≡ balance_of id s.accounts +ℤ posted id (transfer_postings input p s.sequence)
  moved id = elim (Bool-cases (id == p.to.id)) [
    | inl is_to ↦
        let same : id ≡ p.to.id = (eq_iff id p.to.id).0 is_to in
        let held : balance_of id s.accounts ≡ p.to.balance_minor =
          ap (λ k. balance_of k s.accounts) same ∙ ap stored_balance to_stored in
        let not_from : (id == p.from.id) ≡ false =
          ground (arith, eq_iff id p.from.id, parties.distinct) in
        rw (lookup-moved id, held, is_to, not_from, to_exact) (omega (int_laws))
    | inr not_to ↦ elim (Bool-cases (id == p.from.id)) [
      | inl is_from ↦
          let held : balance_of id s.accounts ≡ p.from.balance_minor =
            ap (λ k. balance_of k s.accounts) ((eq_iff id p.from.id).0 is_from)
            ∙ ap stored_balance from_stored in
          rw (lookup-moved id, held, not_to, is_from, from_exact, neg_exact) (omega int_laws)
      | inr not_from ↦ rw (lookup-moved id, not_to, not_from) (omega int_laws)
    ]
  ]

  entry : IsEntry (from_posting input p s.sequence) (to_posting input p s.sequence)
  entry = record {
    one_transaction = refl;
    one_currency = parties.one_currency;
    two_accounts = parties.distinct;
    nonzero = λ e. absurd (
        omega (
          arith,
          covered,
          ap pos_part (sym neg_exact ∙ e),
          ap neg_part (sym neg_exact ∙ e),
          -ℤ_parts (pos 0) amount,
        ));
    cancel = rw neg_exact (omega int_laws);
  }

  remembered :
      (k : Scope) (t : Transfer)
      → lookup k (insert (scope_of input.transfer) input.transfer s.idempotency) ≡ some t
      → scope_of t ≡ k
  remembered k t e = ground (
    arith,
    lookup-insert k (scope_of input.transfer) input.transfer s.idempotency,
    scope_eq_iff k (scope_of input.transfer),
    sound.remembered k t,
  )

  pub accepted_state-IsSound : IsSound (accepted_state input p s)
  unfolding write_transfer
  accepted_state-IsSound = record {
    keyed = keyed;
    in_range = in_range;
    solvent = solvent;
    reconciled = λ id.
        moved id
        ∙ ap (λ b. b +ℤ posted id (transfer_postings input p s.sequence)) (sound.reconciled id)
        ∙ sym (posted-append id s.journal (transfer_postings input p s.sequence));
    double_entry = IsDoubleEntry-append s.journal _ _ sound.double_entry entry;
    numbered =
        IsNumbered-append 0 s.journal _ _ sound.numbered
          (next_sequence s.sequence s.journal 1 sound.counted)
          (next_sequence s.sequence s.journal 2 sound.counted);
    counted = count_entry s.sequence s.journal _ _ sound.counted;
    remembered = remembered;
  }
