-- ===== src/Memory/Sound/Created.antt =====
-- A created account keeps the invariant of the store, with and without an opening entry.
use secure_ledger.Prelude.{
  String, ◌≡◌, ◌≢◌, refl, sym, ap, ◌∙◌, true, false, Bool-cases, inl, inr, some, arith, eq_iff,
  ◌==◌, string_Eq, if◌then◌else◌, ok,
}
use secure_ledger.Prelude.Int.{pos, ◌+ℤ◌, ◌-ℤ◌, ◌≤ℤ◌, ltb_ℤ, int_laws, -ℤ_parts, eq_of_parts}
use secure_ledger.Prelude.Int64.{IsInt64, sub64, neg64, sub64_lem, neg64_lem, wrap64-IsInt64}
use secure_ledger.Prelude.Map.{Map, lookup, insert, lookup-insert}
use secure_ledger.Domain.{Account}
use secure_ledger.Store.{CreateAccountInput}
use secure_ledger.Memory.{
  Store, system_account_id, customer_posting, equity_posting, opening_postings, write_opening,
  write_account, check_account,
}
use secure_ledger.Memory.Cases.{Opened, opened_state}
use secure_ledger.Memory.Facts.{
  IsFreshAccount, check_account-IsFreshAccount, IsSystemAccount, system_account-IsSystemAccount,
  system_account_id-ne,
}
use secure_ledger.Memory.Sound.{IsSound, balance_of, stored_balance, posted, IsEntry}
use secure_ledger.Memory.Sound.Journal.{
  posted-append, IsDoubleEntry-append, IsNumbered-append, next_sequence, count_entry,
}

module _ (input : CreateAccountInput) (s : Store) (sound : IsSound s)
    (typed : IsInt64 input.account.balance_minor) (valid : check_account input s ≡ ok tt) where
  abbrev account : Account
  account = input.account

  pub fresh : IsFreshAccount input s
  fresh = check_account-IsFreshAccount input s valid

  -- Nothing was ever posted to a new account.
  pub unheld : balance_of account.id s.accounts ≡ pos 0
  unheld = ap stored_balance fresh.unknown

  pub empty_state-IsSound :
      ltb_ℤ (pos 0) account.balance_minor ≡ false → IsSound (write_account input s)
  unfolding write_account
  empty_state-IsSound zero = record {
    keyed = λ id b e. ground (
      arith,
      lookup-insert id account.id account s.accounts,
      eq_iff id account.id,
      sound.keyed id b,
    );
    in_range = λ id b e.
        ground (arith, lookup-insert id account.id account s.accounts, sound.in_range id b);
    solvent = λ id b e n.
        ground
          (arith, lookup-insert id account.id account s.accounts, fresh.nonneg, sound.solvent id b);
    reconciled = λ id. elim (Bool-cases (id == account.id)) [
      | inl same ↦ ground (
        arith,
        lookup-insert id account.id account s.accounts,
        eq_iff id account.id,
        unheld,
        fresh.nonneg,
        eq_of_parts account.balance_minor (pos 0),
        sound.reconciled account.id,
      )
      | inr other ↦ rw (lookup-insert id account.id account s.accounts, other) (sound.reconciled id)
    ];
    double_entry = sound.double_entry;
    numbered = sound.numbered;
    counted = sound.counted;
    remembered = sound.remembered;
  }

  module _ (positive : ltb_ℤ (pos 0) account.balance_minor ≡ true) (a : Account)
      (o : Opened input s a) where
    abbrev system_id : String
    system_id = system_account_id account.currency

    pub system : IsSystemAccount account s a
    system = system_account-IsSystemAccount account s a typed fresh.nonneg o.system

    pub distinct : account.id ≢ system_id
    distinct = system_account_id-ne account.id account.currency fresh.not_reserved

    -- The system account's balance is the one that was stored, or zero.
    pub held : balance_of system_id s.accounts ≡ a.balance_minor
    held = elim system.stored_or_new [
      | inl stored ↦ ap stored_balance stored
      | inr (missing, new) ↦ ap stored_balance missing ∙ sym (ap (λ b. b.balance_minor) new)
    ]

    system-IsInt64 : IsInt64 a.balance_minor
    system-IsInt64 = elim system.stored_or_new [
      | inl stored ↦ sound.in_range system_id a stored
      | inr (missing, new) ↦ ground arith
    ]

    system_keyed : a.id ≡ system_id
    system_keyed = elim system.stored_or_new [
      | inl stored ↦ sound.keyed system_id a stored
      | inr (missing, new) ↦ ap (λ b. b.id) new
    ]

    pub system_exact :
        sub64 a.balance_minor account.balance_minor ≡ a.balance_minor -ℤ account.balance_minor
    system_exact = sub64_lem a.balance_minor account.balance_minor (
        omega (
          arith,
          system.room,
          system-IsInt64,
          fresh.nonneg,
          -ℤ_parts a.balance_minor account.balance_minor,
        ))

    pub neg_exact : neg64 account.balance_minor ≡ pos 0 -ℤ account.balance_minor
    neg_exact =
        neg64_lem account.balance_minor
          (omega (arith, typed, fresh.nonneg, -ℤ_parts (pos 0) account.balance_minor))

    abbrev system' : Account
    system' = record a { balance_minor = sub64 a.balance_minor account.balance_minor }

    abbrev accounts' : Map String Account
    accounts' = insert account.id account (insert system_id system' s.accounts)

    pub lookup-opened :
        (id : String)
        → lookup id accounts' ≡ (
            if id == account.id
            then some account
            else if id == system_id
            then some system'
            else lookup id s.accounts)
    lookup-opened id = simp lookup-insert

    keyed : (id : String) (b : Account) → lookup id accounts' ≡ some b → b.id ≡ id
    keyed id b e = ground (
      arith,
      lookup-opened id,
      eq_iff id account.id,
      eq_iff id system_id,
      system_keyed,
      sound.keyed id b,
    )

    in_range : (id : String) (b : Account) → lookup id accounts' ≡ some b → IsInt64 b.balance_minor
    unfolding sub64
    in_range id b e = ground (
      arith,
      lookup-opened id,
      wrap64-IsInt64 (a.balance_minor -ℤ account.balance_minor),
      sound.in_range id b,
    )

    solvent :
        (id : String) (b : Account)
        → lookup id accounts' ≡ some b
        → b.system ≡ false
        → pos 0 ≤ℤ b.balance_minor
    solvent id b e n =
        ground (arith, lookup-opened id, system.system, fresh.nonneg, sound.solvent id b)

    moved :
        (id : String)
        → balance_of id accounts'
          ≡ balance_of id s.accounts +ℤ posted id (opening_postings input s.sequence)
    moved id = elim (Bool-cases (id == account.id)) [
      | inl is_new ↦
          let same : id ≡ account.id = (eq_iff id account.id).0 is_new in
          let none_held : balance_of id s.accounts ≡ pos 0 =
            ap (λ k. balance_of k s.accounts) same ∙ unheld in
          let not_system : (id == system_id) ≡ false =
            ground (arith, eq_iff id system_id, distinct) in
          rw (lookup-opened id, none_held, is_new, not_system) (omega int_laws)
      | inr not_new ↦ elim (Bool-cases (id == system_id)) [
        | inl is_system ↦
            let was_held : balance_of id s.accounts ≡ a.balance_minor =
              ap (λ k. balance_of k s.accounts) ((eq_iff id system_id).0 is_system) ∙ held in
            rw (lookup-opened id, was_held, not_new, is_system, system_exact, neg_exact)
              (omega int_laws)
        | inr not_system ↦ rw (lookup-opened id, not_new, not_system) (omega int_laws)
      ]
    ]

    entry : IsEntry (customer_posting input s.sequence) (equity_posting input s.sequence)
    entry = record {
      one_transaction = refl;
      one_currency = refl;
      two_accounts = distinct;
      nonzero = λ e. ground arith;
      cancel = rw neg_exact (omega int_laws);
    }

    pub opened_state-IsSound : IsSound (opened_state input a s)
    unfolding write_opening write_account
    opened_state-IsSound = record {
      keyed = keyed;
      in_range = in_range;
      solvent = solvent;
      reconciled = λ id.
          moved id
          ∙ ap (λ b. b +ℤ posted id (opening_postings input s.sequence)) (sound.reconciled id)
          ∙ sym (posted-append id s.journal (opening_postings input s.sequence));
      double_entry = IsDoubleEntry-append s.journal _ _ sound.double_entry entry;
      numbered =
          IsNumbered-append 0 s.journal _ _ sound.numbered
            (next_sequence s.sequence s.journal 1 sound.counted)
            (next_sequence s.sequence s.journal 2 sound.counted);
      counted = count_entry s.sequence s.journal _ _ sound.counted;
      remembered = sound.remembered;
    }
