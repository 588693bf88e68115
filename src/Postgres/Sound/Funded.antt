-- ===== src/Postgres/Sound/Funded.antt =====
-- The opening of a funded account is a double entry, behind two accounts that hold nothing.
use secure_ledger.Prelude.{
  String, ◌≡◌, ◌≢◌, refl, sym, ap, subst, ◌∙◌, false, not, ◌&&◌, some, [], ◌∷◌, ◌++◌, Bool-cases,
  inl, inr, arith, eq_iff, ◌==◌, string_Eq, if◌then◌else◌,
}
use secure_ledger.Prelude.Int.{ℤ, pos, ◌+ℤ◌, ◌-ℤ◌, ◌≤ℤ◌, int_laws, +ℤ_parts, -ℤ_parts}
use secure_ledger.Prelude.Int64.{
  IsInt64, sub64, neg64, add64_lem, sub64_lem, neg64_lem, wrap64-IsInt64, min_int64,
}
use secure_ledger.Prelude.Map.{lookup, insert, contains, Distinct, lookup-insert, insert-Distinct}
use secure_ledger.Store.{CreateAccountInput}
use secure_ledger.Memory.{system_account_id}
use secure_ledger.Postgres.{
  Server, Numbers, Tables, AccountRow, account_row, system_row, add_account, opening_transaction,
  first_opening, second_opening, with_balance,
}
use secure_ledger.Postgres.Sound.{IsSound, balance_of, row_balance}
use secure_ledger.Postgres.Sound.Opened.{IsOpened, with_accounts, if_new-elsewhere}
use secure_ledger.Postgres.Sound.Entry.{IsSide, IsEntry, entry-IsSound}
use secure_ledger.Postgres.Sound.Moved.{set_balance_lem}
use secure_ledger.Postgres.Sound.Accounts.{add_account-IsSound, add_account_if_new-IsSound}

module _ (server : Server) (n : Numbers) (input : CreateAccountInput) (t t' : Tables)
    (sound : IsSound server t) (opened : IsOpened server n input t t')
    (fresh : contains input.account.id t.accounts ≡ false)
    (customer : input.account.id ≢ system_account_id input.account.currency)
    (typed : IsInt64 input.account.balance_minor)
    (positive : pos 1 ≤ℤ input.account.balance_minor) where
  abbrev amount : ℤ
  amount = input.account.balance_minor

  abbrev system_id : String
  system_id = system_account_id input.account.currency

  -- The tables with the two accounts in them, and with `balance` in the new one.
  abbrev pub with : ℤ → Tables
  with balance = with_accounts server input balance t

  added :
      (balance : ℤ)
      → contains system_id
          (insert input.account.id (account_row server input.account balance) t.accounts)
        ≡ contains system_id t.accounts
  unfolding contains
  added balance = ground (
    arith,
    customer,
    eq_iff system_id input.account.id,
    lookup-insert system_id input.account.id (account_row server input.account balance) t.accounts,
  )

  pub lookup-with :
      (balance : ℤ) (id : String)
      → lookup id (with balance).accounts ≡ (
          if id == input.account.id
          then some (account_row server input.account balance)
          else if id == system_id && not (contains system_id t.accounts)
          then some (system_row server input.account)
          else lookup id t.accounts)
  lookup-with balance id = elim (Bool-cases (contains system_id t.accounts)) [
    | inl known ↦
        rw (added balance, known)
          (ground (
            arith,
            lookup-insert id input.account.id (account_row server input.account balance) t.accounts,
          ))
    | inr new ↦
        rw (added balance, new)
          (lookup-insert id system_id (system_row server input.account) _
            ∙ ground (
              arith,
              lookup-insert id input.account.id (account_row server input.account balance)
                  t.accounts,
              eq_iff id system_id,
              eq_iff id input.account.id,
              customer,
            ))
  ]

  with-Distinct : (balance : ℤ) → Distinct (with balance).accounts
  with-Distinct balance =
      let one =
        insert-Distinct input.account.id (account_row server input.account balance) t.accounts
          sound.one_account in
      elim (Bool-cases (contains system_id t.accounts)) [
        | inl known ↦ rw (added balance, known) one
        | inr new ↦
            rw (added balance, new)
              (insert-Distinct system_id (system_row server input.account) _ one)
      ]

  base-IsSound : IsSound server (with (pos 0))
  base-IsSound =
      add_account_if_new-IsSound server (system_row server input.account) _
        (add_account-IsSound server (account_row server input.account (pos 0)) t sound fresh refl)
        refl

  pub base_found : lookup system_id (with (pos 0)).accounts ≡ some opened.system
  base_found = ground (
    arith,
    lookup-with (pos 0) system_id,
    lookup-with amount system_id,
    opened.found,
    eq_iff system_id input.account.id,
    customer,
  )

  system_named : opened.system.account.id ≡ system_id
  system_named = base-IsSound.keyed system_id opened.system base_found

  system-IsInt64 : IsInt64 opened.system.account.balance_minor
  system-IsInt64 = base-IsSound.in_range system_id opened.system base_found

  room : pos 0 ≤ℤ (opened.system.account.balance_minor -ℤ (min_int64 +ℤ amount))
  room = omega (
    arith,
    subst (λ (z : ℤ). z ≤ℤ opened.system.account.balance_minor)
        (add64_lem min_int64 amount (omega (arith, positive, typed, +ℤ_parts min_int64 amount)))
        opened.room,
    +ℤ_parts min_int64 amount,
    -ℤ_parts opened.system.account.balance_minor (min_int64 +ℤ amount),
  )

  pub system_exact :
      sub64 opened.system.account.balance_minor amount
      ≡ opened.system.account.balance_minor -ℤ amount
  system_exact = sub64_lem _ _ (
      omega (
        arith,
        room,
        positive,
        system-IsInt64,
        +ℤ_parts min_int64 amount,
        -ℤ_parts opened.system.account.balance_minor (min_int64 +ℤ amount),
        -ℤ_parts opened.system.account.balance_minor amount,
      ))

  neg_exact : neg64 amount ≡ pos 0 -ℤ amount
  neg_exact = neg64_lem amount (omega (arith, positive, typed, -ℤ_parts (pos 0) amount))

  abbrev pub system' : AccountRow
  system' =
      with_balance (sub64 opened.system.account.balance_minor amount)
        (server.stamp input.account.created_at) opened.system

  accounts : t'.accounts ≡ insert system_id system' (with amount).accounts
  accounts =
      opened.accounts
      ∙ set_balance_lem system_id _ _ (with amount) opened.system opened.found system_named

  pub found :
      (id : String)
      → lookup id t'.accounts ≡ (
          if id == system_id
          then some system'
          else if id == input.account.id
          then some (account_row server input.account amount)
          else lookup id (with (pos 0)).accounts)
  found id =
      ap (λ m. lookup id m) accounts
      ∙ lookup-insert id system_id system' (with amount).accounts
      ∙ ground (arith, lookup-with amount id, lookup-with (pos 0) id)

  nothing_held : balance_of input.account.id (with (pos 0)).accounts ≡ pos 0
  nothing_held =
      ground (arith, lookup-with (pos 0) input.account.id, eq_iff input.account.id input.account.id)

  -- The other tables do not see the new accounts.
  elsewhere : record (with (pos 0)) { accounts = [] } ≡ record t { accounts = [] }
  elsewhere =
      if_new-elsewhere (system_row server input.account)
        (add_account (account_row server input.account (pos 0)) t)

  first_side :
      IsSide (with (pos 0)) (first_opening server n input) (account_row server input.account amount)
  first_side = record {
    keyed = refl;
    in_range = typed;
    solvent = λ _. omega (arith, positive);
    moved = rw nothing_held (omega int_laws);
  }

  second_side : IsSide (with (pos 0)) (second_opening server n input) system'
  unfolding sub64
  second_side = record {
    keyed = system_named;
    in_range = wrap64-IsInt64 (opened.system.account.balance_minor -ℤ amount);
    solvent = λ outside. ground (arith, opened.is_system);
    moved = system_exact ∙ rw (ap row_balance base_found, neg_exact) (omega int_laws);
  }

  opened-IsEntry :
      IsEntry server
        (with (pos 0))
        t'
        (opening_transaction server input)
        (first_opening server n input)
        (second_opening server n input)
        (account_row server input.account amount)
        system'
  unfolding contains
  opened-IsEntry = record {
    first = first_side;
    second = second_side;
    two_accounts = customer;
    cancel = rw neg_exact (omega int_laws);
    first_transaction = refl;
    second_transaction = refl;
    expected = refl;
    fresh =
        ap (λ (s : Tables). contains input.opening_transaction_id s.transactions) elsewhere
        ∙ opened.fresh;
    one_account =
        subst Distinct (sym accounts) (insert-Distinct system_id system' _ (with-Distinct amount));
    accounts = found;
    transactions =
        opened.transactions
        ∙ ap
            (λ (s : Tables).
              insert input.opening_transaction_id (opening_transaction server input) s.transactions)
            (sym elsewhere);
    postings =
        opened.postings
        ∙ ap
            (λ (s : Tables).
              s.postings ++ first_opening server n input ∷ second_opening server n input ∷ [])
            (sym elsewhere);
    intents = λ id other.
        ap (lookup id) (opened.intents ∙ ap (λ (s : Tables). s.intents) (sym elsewhere));
    fingerprint = λ key i e. absurd (
        ground (
          arith,
          ap (λ m. lookup input.opening_transaction_id m) opened.intents,
          sound.unintended input.opening_transaction_id opened.fresh,
        ));
  }

  pub opened-IsSound : IsSound server t'
  opened-IsSound = entry-IsSound server (with (pos 0)) t' _ _ _ _ _ base-IsSound opened-IsEntry
