-- ===== src/Postgres/Sound/Moved.antt =====
-- A transfer that `applyTransferTx` books is a double entry.
use secure_ledger.Prelude.{
  String, ◌≡◌, ◌≢◌, refl, sym, ap, subst, ◌∙◌, some, arith, eq_iff, ◌==◌, string_Eq, if◌then◌else◌,
}
use secure_ledger.Prelude.Int.{ℤ, pos, ◌+ℤ◌, ◌-ℤ◌, ◌≤ℤ◌, int_laws, +ℤ_parts, -ℤ_parts}
use secure_ledger.Prelude.Int64.{
  IsInt64, add64, sub64, neg64, add64_lem, sub64_lem, neg64_lem, wrap64-IsInt64, max_int64,
}
use secure_ledger.Prelude.Map.{lookup, insert, Distinct, lookup-insert, insert-Distinct}
use secure_ledger.Domain.{Account, Time}
use secure_ledger.Store.{ApplyTransferInput}
use secure_ledger.Postgres.{
  transfer_fingerprint, Server, Numbers, Tables, AccountRow, IntentRow, stored_transfer,
  set_balance, with_balance, first_posting, second_posting, transfer_transaction, intent_row,
}
use secure_ledger.Postgres.Sound.{IsSound, balance_of, row_balance}
use secure_ledger.Postgres.Sound.Booked.{AreAccounts, IsBooked}
use secure_ledger.Postgres.Sound.Entry.{IsSide, IsEntry, entry-IsSound}

-- An UPDATE of the row of a known account.
pub set_balance_lem :
    (id : String) (balance : ℤ) (now : Time) (t : Tables) (r : AccountRow)
    → lookup id t.accounts ≡ some r
    → r.account.id ≡ id
    → (set_balance id balance now t).accounts ≡ insert id (with_balance balance now r) t.accounts
set_balance_lem id balance now t r found named =
    rw found (ap (λ k. insert k (with_balance balance now r) t.accounts) named)

module _ (server : Server) (n : Numbers) (input : ApplyTransferInput) (from to : Account)
    (t t' : Tables) (sound : IsSound server t) (here : AreAccounts input.transfer t from to)
    (booked : IsBooked server n input from to t t')
    (positive : pos 1 ≤ℤ input.transfer.intent.amount_minor) where
  abbrev amount : ℤ
  amount = input.transfer.intent.amount_minor

  abbrev now : Time
  now = server.stamp input.transfer.created_at

  pub from_id : from.id ≡ input.transfer.intent.from_account_id
  from_id =
      ap (λ (a : Account). a.id) (sym here.from_account)
      ∙ sound.keyed _ here.from_row here.from_found

  pub to_id : to.id ≡ input.transfer.intent.to_account_id
  to_id = ap (λ (a : Account). a.id) (sym here.to_account) ∙ sound.keyed _ here.to_row here.to_found

  distinct : from.id ≢ to.id
  distinct e = here.distinct (sym from_id ∙ e ∙ to_id)

  from_found : lookup from.id t.accounts ≡ some here.from_row
  from_found = ap (λ k. lookup k t.accounts) from_id ∙ here.from_found

  to_found : lookup to.id t.accounts ≡ some here.to_row
  to_found = ap (λ k. lookup k t.accounts) to_id ∙ here.to_found

  from-IsInt64 : IsInt64 from.balance_minor
  from-IsInt64 =
      subst (λ (a : Account). IsInt64 a.balance_minor) here.from_account
        (sound.in_range _ here.from_row from_found)

  to-IsInt64 : IsInt64 to.balance_minor
  to-IsInt64 =
      subst (λ (a : Account). IsInt64 a.balance_minor) here.to_account
        (sound.in_range _ here.to_row to_found)

  to_solvent : pos 0 ≤ℤ to.balance_minor
  to_solvent =
      subst (λ (a : Account). pos 0 ≤ℤ a.balance_minor) here.to_account
        (sound.solvent _ here.to_row to_found
          (ap (λ (a : Account). a.system) here.to_account ∙ here.to_customer))

  pub amount-IsInt64 : IsInt64 amount
  amount-IsInt64 = omega (arith, positive, here.covered, from-IsInt64)

  pub from_exact : sub64 from.balance_minor amount ≡ from.balance_minor -ℤ amount
  from_exact =
      sub64_lem from.balance_minor amount
        (omega (arith, positive, here.covered, from-IsInt64, -ℤ_parts from.balance_minor amount))

  pub room : to.balance_minor ≤ℤ (max_int64 -ℤ amount)
  room =
      subst (λ (z : ℤ). to.balance_minor ≤ℤ z)
        (sub64_lem max_int64 amount
          (omega (arith, positive, amount-IsInt64, -ℤ_parts max_int64 amount)))
        here.room

  pub to_exact : add64 to.balance_minor amount ≡ to.balance_minor +ℤ amount
  to_exact = add64_lem to.balance_minor amount (
      omega (
        arith,
        positive,
        room,
        to-IsInt64,
        -ℤ_parts max_int64 amount,
        +ℤ_parts to.balance_minor amount,
      ))

  neg_exact : neg64 amount ≡ pos 0 -ℤ amount
  neg_exact = neg64_lem amount (omega (arith, positive, amount-IsInt64, -ℤ_parts (pos 0) amount))

  abbrev from_row' : AccountRow
  from_row' = with_balance (sub64 from.balance_minor amount) now here.from_row

  abbrev to_row' : AccountRow
  to_row' = with_balance (add64 to.balance_minor amount) now here.to_row

  abbrev debited : Tables
  debited = set_balance from.id (sub64 from.balance_minor amount) now t

  debited_lem : debited.accounts ≡ insert from.id from_row' t.accounts
  debited_lem =
      set_balance_lem from.id _ now t here.from_row from_found
        (sound.keyed from.id here.from_row from_found)

  to_still : lookup to.id debited.accounts ≡ some here.to_row
  to_still =
      ap (λ m. lookup to.id m) debited_lem
      ∙ lookup-insert to.id from.id from_row' t.accounts
      ∙ ground (arith, to_found, distinct, eq_iff to.id from.id)

  accounts : t'.accounts ≡ insert to.id to_row' (insert from.id from_row' t.accounts)
  accounts =
      booked.accounts
      ∙ set_balance_lem to.id _ now debited here.to_row to_still
          (sound.keyed to.id here.to_row to_found)
      ∙ ap (insert to.id to_row') debited_lem

  held_from : balance_of from.id t.accounts ≡ from.balance_minor
  held_from = ap row_balance from_found ∙ ap (λ (a : Account). a.balance_minor) here.from_account

  held_to : balance_of to.id t.accounts ≡ to.balance_minor
  held_to = ap row_balance to_found ∙ ap (λ (a : Account). a.balance_minor) here.to_account

  first_side : IsSide t (first_posting server n input from) from_row'
  unfolding sub64
  first_side = record {
    keyed = sound.keyed from.id here.from_row from_found;
    in_range = wrap64-IsInt64 (from.balance_minor -ℤ amount);
    solvent = λ _.
        rw from_exact
          (omega (arith, positive, here.covered, from-IsInt64, -ℤ_parts from.balance_minor amount));
    moved = rw (from_exact, held_from, neg_exact) (omega int_laws);
  }

  second_side : IsSide t (second_posting server n input to) to_row'
  unfolding add64
  second_side = record {
    keyed = sound.keyed to.id here.to_row to_found;
    in_range = wrap64-IsInt64 (to.balance_minor +ℤ amount);
    solvent =
        λ _. rw to_exact (omega (arith, positive, to_solvent, +ℤ_parts to.balance_minor amount));
    moved = rw (to_exact, held_to) refl;
  }

  intent_found :
      (id : String)
      → lookup id t'.intents ≡ (
          if id == input.transfer.id
          then some (intent_row server input.transfer from to)
          else lookup id t.intents)
  intent_found id =
      ap (λ m. lookup id m) booked.intents
      ∙ lookup-insert id input.transfer.id (intent_row server input.transfer from to) t.intents

  fingerprint :
      (key : String) (i : IntentRow)
      → lookup input.transfer.id t'.intents ≡ some i
      → i.request_fingerprint
        ≡ transfer_fingerprint server input.transfer.actor_id
            (stored_transfer server (transfer_transaction server input.transfer from) key i).intent
  fingerprint key i found =
      let same : intent_row server input.transfer from to ≡ i =
        ground
          (arith, intent_found input.transfer.id, eq_iff input.transfer.id input.transfer.id) in
      let stored : input.transfer.intent
          ≡ (stored_transfer server (transfer_transaction server input.transfer from) key
              (intent_row server input.transfer from to)).intent =
        ap (λ k. record input.transfer.intent { from_account_id = k }) (sym from_id)
        ∙ ap (λ k. record input.transfer.intent { from_account_id = from.id; to_account_id = k })
            (sym to_id) in
      ap (λ (x : IntentRow). x.request_fingerprint) (sym same)
      ∙ ap (transfer_fingerprint server input.transfer.actor_id) stored
      ∙ ap
          (λ (x : IntentRow).
            transfer_fingerprint server input.transfer.actor_id
              (stored_transfer server (transfer_transaction server input.transfer from) key
                x).intent)
          same

  pub moved-IsEntry :
      IsEntry server t t'
        (transfer_transaction server input.transfer from)
        (first_posting server n input from)
        (second_posting server n input to)
        from_row'
        to_row'
  moved-IsEntry = record {
    first = first_side;
    second = second_side;
    two_accounts = distinct;
    cancel = rw neg_exact (omega int_laws);
    first_transaction = refl;
    second_transaction = refl;
    expected = refl;
    fresh = booked.fresh;
    one_account = subst Distinct (sym accounts) (
        insert-Distinct to.id to_row' _
          (insert-Distinct from.id from_row' t.accounts sound.one_account));
    accounts = λ id.
        ap (λ m. lookup id m) accounts
        ∙ lookup-insert id to.id to_row' (insert from.id from_row' t.accounts)
        ∙ ground (arith, lookup-insert id from.id from_row' t.accounts);
    transactions = booked.transactions;
    postings = booked.postings;
    intents = λ id other. intent_found id ∙ ground (arith, eq_iff id input.transfer.id);
    fingerprint = fingerprint;
  }

  pub moved-IsSound : IsSound server t'
  moved-IsSound = entry-IsSound server t t' _ _ _ _ _ sound moved-IsEntry
