-- ===== src/Postgres/Refines/Paid.antt =====
-- A transfer that `applyTransferTx` grants pays in the abstract ledger, or was paid before.
use secure_ledger.Prelude.{
  String, ◌≡◌, ◌≢◌, refl, sym, ap, ◌∙◌, subst, true, Option, none, some, Bool-cases, inl, inr,
  arith, eq_iff, string_Eq, ok,
}
use secure_ledger.Prelude.Exec.{>>=-runs}
use secure_ledger.Prelude.Int.{ℤ, pos, ◌≤ℤ◌, +ℤ_parts, -ℤ_parts}
use secure_ledger.Prelude.Int64.{max_int64}
use secure_ledger.Prelude.Map.{lookup, insert, lookup-insert_self, All-lookup, lookup-insert}
use secure_ledger.Domain.{Account, Transfer}
use secure_ledger.Domain.Records.{intent_equal_iff}
use secure_ledger.Store.{ApplyTransferInput, TransferResult}
use secure_ledger.Contract.{
  holding_of, receipt_of, pay, pay_accounts, pay_receipts, IsPayable, Answered, newly, again,
}
use secure_ledger.Postgres.{
  Server, Numbers, Tables, TransactionRow, IntentRow, find_rows, matches, has_key, check_stored,
  check_intent, find_idempotent_transfer, answer, apply_transfer_tx, transfer_transaction,
  intent_row, find_accounts, record_transfer, validate_transfer,
}
use secure_ledger.Postgres.Replay.{find_rows-insert}
use secure_ledger.Postgres.Sound.{IsSound}
use secure_ledger.Postgres.Sound.Booked.{
  AreAccounts, IsBooked, find_accounts-AreAccounts, record_transfer-IsBooked,
}
use secure_ledger.Postgres.Sound.Moved
use secure_ledger.Postgres.Sound.Kept.{transfer_positive, lifted_ok, asked_ok}
use secure_ledger.Postgres.Refines.{view, view_row, view_rows}
use secure_ledger.Postgres.Refines.Keys.{AreKeyed, find_rows-unkeyed, find_rows-other}

-- The rows of sound tables stand under their ids.
pub rows-AreKeyed : (server : Server) (t : Tables) → IsSound server t → AreKeyed t.transactions
rows-AreKeyed server t sound =
    All-lookup (λ id (r : TransactionRow). r.id ≡ id) t.transactions sound.one_transaction
      sound.transactions_keyed

module _ (server : Server) (n : Numbers) (input : ApplyTransferInput) (from to : Account)
    (t t' : Tables) (sound : IsSound server t) (here : AreAccounts input.transfer t from to)
    (booked : IsBooked server n input from to t t')
    (positive : pos 1 ≤ℤ input.transfer.intent.amount_minor) where
  abbrev amount : ℤ
  amount = input.transfer.intent.amount_minor

  abbrev row : TransactionRow
  row = transfer_transaction server input.transfer from

  abbrev intent : IntentRow
  intent = intent_row server input.transfer from to

  from_named : from.id ≡ input.transfer.intent.from_account_id
  from_named = Moved.from_id server n input from to t t' sound here booked positive

  to_named : to.id ≡ input.transfer.intent.to_account_id
  to_named = Moved.to_id server n input from to t t' sound here booked positive

  accounts_after :
      (id : String)
      → view_row (lookup id t'.accounts) ≡ pay_accounts input.transfer (view server t).accounts id
  accounts_after id = ground (
    arith,
    (Moved.moved-IsEntry server n input from to t t' sound here booked positive).accounts id,
    Moved.from_exact server n input from to t t' sound here booked positive,
    Moved.to_exact server n input from to t t' sound here booked positive,
    from_named,
    to_named,
    here.from_found,
    here.to_found,
    here.from_account,
    here.to_account,
    eq_iff id input.transfer.intent.to_account_id,
    eq_iff id input.transfer.intent.from_account_id,
  )

  fresh_intent : (id : String) → id ≢ input.transfer.id → lookup id t'.intents ≡ lookup id t.intents
  fresh_intent id other =
      ap (λ m. lookup id m) booked.intents
      ∙ lookup-insert id input.transfer.id intent t.intents
      ∙ ground (arith, eq_iff id input.transfer.id)

  -- The new row is the one of its actor and key.
  its_key :
      (actor key : String)
      → matches server actor key row ≡ true
      → (input.transfer.actor_id ≡ actor) × (input.transfer.idempotency_key ≡ key)
  its_key actor key same = (
    ground (arith, eq_iff input.transfer.actor_id actor),
    ground (arith, eq_iff input.transfer.idempotency_key key),
  )

  new_found :
      (actor key : String)
      → matches server actor key row ≡ true
      → find_rows server actor key (insert row.id row t.transactions) t'.intents
        ≡ some (row, intent)
  new_found actor key same =
      let (its_actor, its) = its_key actor key same in
      find_rows-insert server actor key row intent t.transactions t'.intents booked.fresh
        (ap (λ a. has_key a (some key) t.transactions) (sym its_actor)
          ∙ ap (λ k. has_key input.transfer.actor_id (some k) t.transactions) (sym its)
          ∙ booked.unkeyed)
        same
        (ap (λ m. lookup input.transfer.id m) booked.intents
          ∙ lookup-insert_self input.transfer.id intent t.intents)

  new_receipt :
      (actor key : String)
      → matches server actor key row ≡ true
      → view_rows server key (some (row, intent))
        ≡ pay_receipts input.transfer (view server t).paid actor key
  new_receipt actor key same =
      let (its_actor, its) = its_key actor key same in
      ground (
        arith,
        from_named,
        to_named,
        here.its_currency,
        eq_iff actor input.transfer.actor_id,
        eq_iff key input.transfer.idempotency_key,
      )

  found_after :
      (actor key : String)
      → view_rows server key (find_rows server actor key t'.transactions t'.intents)
        ≡ pay_receipts input.transfer (view server t).paid actor key
  found_after actor key =
      ap (λ rows. view_rows server key (find_rows server actor key rows t'.intents))
        booked.transactions
      ∙ elim (Bool-cases (matches server actor key row)) [
        | inl same ↦
            ap (view_rows server key) (new_found actor key same) ∙ new_receipt actor key same
        | inr other ↦
            ap (view_rows server key) (
              find_rows-other server actor key row t.transactions t.intents t'.intents
                (rows-AreKeyed server t sound) booked.fresh other fresh_intent)
            ∙ ground (
              arith,
              other,
              eq_iff actor input.transfer.actor_id,
              eq_iff input.transfer.actor_id actor,
              eq_iff key input.transfer.idempotency_key,
              eq_iff input.transfer.idempotency_key key,
            )
      ]

  booked-pay : view server t' ≡ pay input.transfer (view server t)
  booked-pay = λ i. record {
    accounts = λ id. accounts_after id i;
    paid = λ actor key. found_after actor key i;
  }

  booked-IsPayable : IsPayable input.transfer (view server t)
  booked-IsPayable = record {
    from = holding_of from;
    to = holding_of to;
    from_known = ap view_row here.from_found ∙ ap (λ a. some (holding_of a)) here.from_account;
    to_known = ap view_row here.to_found ∙ ap (λ a. some (holding_of a)) here.to_account;
    distinct = here.distinct;
    from_customer = here.from_customer;
    to_customer = here.to_customer;
    from_currency = here.its_currency;
    to_currency = sym here.one_currency ∙ here.its_currency;
    positive = positive;
    covered = here.covered;
    room = omega (
      arith,
      Moved.room server n input from to t t' sound here booked positive,
      -ℤ_parts max_int64 amount,
      +ℤ_parts to.balance_minor amount,
    );
    unpaid = ap (view_rows server input.transfer.idempotency_key) (
        find_rows-unkeyed server input.transfer.actor_id input.transfer.idempotency_key
          t.transactions t.intents booked.unkeyed);
  }

-- What `findIdempotentTransfer` returns stands in the abstract ledger.
stored_receipt :
    (server : Server) (key : String) (rows : Option (TransactionRow × IntentRow))
    (existing : Option Transfer)
    → check_stored server key rows ≡ ok existing
    → view_rows server key rows ≡ elim existing [ none ↦ none | some t ↦ some (receipt_of t) ]
stored_receipt server key none none h = refl
stored_receipt server key none (some t) h = cc
stored_receipt server key (some (r, i)) none h = ground arith
stored_receipt server key (some (r, i)) (some t) h = ground arith

check_intent-same :
    (server : Server) (existing t : Transfer) (r : TransferResult)
    → check_intent server existing t ≡ ok r
    → (existing.intent ≡ t.intent) × (r ≡ record { transfer = existing; replayed = true })
unfolding check_intent
check_intent-same server existing t r h = ground (arith, intent_equal_iff existing.intent t.intent)

module _ (server : Server) (n : Numbers) (input : ApplyTransferInput) (t t' : Tables)
    (r : TransferResult) (sound : IsSound server t) (valid : validate_transfer input ≡ ok tt) where
  answer-Answered :
      (existing : Option Transfer)
      → find_idempotent_transfer server input.transfer t ≡ ok existing
      → answer server n input existing t ≡ (ok r, t')
      → Answered input.transfer r (view server t) (view server t')
  unfolding answer find_idempotent_transfer
  answer-Answered (some existing) found h =
      let (intent, unchanged) = lifted_ok _ t t' h in
      let (same, its) = check_intent-same server existing input.transfer r intent in
      again (ap (λ (x : TransferResult). x.replayed) its)
        (stored_receipt server input.transfer.idempotency_key _ _ found
          ∙ ap (λ (x : TransferResult). some (receipt_of x.transfer)) (sym its))
        (ap (λ (x : TransferResult). x.transfer.intent) its ∙ same) (ap (view server) unchanged)
  answer-Answered none found h =
      let ((from, to), t₁, m, h₁) = >>=-runs _ _ t h in
      let (known, same) = asked_ok (find_accounts server input.transfer) t t₁ m in
      let (booked, its) = record_transfer-IsBooked server n input from to t t' r (
        subst (λ (s : Tables). record_transfer server n input (from, to) s ≡ (ok r, t')) same h₁) in
      let here = find_accounts-AreAccounts server input.transfer t from to known in
      newly (ap (λ (x : TransferResult). x.replayed) its)
        (ap (λ (x : TransferResult). x.transfer) its)
        (booked-IsPayable server n input from to t t' sound here booked
          (transfer_positive input valid))
        (booked-pay server n input from to t t' sound here booked (transfer_positive input valid))

  pub apply_transfer_tx-Answered :
      apply_transfer_tx server n input t ≡ (ok r, t')
      → Answered input.transfer r (view server t) (view server t')
  unfolding apply_transfer_tx
  apply_transfer_tx-Answered h =
      let (existing, t₁, m, h₁) = >>=-runs _ _ t h in
      let (found, same) = asked_ok (find_idempotent_transfer server input.transfer) t t₁ m in
      answer-Answered existing found
        (subst (λ (s : Tables). answer server n input existing s ≡ (ok r, t')) same h₁)
