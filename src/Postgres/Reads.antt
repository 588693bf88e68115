-- ===== src/Postgres/Reads.antt =====
-- The rows that `createAccountTx` and `applyTransferTx` of internal/store/postgres/store.go read, and
-- their tests of them.
use secure_ledger.Prelude.{
  ℕ, String, Bool, true, false, not, ◌||◌, ◌&&◌, nat_Eq, Option, none, some, List, [], ◌∷◌,
  if◌then◌else◌, ◌==◌, string_Eq, Result, Done, ok, err, ◌>>=◌, ◌>>◌, raise_if, invalid_input,
  not_found, currency_mismatch, insufficient_funds, idempotency_conflict, internal,
}
use secure_ledger.Prelude.Int.{ℤ, ltb_ℤ}
use secure_ledger.Prelude.Int64.{min_int64, max_int64, add64, sub64}
use secure_ledger.Prelude.Map.{Map, lookup}
use secure_ledger.Domain.{Account, Transfer, intent_equal}
use secure_ledger.Store.{TransferResult}
use secure_ledger.Postgres.Schema.{Tables, AccountRow, TransactionRow, IntentRow}
use secure_ledger.Postgres.Rows.{transfer_fingerprint, Server}

-- `bytes.Equal`
abbrev pub same_bytes : List ℕ → List ℕ → Bool
same_bytes [] [] = true
same_bytes [] (b ∷ bs) = false
same_bytes (a ∷ as') [] = false
same_bytes (a ∷ as') (b ∷ bs) = a == b && same_bytes as' bs

module _ (server : Server) where
  -- The `SELECT ... FOR UPDATE` of the system account and the tests of its columns.
  abbrev pub check_system : Account → Option AccountRow → Result ℤ
  check_system a none = err internal
  check_system a (some r) = do
    raise_if
        (not r.account.system
          || not (r.account.owner_id == "system")
          || not (r.account.currency == a.currency))
        invalid_input
    raise_if (ltb_ℤ r.account.balance_minor (add64 min_int64 a.balance_minor)) invalid_input
    ok r.account.balance_minor

  -- `findIdempotentTransfer`: the rows of the actor's key, and the stored fingerprint against the one of
  -- the transfer that they make up.
  abbrev pub stored_transfer : TransactionRow → String → IntentRow → Transfer
  stored_transfer r key i = record {
    id = r.id;
    idempotency_key = key;
    intent = record {
      from_account_id = i.from_account_id;
      to_account_id = i.to_account_id;
      amount_minor = i.amount_minor;
      description = r.description;
    };
    currency = r.currency;
    actor_id = r.actor_id;
    created_at = r.created_at;
  }

  abbrev pub matches : String → String → TransactionRow → Bool
  matches actor key r =
      r.kind == "transfer"
      && r.actor_id == actor
      && elim r.idempotency_key [ none ↦ false | some k ↦ k == key ]

  -- The join, of which the unique key leaves one row at most.
  abbrev pub find_rows :
      String
      → String
      → Map String TransactionRow
      → Map String IntentRow
      → Option (TransactionRow × IntentRow)
  find_rows actor key [] intents = none
  find_rows actor key ((_, r) ∷ rows) intents =
      let rest = find_rows actor key rows intents in
      if matches actor key r
      then elim (lookup r.id intents) [ none ↦ rest | some i ↦ some (r, i) ]
      else rest

  abbrev pub check_stored : String → Option (TransactionRow × IntentRow) → Result (Option Transfer)
  check_stored key none = ok none
  check_stored key (some (r, i)) =
      let t = stored_transfer r key i in
      if same_bytes i.request_fingerprint (transfer_fingerprint server t.actor_id t.intent)
      then ok (some t)
      else err internal

  unfoldable pub find_idempotent_transfer : Transfer → Tables → Result (Option Transfer)
  find_idempotent_transfer t s =
      check_stored t.idempotency_key
        (find_rows t.actor_id t.idempotency_key s.transactions s.intents)

  unfoldable pub check_intent : Transfer → Transfer → Result TransferResult
  check_intent existing t = do
    raise_if (not (intent_equal existing.intent t.intent)) idempotency_conflict
    ok (record { transfer = existing; replayed = true })

  -- `lockAccounts`, of two different ids: a row that is missing or a system account is left out.
  abbrev pub customer : Option AccountRow → Option Account
  customer none = none
  customer (some r) = if r.account.system then none else some r.account

  abbrev pub both : Option Account → Option Account → Result (Account × Account)
  both (some a) (some b) = ok (a, b)
  both (some a) none = err not_found
  both none b = err not_found

  -- The tests of `applyTransferTx` on the two accounts.
  unfoldable pub check_accounts : Transfer → Account × Account → Done
  check_accounts t accounts = do
    raise_if
        (not (accounts.0.currency == accounts.1.currency)
          || not (accounts.0.currency == t.currency))
        currency_mismatch
    raise_if (ltb_ℤ accounts.0.balance_minor t.intent.amount_minor) insufficient_funds
    raise_if (ltb_ℤ (sub64 max_int64 t.intent.amount_minor) accounts.1.balance_minor) invalid_input

  -- The accounts that `applyTransferTx` goes on with, before its first write.
  unfoldable pub find_accounts : Transfer → Tables → Result (Account × Account)
  find_accounts t s = do
    raise_if (t.intent.from_account_id == t.intent.to_account_id) invalid_input
    accounts ←
        both (customer (lookup t.intent.from_account_id s.accounts))
          (customer (lookup t.intent.to_account_id s.accounts))
    check_accounts t accounts
    ok accounts
