-- ===== src/Postgres/Inputs.antt =====
-- `validateCreateAccount`, `validateTransfer` and the classification of errors, of
-- internal/store/postgres/store.go. Its `systemAccountID` and `normaliseLimit` are the in-memory store's.
use text.Mathlib.Text.{starts_with, find?}
use secure_ledger.Prelude.{
  String, len, count, Bool, true, false, ◌&&◌, ◌||◌, none, some, List, [], ◌∷◌, ltb, if◌then◌else◌,
  ◌==◌, string_Eq, Error, invalid_input, database, Done, ok, ◌>>◌, raise_if,
}
use secure_ledger.Prelude.Int.{pos, ltb_ℤ, leb_ℤ}
use secure_ledger.Prelude.Int64.{neg64}
use secure_ledger.Domain.{
  Account, Transfer, Posting, is_zero, validate_currency, validate_balanced, validate_audit_record,
  validate_risk_event,
}
use secure_ledger.Memory.{system_account_id, unusable, not_two_ids, if_some}
use secure_ledger.Store.{CreateAccountInput, ApplyTransferInput}

-- The two postings that `validateCreateAccount` balances, with no sequence and no time.
abbrev pub draft_postings : CreateAccountInput → List Posting
draft_postings input =
    record {
      id = input.opening_posting_ids.0;
      transaction_id = input.opening_transaction_id;
      account_id = input.account.id;
      amount_minor = input.account.balance_minor;
      currency = input.account.currency;
      sequence = pos 0;
      created_at = 0;
    }
    ∷ record {
      id = input.opening_posting_ids.1;
      transaction_id = input.opening_transaction_id;
      account_id = system_account_id input.account.currency;
      amount_minor = neg64 input.account.balance_minor;
      currency = input.account.currency;
      sequence = pos 0;
      created_at = 0;
    }
    ∷ []

abbrev pub when_funded : Bool → Done → Done
when_funded true check = check
when_funded false check = ok tt

-- The first guard of `validateCreateAccount`.
abbrev pub unusable_account : Account → Bool
unusable_account a =
    unusable a.id
    || unusable a.owner_id
    || is_zero a.created_at
    || a.system
    || starts_with a.id "system:"
    || ltb_ℤ a.balance_minor (pos 0)

unfoldable pub validate_create_account : CreateAccountInput → Done
validate_create_account input = do
  raise_if (unusable_account input.account) invalid_input
  validate_currency input.account.currency
  validate_audit_record input.audit "" input.account.id
  when_funded (ltb_ℤ (pos 0) input.account.balance_minor) (
      raise_if (input.opening_transaction_id == "" || not_two_ids input.opening_posting_ids)
        invalid_input
      >> validate_balanced (draft_postings input))

-- The first guard of `validateTransfer`.
abbrev pub unusable_transfer : Transfer → Bool
unusable_transfer t =
    unusable t.id
    || ltb (len t.idempotency_key) 8
    || ltb 128 (len t.idempotency_key)
    || unusable t.actor_id
    || is_zero t.created_at
    || unusable t.intent.from_account_id
    || unusable t.intent.to_account_id
    || leb_ℤ t.intent.amount_minor (pos 0)
    || ltb 200 (count t.intent.description)

unfoldable pub validate_transfer : ApplyTransferInput → Done
validate_transfer input = do
  raise_if (unusable_transfer input.transfer) invalid_input
  validate_currency input.transfer.currency
  raise_if (not_two_ids input.posting_ids) invalid_input
  validate_audit_record input.audit input.transfer.actor_id input.transfer.id
  if_some input.risk (λ event. validate_risk_event event input.transfer.id)

-- `isRetryable`: a serialization failure or a deadlock.
unfoldable pub is_retryable : Error → Bool
is_retryable (database code name) = code == "40001" || code == "40P01"
is_retryable _ = false

-- `strings.Contains`
abbrev contains_text : String → String → Bool
contains_text s t = elim (find? s t) [ none ↦ false | some _ ↦ true ]

-- `isIdempotencyRace`
unfoldable pub is_idempotency_race : Error → Bool
is_idempotency_race (database code name) =
    code == "23505" && contains_text name "actor_id_idempotency_key"
is_idempotency_race _ = false

-- `mapDatabaseError`. An error that it wraps stays what it is for `errors.Is` and `errors.As`.
unfoldable pub map_database_error : Error → Error
map_database_error (database code name) =
    if code == "23503" || code == "23505" || code == "23514" || code == "22003"
    then invalid_input
    else database code name
map_database_error e = e
