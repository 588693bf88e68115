-- ===== src/Memory/Accounts.antt =====
-- The checks and the writes of `CreateAccount` in the in-memory store.
use text.Mathlib.Text.{starts_with}
use secure_ledger.Prelude.{
  String, len, ◌++ˢ◌, Bool, true, not, ◌||◌, none, some, List, [], ◌∷◌, ◌++◌, ltb, ◌==◌, string_Eq,
  Result, Done, ok, ◌>>=◌, ◌>>◌, raise_if, invalid_input, not_found, or_raise,
}
use secure_ledger.Prelude.Int.{ℤ, pos, ltb_ℤ}
use secure_ledger.Prelude.Int64.{min_int64, add64, sub64, neg64}
use secure_ledger.Prelude.Map.{Map, lookup, insert, contains}
use secure_ledger.Domain.{Account, Posting, is_zero, validate_currency, validate_audit_record}
use secure_ledger.Store.{CreateAccountInput}
use secure_ledger.Memory.State.{Store}
use secure_ledger.Memory.Audit.{clone_audit}

-- `systemAccountID`
unfoldable pub system_account_id : String → String
system_account_id currency = "system:equity:" ++ˢ currency

-- `len(s) == 0 || len(s) > 128`, written `s == "" || len(s) > 128`.
abbrev pub unusable : String → Bool
unusable s = s == "" || ltb 128 (len s)

-- `if _, exists := m[id]; exists { return ErrInvalidInput }`
abbrev pub check_new : String → Map String Unit → Done
check_new id m = raise_if (contains id m) invalid_input

-- The same for each of two posting ids.
unfoldable pub check_new_postings : String × String → Map String Unit → Done
check_new_postings ids m = check_new ids.0 m >> check_new ids.1 m

-- `ids[0] == "" || ids[1] == "" || ids[0] == ids[1]`
abbrev pub not_two_ids : String × String → Bool
not_two_ids ids = ids.0 == "" || ids.1 == "" || ids.0 == ids.1

-- The tests that every `CreateAccount` passes, whatever the opening balance.
unfoldable pub check_account : CreateAccountInput → Store → Done
check_account input s = do
  raise_if
      (unusable input.account.id
        || unusable input.account.owner_id
        || is_zero input.account.created_at
        || input.account.system
        || starts_with input.account.id "system:")
      invalid_input
  raise_if (contains input.account.id s.accounts) invalid_input
  validate_currency input.account.currency
  raise_if (ltb_ℤ input.account.balance_minor (pos 0)) invalid_input
  validate_audit_record input.audit "" input.account.id
  check_new input.audit.id s.audits

unfoldable pub check_opening_ids : CreateAccountInput → Store → Done
unfolding check_new_postings
check_opening_ids input s = do
  raise_if (input.opening_transaction_id == "" || not_two_ids input.opening_posting_ids)
      invalid_input
  check_new input.opening_transaction_id s.transactions
  check_new_postings input.opening_posting_ids s.postings

abbrev pub fresh_system_account : Account → Account
fresh_system_account account = record {
  id = system_account_id account.currency;
  owner_id = "system";
  currency = account.currency;
  balance_minor = pos 0;
  system = true;
  created_at = account.created_at;
}

-- The currency's system account, made on first use, if it can take the opening balance.
unfoldable pub system_account : Account → Store → Result Account
system_account account s = do
  found ← elim (lookup (system_account_id account.currency) s.accounts) [
    | none ↦ ok (fresh_system_account account)
    | some a ↦ do
      raise_if
          (not a.system || not (a.owner_id == "system") || not (a.currency == account.currency))
          invalid_input
      ok a
  ]
  raise_if (ltb_ℤ found.balance_minor (add64 min_int64 account.balance_minor)) invalid_input
  ok found

abbrev pub customer_posting : CreateAccountInput → ℤ → Posting
customer_posting input sequence = record {
  id = input.opening_posting_ids.0;
  transaction_id = input.opening_transaction_id;
  account_id = input.account.id;
  amount_minor = input.account.balance_minor;
  currency = input.account.currency;
  sequence = add64 sequence (pos 1);
  created_at = input.account.created_at;
}

abbrev pub equity_posting : CreateAccountInput → ℤ → Posting
equity_posting input sequence = record {
  id = input.opening_posting_ids.1;
  transaction_id = input.opening_transaction_id;
  account_id = system_account_id input.account.currency;
  amount_minor = neg64 input.account.balance_minor;
  currency = input.account.currency;
  sequence = add64 sequence (pos 2);
  created_at = input.account.created_at;
}

abbrev pub opening_postings : CreateAccountInput → ℤ → List Posting
opening_postings input sequence =
    customer_posting input sequence ∷ equity_posting input sequence ∷ []

-- The writes of an opening: the system account, the sequence, the used ids and the journal.
unfoldable pub write_opening : CreateAccountInput → Account → List Posting → Store → Store
write_opening input system_acct postings s = record s {
  accounts =
      insert (system_account_id input.account.currency)
        (record system_acct {
          balance_minor = sub64 system_acct.balance_minor input.account.balance_minor;
        })
        s.accounts;
  sequence = add64 s.sequence (pos 2);
  transactions = insert input.opening_transaction_id tt s.transactions;
  postings =
      insert input.opening_posting_ids.1 tt (insert input.opening_posting_ids.0 tt s.postings);
  journal = s.journal ++ postings;
}

-- The writes that every `CreateAccount` ends with.
unfoldable pub write_account : CreateAccountInput → Store → Store
write_account input s = record s {
  accounts = insert input.account.id input.account s.accounts;
  audits = insert input.audit.id tt s.audits;
  audit = s.audit ++ clone_audit input.audit ∷ [];
}

-- `account, ok := s.accounts[id]; if !ok || account.System { return ErrNotFound }`
unfoldable pub find_customer_account : String → Store → Result Account
find_customer_account id s = do
  account ← or_raise (lookup id s.accounts) not_found
  raise_if account.system not_found
  ok account
