-- ===== src/Memory/Transfers.antt =====
-- The checks and the writes of `ApplyTransfer` in the in-memory store.
use secure_ledger.Prelude.{
  String, len, count, true, not, ◌||◌, Option, none, some, List, [], ◌∷◌, ◌++◌, ltb, ◌==◌,
  string_Eq, Result, Done, ok, ◌>>=◌, ◌>>◌, raise_if, invalid_input, insufficient_funds,
  currency_mismatch, idempotency_conflict,
}
use secure_ledger.Prelude.Int.{ℤ, pos, ltb_ℤ, leb_ℤ}
use secure_ledger.Prelude.Int64.{max_int64, add64, sub64, neg64}
use secure_ledger.Prelude.Map.{Map, insert}
use secure_ledger.Domain.{
  Account, Transfer, Posting, RiskEvent, is_zero, intent_equal, validate_audit_record,
  validate_risk_event,
}
use secure_ledger.Store.{ApplyTransferInput, TransferResult}
use secure_ledger.Memory.State.{Store, Scope, scope_Eq}
use secure_ledger.Memory.Audit.{clone_audit}
use secure_ledger.Memory.Accounts.{
  unusable, not_two_ids, check_new, check_new_postings, find_customer_account,
}

check_identity : Transfer → Done
check_identity t = do
  raise_if
      (unusable t.id
        || ltb (len t.idempotency_key) 8
        || ltb 128 (len t.idempotency_key)
        || unusable t.actor_id
        || is_zero t.created_at
        || unusable t.intent.from_account_id
        || unusable t.intent.to_account_id
        || ltb 200 (count t.intent.description))
      invalid_input

-- A check of a pointer that may be nil: `if in.Risk != nil { ... }`.
abbrev pub if_some : {A : Type 0} → Option A → (A → Done) → Done
if_some none f = ok tt
if_some (some a) f = f a

-- The tests of the request by itself, before the store is read.
unfoldable pub check_transfer_input : ApplyTransferInput → Done
unfolding check_identity
check_transfer_input input = do
  check_identity input.transfer
  raise_if (not_two_ids input.posting_ids) invalid_input
  validate_audit_record input.audit input.transfer.actor_id input.transfer.id
  if_some input.risk (λ event. validate_risk_event event input.transfer.id)

abbrev pub scope_of : Transfer → Scope
scope_of t = record { actor_id = t.actor_id; key = t.idempotency_key }

-- A request whose scope is known is the same request again, or a conflict.
unfoldable pub replay : ApplyTransferInput → Transfer → Result TransferResult
replay input existing = do
  raise_if (not (intent_equal existing.intent input.transfer.intent)) idempotency_conflict
  ok (record { transfer = existing; replayed = true })

unfoldable pub check_transfer_ids : ApplyTransferInput → Store → Done
check_transfer_ids input s = do
  check_new input.transfer.id s.transactions
  check_new_postings input.posting_ids s.postings
  check_new input.audit.id s.audits
  if_some input.risk (λ event. check_new event.id s.risks)

pub record Parties : Type 0 where
  pub from : Account
  pub to : Account

-- The two accounts, found, distinct and in the transfer's currency.
unfoldable pub find_parties : Transfer → Store → Result Parties
find_parties t s = do
  from ← find_customer_account t.intent.from_account_id s
  to ← find_customer_account t.intent.to_account_id s
  raise_if (from.id == to.id) invalid_input
  raise_if (not (from.currency == to.currency) || not (from.currency == t.currency))
      currency_mismatch
  ok (record { from = from; to = to })

unfoldable pub check_amount : ℤ → Parties → Done
check_amount amount p = do
  raise_if (leb_ℤ amount (pos 0)) invalid_input
  raise_if (ltb_ℤ p.from.balance_minor amount) insufficient_funds
  raise_if (ltb_ℤ (sub64 max_int64 amount) p.to.balance_minor) invalid_input

abbrev pub from_posting : ApplyTransferInput → Parties → ℤ → Posting
from_posting input p sequence = record {
  id = input.posting_ids.0;
  transaction_id = input.transfer.id;
  account_id = p.from.id;
  amount_minor = neg64 input.transfer.intent.amount_minor;
  currency = p.from.currency;
  sequence = add64 sequence (pos 1);
  created_at = input.transfer.created_at;
}

abbrev pub to_posting : ApplyTransferInput → Parties → ℤ → Posting
to_posting input p sequence = record {
  id = input.posting_ids.1;
  transaction_id = input.transfer.id;
  account_id = p.to.id;
  amount_minor = input.transfer.intent.amount_minor;
  currency = p.to.currency;
  sequence = add64 sequence (pos 2);
  created_at = input.transfer.created_at;
}

abbrev pub transfer_postings : ApplyTransferInput → Parties → ℤ → List Posting
transfer_postings input p sequence =
    from_posting input p sequence ∷ to_posting input p sequence ∷ []

-- `from.BalanceMinor -= amount` and `to.BalanceMinor += amount`, both stored under their own ids.
unfoldable pub move_balances : ℤ → Parties → Map String Account → Map String Account
move_balances amount p accounts =
    insert p.to.id (record p.to { balance_minor = add64 p.to.balance_minor amount })
      (insert p.from.id (record p.from { balance_minor = sub64 p.from.balance_minor amount })
        accounts)

-- `if in.Risk != nil { s.risk = append(...); s.risks[in.Risk.ID] = ... }`, field by field.
abbrev pub append_risk : Option RiskEvent → List RiskEvent → List RiskEvent
append_risk none events = events
append_risk (some event) events = events ++ event ∷ []

abbrev pub note_risk : Option RiskEvent → Map String Unit → Map String Unit
note_risk none ids = ids
note_risk (some event) ids = insert event.id tt ids

-- The writes of an accepted transfer.
unfoldable pub write_transfer : ApplyTransferInput → Parties → List Posting → Store → Store
write_transfer input p postings s = record s {
  accounts = move_balances input.transfer.intent.amount_minor p s.accounts;
  sequence = add64 s.sequence (pos 2);
  transactions = insert input.transfer.id tt s.transactions;
  postings = insert input.posting_ids.1 tt (insert input.posting_ids.0 tt s.postings);
  audits = insert input.audit.id tt s.audits;
  journal = s.journal ++ postings;
  audit = s.audit ++ clone_audit input.audit ∷ [];
  risk = append_risk input.risk s.risk;
  risks = note_risk input.risk s.risks;
  idempotency = insert (scope_of input.transfer) input.transfer s.idempotency;
}
