-- ===== src/Domain.antt =====
-- internal/domain/model.go: the types and their validation.
mod Model
pub mod Currency
pub mod Balanced
pub mod Records
mod Tests
pub use Model.*
use Prim.Native.Char.{code}
use secure_ledger.Prelude.{
  ℕ, String, len, ◌≡◌, Bool, true, false, not, ◌&&◌, ◌||◌, List, [], ◌∷◌, ltb, if◌then◌else◌, ◌==◌,
  string_Eq, nat_Eq, length, Error, invalid_input, currency_mismatch, Result, Done, ok, err, ◌>>=◌,
  ◌>>◌, raise_if,
}
use secure_ledger.Prelude.Int.{ℤ, pos, ltb_ℤ, leb_ℤ}
use secure_ledger.Prelude.Int64.{max_int64, min_int64, add64, sub64}
use secure_ledger.Prelude.Text.{is_blank}

-- `time.Time.IsZero`
abbrev pub is_zero : Time → Bool
is_zero t = t == 0

-- `Principal.Valid`
unfoldable pub is_valid : Principal → Bool
is_valid p =
    if is_blank p.id || ltb 128 (len p.id)
    then false
    else p.role == role_customer
      || p.role == role_operator
      || p.role == role_admin
      || p.role == role_auditor

-- `strings.ToUpper(v) != v` for ASCII. Of the other letters that `ToUpper` changes, none passes the
-- test for A-Z that follows it, which refuses with the same error.
has_lower : String → Bool
has_lower String.[] = false
has_lower (String.◌∷◌ c s) = (not (ltb (code c) b'a') && not (ltb b'z' (code c))) || has_lower s

-- The loop of `ValidateCurrency`.
check_letters : String → Done
check_letters String.[] = ok tt
check_letters (String.◌∷◌ c s) = do
  raise_if (ltb (code c) b'A' || ltb b'Z' (code c)) invalid_input
  check_letters s

unfoldable pub validate_currency : String → Done
unfolding has_lower check_letters
validate_currency v = do raise_if (not (len v == 3) || has_lower v) invalid_input; check_letters v

-- `TransferIntent.Equal`
unfoldable pub intent_equal : TransferIntent → TransferIntent → Bool
intent_equal i other =
    i.from_account_id == other.from_account_id
    && i.to_account_id == other.to_account_id
    && (leb_ℤ i.amount_minor other.amount_minor && leb_ℤ other.amount_minor i.amount_minor)
    && i.description == other.description

-- The overflow guard of `ValidateBalanced`, on the sum so far and the next amount.
sum_overflows : ℤ → ℤ → Bool
sum_overflows sum amount =
    (ltb_ℤ (pos 0) amount && ltb_ℤ (sub64 max_int64 amount) sum)
    || (ltb_ℤ amount (pos 0) && ltb_ℤ sum (sub64 min_int64 amount))

-- The tests of one posting in the loop of `ValidateBalanced`.
check_posting : String → ℤ → Posting → Done
unfolding sum_overflows
check_posting currency sum p = do
  raise_if (is_blank p.id || is_blank p.transaction_id || is_blank p.account_id) invalid_input
  raise_if (leb_ℤ p.amount_minor (pos 0) && leb_ℤ (pos 0) p.amount_minor) invalid_input
  raise_if (not (p.currency == currency)) currency_mismatch
  raise_if (sum_overflows sum p.amount_minor) invalid_input

-- The loop of `ValidateBalanced`: the sum of the postings, from the sum so far.
unfoldable pub sum_postings : String → ℤ → List Posting → Result ℤ
unfolding check_posting
sum_postings currency sum [] = ok sum
sum_postings currency sum (p ∷ ps) = do
  check_posting currency sum p
  sum_postings currency (add64 sum p.amount_minor) ps

unfoldable pub validate_balanced : List Posting → Done
validate_balanced [] = err invalid_input
validate_balanced (p ∷ ps) = do
  raise_if (ltb (length (p ∷ ps)) 2) invalid_input
  let currency = p.currency
  validate_currency currency
  sum ← sum_postings currency (pos 0) (p ∷ ps)
  raise_if (not (leb_ℤ sum (pos 0) && leb_ℤ (pos 0) sum)) invalid_input

-- `strings.TrimSpace(s) == "" || len(s) > limit`
abbrev misfits : ℕ → String → Bool
misfits limit s = is_blank s || ltb limit (len s)

unfoldable pub validate_audit_record : AuditRecord → String → String → Done
validate_audit_record record' expected_actor_id expected_resource_id = do
  raise_if
      (misfits 128 record'.id
        || misfits 128 record'.actor_id
        || misfits 128 record'.action
        || misfits 128 record'.resource_id
        || misfits 64 record'.outcome
        || is_zero record'.created_at)
      invalid_input
  raise_if (not (expected_actor_id == "") && not (record'.actor_id == expected_actor_id))
      invalid_input
  raise_if (not (record'.resource_id == expected_resource_id)) invalid_input

unfoldable pub validate_risk_event : RiskEvent → String → Done
validate_risk_event event expected_transfer_id = do
  raise_if
      (misfits 128 event.id
        || misfits 64 event.kind
        || not (event.transfer_id == expected_transfer_id)
        || misfits 500 event.reason
        || is_zero event.created_at)
      invalid_input
  raise_if
      (not (
        event.severity == "low"
        || event.severity == "medium"
        || event.severity == "high"
        || event.severity == "critical"))
      invalid_input
