-- ===== src/Domain/Tests.antt =====
-- The theorems on the domain's validations, applied to concrete data.
use secure_ledger.Prelude.{◌≡◌, ◌↔◌, [], ◌∷◌, List, String, ok, arith}
use secure_ledger.Prelude.Int.{ℤ, pos, negsuc}
use secure_ledger.Domain.{Posting, TransferIntent, validate_balanced}
use secure_ledger.Domain.Balanced.{AreInt64, IsBalanced, validate_balanced_iff}

abbrev posting : String → String → ℤ → Posting
posting id account amount = record {
  id = id;
  transaction_id = "txn_1";
  account_id = account;
  amount_minor = amount;
  currency = "GBP";
  sequence = pos 1;
  created_at = 7;
}

abbrev pair : List Posting
pair = posting "post_1" "acct_a" (negsuc 29) ∷ posting "post_2" "acct_b" (pos 30) ∷ []

pair-AreInt64 : AreInt64 pair
pair-AreInt64 = omega arith

validate_balanced_iff_example : (validate_balanced pair ≡ ok tt) ↔ IsBalanced pair
validate_balanced_iff_example = validate_balanced_iff pair pair-AreInt64

abbrev intent : ℤ → TransferIntent
intent amount = record {
  from_account_id = "acct_a";
  to_account_id = "acct_b";
  amount_minor = amount;
  description = "rent";
}
