-- ===== src/Domain/Records.antt =====
-- What the comparison of transfer intents decides.
use secure_ledger.Prelude.{◌≡◌, ◌↔◌, true, arith, eq_iff, string_Eq}
use secure_ledger.Prelude.Int.{eq_of_parts}
use secure_ledger.Domain.{TransferIntent, intent_equal}

-- `intent_equal` is equality of transfer intents.
pub intent_equal_iff : (i j : TransferIntent) → (intent_equal i j ≡ true) ↔ (i ≡ j)
unfolding intent_equal
intent_equal_iff i j = ground (
  arith,
  eq_iff i.from_account_id j.from_account_id,
  eq_iff i.to_account_id j.to_account_id,
  eq_iff i.description j.description,
  eq_of_parts i.amount_minor j.amount_minor,
)
