-- ===== src/Memory/Tests/Contract.antt =====
-- The contract of a repository at the bank of the tests.
use secure_ledger.Prelude.{◌≡◌, refl, none, ok, arith, string_Eq}
use secure_ledger.Prelude.Int.{pos}
use secure_ledger.Store.{TransferResult}
use secure_ledger.Contract.{Answered, Opened}
use secure_ledger.Memory.{apply_transfer, create_account, apply_new}
use secure_ledger.Memory.Refines.{view}
use secure_ledger.Memory.Refines.Ledger.{apply_transfer-Answered, create_account-Opened}
use secure_ledger.Memory.Tests.Bank.{bank, bank-IsSound, payment, opening, everything}

granted :
    (r : TransferResult) × ((apply_transfer none (payment "txn_9" "key-0009" (pos 50)) bank).0
      ≡ ok r)
unfolding everything apply_new
granted = (_, refl)

apply_transfer-Answered_example :
    Answered
      (payment "txn_9" "key-0009" (pos 50)).transfer
      granted.0
      (view bank)
      (view (apply_transfer none (payment "txn_9" "key-0009" (pos 50)) bank).1)
apply_transfer-Answered_example =
    apply_transfer-Answered none (payment "txn_9" "key-0009" (pos 50)) bank granted.0 bank-IsSound
      granted.1

opened : (create_account none (opening "acct_c" "post_c" (pos 7)) bank).0 ≡ ok tt
unfolding everything apply_new
opened = refl

create_account-Opened_example :
    Opened
      (opening "acct_c" "post_c" (pos 7)).account
      (view bank)
      (view (create_account none (opening "acct_c" "post_c" (pos 7)) bank).1)
create_account-Opened_example =
    create_account-Opened none (opening "acct_c" "post_c" (pos 7)) bank (omega arith) bank-IsSound
      opened
