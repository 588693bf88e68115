-- ===== src/Postgres/Tests/Contract.antt =====
-- The contract of a repository at the tables of the tests.
use Prim.Native.Nat.{ℕ}
use secure_ledger.Prelude.{◌≡◌, refl, ok, Error, Bool, [], arith, string_Eq}
use secure_ledger.Prelude.Int.{pos}
use secure_ledger.Store.{TransferResult}
use secure_ledger.Contract.{Answered, Opened}
use secure_ledger.Memory.Tests.Bank.{opening}
use secure_ledger.Postgres.{Tables, Round, endless, committed, apply_transfer, create_account}
use secure_ledger.Postgres.Refines.{view}
use secure_ledger.Postgres.Refines.Others.{Between, FoundCommitted}
use secure_ledger.Postgres.Refines.Ledger.{
  AreShared, served_transfer-Answered, served_account-Opened,
}
use secure_ledger.Postgres.Tests.Bank.{sample, numbers, bank, bank-IsSound, paid, everything}

abbrev rounds : ℕ → Round
rounds i = record {
  meanwhile = λ t. t;
  numbers = numbers 5;
  attempt = committed;
  deadline = endless;
}

rounds-AreShared : (passing : Error → Bool) → AreShared sample passing rounds
rounds-AreShared passing = record {
  others = λ j. [];
  typed = λ j. tt;
  between = λ j t. refl;
  final = λ j e eq. cc;
}

granted : (r : TransferResult) × ((apply_transfer sample rounds paid bank).0 ≡ ok r)
unfolding everything
granted = (_, refl)

served_transfer-Answered_example :
    (s : Tables) × FoundCommitted rounds bank s
    × Answered paid.transfer granted.0
        (view sample s)
        (view sample (apply_transfer sample rounds paid bank).1)
served_transfer-Answered_example =
    served_transfer-Answered sample rounds bank paid granted.0 (rounds-AreShared _) bank-IsSound
      granted.1

opened : (create_account sample rounds (opening "acct_c" "post_c" (pos 7)) bank).0 ≡ ok tt
unfolding everything
opened = refl

served_account-Opened_example :
    (s : Tables) × Between sample bank s
    × Opened
        (opening "acct_c" "post_c" (pos 7)).account
        (view sample s)
        (view sample (create_account sample rounds (opening "acct_c" "post_c" (pos 7)) bank).1)
served_account-Opened_example =
    served_account-Opened sample rounds bank (opening "acct_c" "post_c" (pos 7))
      (rounds-AreShared _) (omega arith) bank-IsSound opened
