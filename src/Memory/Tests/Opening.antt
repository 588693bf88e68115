-- ===== src/Memory/Tests/Opening.antt =====
-- A third account is opened in the bank of the tests.
use secure_ledger.Prelude.{◌≡◌, refl, none, ok, arith, string_Eq}
use secure_ledger.Prelude.Int.{pos}
use secure_ledger.Store.{CreateAccountInput}
use secure_ledger.Memory.{create_account, apply_new}
use secure_ledger.Memory.Effects.Created.{HasOpened, create_account-HasOpened}
use secure_ledger.Memory.Tests.Bank.{opening, bank, bank-IsSound, everything}

abbrev third : CreateAccountInput
third = opening "acct_c" "post_c" (pos 5)

opens : (create_account none third bank).0 ≡ ok tt
unfolding everything apply_new
opens = refl

create_account-HasOpened_example : HasOpened third bank (create_account none third bank).1
create_account-HasOpened_example =
    create_account-HasOpened none third bank bank-IsSound (omega arith) opens
