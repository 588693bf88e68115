-- ===== src/Prelude/Format.antt =====
-- Go's decimal and hexadecimal texts of numbers: `fmt.Sprintf("%d", n)` and `hex.EncodeToString`.
use Prim.Native.Nat.{ℕ, zero, suc, ◌+◌, ◌/◌, ◌%◌}
use Prim.Native.String.{String, ◌++◌, slice}
use mathlib.Core.List.{List, [], ◌∷◌}
use secure_ledger.Prelude.Tests.{ltb, if◌then◌else◌}
use secure_ledger.Prelude.Int.{ℤ, pos, negsuc}

-- The character of a digit below 16.
unfoldable pub digit : ℕ → String
digit n = slice "0123456789abcdef" n (n + 1)

-- The decimal digits of a number below 10 ^ fuel.
unfoldable pub decimal : ℕ → ℕ → String
decimal zero n = ""
decimal (suc fuel) n =
    let front = decimal fuel (n / 10) in if ltb n 10 then digit n else front ++ digit (n % 10)

-- `%d` of an int64, which has 19 digits at most.
unfoldable pub format_int : ℤ → String
unfolding decimal digit
format_int (pos n) = decimal 19 n
format_int (negsuc n) = "-" ++ decimal 19 (suc n)

-- `hex.EncodeToString`
unfoldable pub hex_encode : List ℕ → String
unfolding digit
hex_encode [] = ""
hex_encode (b ∷ bs) = digit (b / 16) ++ (digit (b % 16) ++ hex_encode bs)
