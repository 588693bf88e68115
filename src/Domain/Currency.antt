-- ===== src/Domain/Currency.antt =====
-- What `ValidateCurrency` accepts.
use Prim.Native.Char.{code}
use secure_ledger.Prelude.{String, len, ◌≡◌, refl, ◌↔◌, ◌≤◌, false, arith, ok, string_Eq, nat_Eq}
use secure_ledger.Domain.{validate_currency, has_lower, check_letters}

-- Every character is one of A-Z.
abbrev pub IsUpperText : String → Type 0
IsUpperText String.[] = Unit {0}
IsUpperText (String.◌∷◌ c s) = (b'A' ≤ code c) × (code c ≤ b'Z') × IsUpperText s

check_letters_iff : (v : String) → (check_letters v ≡ ok tt) ↔ IsUpperText v
unfolding check_letters
check_letters_iff String.[] = (λ _. tt, λ _. refl)
check_letters_iff (String.◌∷◌ c s) = ground (arith, check_letters_iff s)

-- The test for lower-case letters refuses nothing that the loop accepts.
has_lower-eq-false : (v : String) → IsUpperText v → has_lower v ≡ false
unfolding has_lower
has_lower-eq-false String.[] h = refl
has_lower-eq-false (String.◌∷◌ c s) h = ground (arith, has_lower-eq-false s h.2)

-- `validate_currency` accepts exactly the texts of three bytes whose characters are all A-Z.
pub validate_currency_iff :
    (v : String) → (validate_currency v ≡ ok tt) ↔ ((len v ≡ 3) × IsUpperText v)
unfolding validate_currency
validate_currency_iff v = ground (arith, check_letters_iff v, has_lower-eq-false v)
