-- ===== src/Transfer/Jobs/Radix.antt =====
-- Rust's `u64::from_str_radix` for base 16.
use Prim.Native.Char.{code}
use Prim.Native.String.{[], ◌∷◌}
use localtrans.Base.{
  ℕ, ◌+◌, ◌-◌, ◌*◌, ◌^◌, ◌&&◌, Option, none, some, String, if◌then◌else◌, ltb, leb, ◌==◌,
}

unfoldable pub hex_digit : ℕ → Option ℕ
hex_digit n =
    if leb 48 n && leb n 57
    then some (n - 48)
    else if leb 65 n && leb n 70
    then some (n - 55)
    else if leb 97 n && leb n 102
    then some (n - 87)
    else none

-- The digits behind a number that was read; none on another character or an overflow.
unfoldable pub digits : ℕ → String → Option ℕ
unfolding hex_digit
digits acc [] = some acc
digits acc (c ∷ s) = elim (hex_digit (code c)) [
  | none ↦ none
  | some d ↦ if ltb (acc * 16 + d) (2 ^ 64) then digits (acc * 16 + d) s else none
]

unfoldable pub from_str_radix_16 : String → Option ℕ
unfolding digits
from_str_radix_16 [] = none
from_str_radix_16 (c ∷ []) = digits 0 (c ∷ [])
from_str_radix_16 (c ∷ d ∷ s) = if code c == 43 then digits 0 (d ∷ s) else digits 0 (c ∷ d ∷ s)
