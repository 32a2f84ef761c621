-- ===== src/Transfer/Names.antt =====
-- crates/localtrans-core/src/transfer/mod.rs: `sanitize_file_name`, for the names that another device
-- gives to files. A character is known by its number.
mod Reserved
pub mod Numbered
pub mod Safe
use Prim.Native.Char.{Char, code}
use Prim.Native.String.{[], ◌∷◌, len}
use localtrans.Base.{
  ℕ, ◌-◌, Bool, true, false, ◌&&◌, ◌||◌, not, any, String, if◌then◌else◌, ltb, leb, ◌==◌, str_eq,
  Result, ok, err,
}
use localtrans.Transfer.Names.Reserved.{reserved}

pub data NameError : Type 0 where
  empty_name bad_character traversal reserved_name trailing_dot_or_space too_long : NameError

-- A control character or one that changes the direction of text.
unfoldable pub is_ctrl : ℕ → Bool
is_ctrl n = leb n 31 || n == 127 || (leb 8234 n && leb n 8238) || (leb 8294 n && leb n 8297)

-- A separator of paths or a character that Windows forbids: / \ : * ? " < > |
unfoldable pub is_forbidden : ℕ → Bool
is_forbidden n =
    n == 47 || n == 92 || n == 58 || n == 42 || n == 63 || n == 34 || n == 60 || n == 62 || n == 124

unfoldable pub strip : String → String
unfolding is_ctrl
strip [] = []
strip (c ∷ s) = let rest = strip s in if is_ctrl (code c) then rest else c ∷ rest

unfoldable pub has_forbidden : String → Bool
unfolding is_forbidden
has_forbidden [] = false
has_forbidden (c ∷ s) = is_forbidden (code c) || has_forbidden s

unfoldable pub upper : ℕ → ℕ
upper n = if leb 97 n && leb n 122 then n - 32 else n

-- The name up to its first dot is, in upper case, a word that has no dot.
unfoldable pub stem_is : String → String → Bool
unfolding upper
stem_is [] [] = true
stem_is [] (d ∷ word) = false
stem_is (c ∷ s) [] = code c == 46
stem_is (c ∷ s) (d ∷ word) = not (code c == 46) && (upper (code c) == code d && stem_is s word)

unfoldable pub ends_badly : String → Bool
ends_badly [] = false
ends_badly (c ∷ []) = code c == 46 || code c == 32
ends_badly (c ∷ d ∷ s) = ends_badly (d ∷ s)

unfoldable pub checked_name : String → Result NameError String
unfolding has_forbidden stem_is ends_badly
checked_name cleaned =
    if str_eq cleaned ""
    then err empty_name
    else if has_forbidden cleaned
    then err bad_character
    else if str_eq cleaned "." || str_eq cleaned ".."
    then err traversal
    else if any (stem_is cleaned) reserved
    then err reserved_name
    else if ends_badly cleaned
    then err trailing_dot_or_space
    else if ltb 255 (len cleaned)
    then err too_long
    else ok cleaned

unfoldable pub sanitize_file_name : String → Result NameError String
unfolding strip checked_name
sanitize_file_name name = checked_name (strip name)
