-- ===== src/Transfer/Names/Numbered.antt =====
-- crates/localtrans-core/src/transfer/engine.rs: a file name with a number before its extension. The
-- stem and the extension are those of Rust's `Path`, for a name that is one component.
use Prim.Native.Char.{code}
use Prim.Native.String.{[], ◌∷◌, ◌++◌}
use localtrans.Base.{
  ℕ, ◌/◌, ◌%◌, Option, none, some, String, if◌then◌else◌, ltb, ◌==◌, ◌||◌, str_eq,
}

-- What is before and behind the last dot.
unfoldable pub split_last : String → Option (String × String)
split_last [] = none
split_last (c ∷ s) =
    let rest = split_last s in
    elim rest [
      | some (before, after) ↦ some (c ∷ before, after)
      | none ↦ if code c == 46 then some ([], s) else none
    ]

-- The stem and the extension: a dot in front, as in ".bashrc", begins no extension.
unfoldable pub stem_and_extension : String → String × Option String
unfolding split_last
stem_and_extension name = elim (split_last name) [
  | none ↦ (name, none)
  | some (before, after) ↦
      if str_eq before "" || str_eq name ".." then (name, none) else (before, some after)
]

unfoldable pub digit : ℕ → String
digit n =
    if n == 0
    then "0"
    else if n == 1
    then "1"
    else if n == 2
    then "2"
    else if n == 3
    then "3"
    else if n == 4
    then "4"
    else if n == 5
    then "5"
    else if n == 6
    then "6"
    else if n == 7
    then "7"
    else if n == 8
    then "8"
    else "9"

-- A number below 1000 in decimal.
unfoldable pub decimal : ℕ → String
unfolding digit
decimal n =
    if ltb n 10
    then digit n
    else if ltb n 100
    then digit (n / 10) ++ digit (n % 10)
    else digit (n / 100) ++ (digit (n / 10 % 10) ++ digit (n % 10))

unfoldable pub numbered : String → ℕ → String
unfolding stem_and_extension decimal
numbered name i =
    let parts = stem_and_extension name in
    let base = parts.0 ++ (" (" ++ (decimal i ++ ")")) in
    elim parts.1 [ none ↦ base | some ext ↦ base ++ ("." ++ ext) ]
