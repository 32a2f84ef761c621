-- ===== src/Transfer/Names/Safe.antt =====
-- crates/localtrans-core/src/transfer/mod.rs: a name that passes is one component of a path.
use Prim.Native.Char.{code}
use Prim.Native.String.{[], ◌∷◌, len}
use localtrans.Base.{
  ℕ, ◌≤◌, ◌≡◌, refl, sym, ap, Bool, true, false, ◌||◌, String, arith, ◌==◌, ok, str_eq,
}
use localtrans.Transfer.Names.{
  is_ctrl, is_forbidden, strip, has_forbidden, checked_name, sanitize_file_name,
}

-- A text has a character with a number.
abbrev pub contains_code : ℕ → String → Bool
contains_code n [] = false
contains_code n (c ∷ s) = code c == n || contains_code n s

strip-strip : (s : String) → strip (strip s) ≡ strip s
unfolding strip
strip-strip [] = refl
strip-strip (c ∷ s) = ground (arith, strip-strip s)

strip-is_ctrl : (n : ℕ) (s : String) → contains_code n (strip s) ≡ true → is_ctrl n ≡ false
unfolding strip
strip-is_ctrl n [] h = absurd (ground arith)
strip-is_ctrl n (c ∷ s) h = ground (arith, strip-is_ctrl n s, ap is_ctrl {x = code c} {y = n})

has_forbidden-code :
    (n : ℕ) (s : String)
    → has_forbidden s ≡ false
    → contains_code n s ≡ true
    → is_forbidden n ≡ false
unfolding has_forbidden
has_forbidden-code n [] clean h = absurd (ground arith)
has_forbidden-code n (c ∷ s) clean h =
    ground (arith, has_forbidden-code n s, ap is_forbidden {x = code c} {y = n})

checked_name-ok :
    (s clean : String)
    → checked_name s ≡ ok clean
    → (s ≡ clean)
      × (has_forbidden s ≡ false)
      × (str_eq s "" || str_eq s "." || str_eq s ".." ≡ false)
      × (len s ≤ 255)
unfolding checked_name
checked_name-ok s clean h = (ground arith, ground arith, ground arith, ground arith)

-- What `sanitize_file_name` returns is the given name without its control characters; it has none
-- of them and no separator of paths, is not empty and not one of the two names of directories, has
-- at most 255 bytes, and passes again unchanged.
pub sanitize_file_name-safe :
    (name clean : String)
    → sanitize_file_name name ≡ ok clean
    → (clean ≡ strip name)
      × ((n : ℕ) → contains_code n clean ≡ true → (is_ctrl n ≡ false) × (is_forbidden n ≡ false))
      × (str_eq clean "" || str_eq clean "." || str_eq clean ".." ≡ false)
      × (len clean ≤ 255)
      × (sanitize_file_name clean ≡ ok clean)
unfolding sanitize_file_name checked_name
sanitize_file_name-safe name clean h =
    let parts = checked_name-ok (strip name) clean h in
    let same = parts.0 in
    let again : sanitize_file_name (strip name) ≡ ok clean =
      rw (strip-strip name, sanitize_file_name) h in
    (
      sym same,
      λ n has. (
        strip-is_ctrl n name (rw same has),
        has_forbidden-code n (strip name) parts.1 (rw same has),
      ),
      rw same at parts.2,
      rw same at parts.3,
      rw same at again,
    )
