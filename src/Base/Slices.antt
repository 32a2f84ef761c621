-- ===== src/Base/Slices.antt =====
-- Lists by their places: what stands at a place of an appended, cut or repeated list.
use Prim.Native.Nat.{ℕ, zero, suc, ◌+◌, ◌-◌, ◌≤◌}
use mathlib.Core.Path.{◌≡◌, refl, ap, ◌∙◌}
use mathlib.Core.List.{List, [], ◌∷◌, ◌++◌}
use mathlib.Core.Option.{none}
use native.Mathlib.Omega.{arith}
use localtrans.Base.Bools.{if◌then◌else◌, ltb}
use localtrans.Base.Lists.{length, get_elem?, take, drop}

module _ {ℓ} {A : Type ℓ} where
  pub get_elem?-none : (xs : List A) (p : ℕ) → length xs ≤ p → get_elem? xs p ≡ none
  get_elem?-none [] p far = refl
  get_elem?-none (x ∷ xs) zero far = absurd (omega arith)
  get_elem?-none (x ∷ xs) (suc p) far = get_elem?-none xs p (omega (arith, far))

  pub length_of_get_elem? : (xs : List A) (p : ℕ) → get_elem? xs p ≡ none → length xs ≤ p
  length_of_get_elem? [] p h = omega arith
  length_of_get_elem? (x ∷ xs) zero h = absurd (ground arith)
  length_of_get_elem? (x ∷ xs) (suc p) h = omega (arith, length_of_get_elem? xs p h)

  pub get_elem?-append :
      (xs ys : List A) (p : ℕ)
      → get_elem? (xs ++ ys) p
        ≡ (if ltb p (length xs) then get_elem? xs p else get_elem? ys (p - length xs))
  get_elem?-append [] ys p = ground arith
  get_elem?-append (x ∷ xs) ys zero = ground arith
  get_elem?-append (x ∷ xs) ys (suc p) = get_elem?-append xs ys p ∙ ground arith

  pub get_elem?-take :
      (n : ℕ) (xs : List A) (p : ℕ)
      → get_elem? (take n xs) p ≡ (if ltb p n then get_elem? xs p else none)
  get_elem?-take zero xs p = ground arith
  get_elem?-take (suc n) [] p = ground arith
  get_elem?-take (suc n) (x ∷ xs) zero = ground arith
  get_elem?-take (suc n) (x ∷ xs) (suc p) = get_elem?-take n xs p ∙ ground arith

  pub get_elem?-drop :
      (n : ℕ) (xs : List A) (p : ℕ) → get_elem? (drop n xs) p ≡ get_elem? xs (n + p)
  get_elem?-drop zero xs p = let same : p ≡ 0 + p = omega arith in ap (λ k. get_elem? xs k) same
  get_elem?-drop (suc n) [] p = refl
  get_elem?-drop (suc n) (x ∷ xs) p =
      let same : suc (n + p) ≡ suc n + p = omega arith in
      get_elem?-drop n xs p ∙ ap (λ k. get_elem? (x ∷ xs) k) same

  pub list_ext : (xs ys : List A) → ((p : ℕ) → get_elem? xs p ≡ get_elem? ys p) → xs ≡ ys
  list_ext [] [] same = refl
  list_ext [] (y ∷ ys) same = absurd (ground (arith, same 0))
  list_ext (x ∷ xs) [] same = absurd (ground (arith, same 0))
  list_ext (x ∷ xs) (y ∷ ys) same =
      let rest = list_ext xs ys (λ p. same (suc p)) in ground (arith, same 0, rest)
