-- ===== src/Base/Members.antt =====
-- What holds of all the members of a list, or of one.
use mathlib.Core.Path.{◌≡◌, refl}
use mathlib.Core.Logic.{inl, inr}
use mathlib.Core.Bool.{Bool, true, false}
use mathlib.Core.List.{List, [], ◌∷◌, ◌++◌}
use native.Mathlib.Omega.{arith}
use localtrans.Base.Lists.{All, Any}

module _ {A : Type 0} where
  pub All-append : (P : A → Type 0) (xs ys : List A) → All P xs → All P ys → All P (xs ++ ys)
  All-append P [] ys first second = second
  All-append P (x ∷ xs) ys (p, first) second = (p, All-append P xs ys first second)

  pub All-mono : (P Q : A → Type 0) → ((x : A) → P x → Q x) → (xs : List A) → All P xs → All Q xs
  All-mono P Q f [] h = tt
  All-mono P Q f (x ∷ xs) h = (f x h.0, All-mono P Q f xs h.1)

  All-of : (P : A → Type 0) → ((x : A) → P x) → (xs : List A) → All P xs
  All-of P f [] = tt
  All-of P f (x ∷ xs) = (f x, All-of P f xs)

  -- Under a condition that is tested once for the whole list.
  pub All-under :
      (P : A → Type 0) (b : Bool) (xs : List A)
      → (b ≡ true → All P xs)
      → All (λ z. b ≡ true → P z) xs
  All-under P true xs h = All-mono _ _ (λ z p e. p) xs (h refl)
  All-under P false xs h = All-of _ (λ z e. absurd (ground arith)) xs

  pub All-both : (P Q : A → Type 0) (xs : List A) → All P xs → All Q xs → All (λ z. P z × Q z) xs
  All-both P Q [] h k = tt
  All-both P Q (x ∷ xs) h k = ((h.0, k.0), All-both P Q xs h.1 k.1)

  -- Every member is one.
  pub All-Any : (xs : List A) → All (λ x. Any (λ y. y ≡ x) xs) xs
  All-Any [] = tt
  All-Any (x ∷ xs) = (inl refl, All-mono _ _ (λ z there. inr there) xs (All-Any xs))
