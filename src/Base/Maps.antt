-- ===== src/Base/Maps.antt =====
-- A hash map as a list of pairs. What the code reads from a map by key does not depend on the
-- order of the pairs; what it collects from a whole map comes in an order that Rust leaves open.
use mathlib.Core.Path.{◌≡◌, refl, ap}
use mathlib.Core.Logic.{ite, inl, inr}
use mathlib.Core.List.{List, [], ◌∷◌}
use mathlib.Core.Option.{Option, none, some}
use mathlib.Core.Bool.{Bool}
use native.Mathlib.Omega.{arith}
use localtrans.Base.Bools.{if◌then◌else◌, Option-cases}
use localtrans.Base.Lists.{length}
use Prim.Native.Nat.{◌≤◌, ◌+◌}

abbrev pub Map {ℓ} : Type ℓ → Type ℓ → Type ℓ
Map K V = List (K × V)

module _ {ℓ} {K V : Type ℓ} (dec : Discrete K) where
  unfoldable pub get : K → Map K V → Option V
  get k [] = none
  get k ((j, v) ∷ m) = ite (dec j k) (some v) (get k m)

  unfoldable pub remove : K → Map K V → Map K V
  remove k [] = []
  remove k ((j, v) ∷ m) = let rest = remove k m in ite (dec j k) rest ((j, v) ∷ rest)

  unfoldable pub insert : K → V → Map K V → Map K V
  unfolding remove
  insert k v m = (k, v) ∷ remove k m

  -- `if let Some(e) = m.get_mut(k) { *e = f(*e) }`
  unfoldable pub modify : K → (V → V) → Map K V → Map K V
  unfolding get insert
  modify k f m = elim (get k m) [ none ↦ m | some v ↦ insert k (f v) m ]

  pub get-remove : (k j : K) (m : Map K V) → get j (remove k m) ≡ ite (dec k j) none (get j m)
  unfolding get remove
  get-remove k j [] = ground arith
  get-remove k j ((i, v) ∷ m) = ground (arith, get-remove k j m)

  pub get-insert :
      (k j : K) (v : V) (m : Map K V) → get j (insert k v m) ≡ ite (dec k j) (some v) (get j m)
  unfolding get insert
  get-insert k j v m = ground (arith, get-remove k j m)

  pub get-modify :
      (k j : K) (f : V → V) (m : Map K V)
      → get j (modify k f m)
        ≡ ite (dec k j) (elim (get k m) [ none ↦ none | some v ↦ some (f v) ]) (get j m)
  unfolding modify
  get-modify k j f m = elim (Option-cases (get k m)) [
    | inl e ↦ ground (arith)
    | inr (v, e) ↦ ground (arith, get-insert k j (f v) m)
  ]

  -- No key stands twice.
  abbrev pub Distinct : Map K V → Type ℓ
  Distinct [] = Unit
  Distinct ((k, v) ∷ m) = (get k m ≡ none) × Distinct m

  pub remove-Distinct : (k : K) (m : Map K V) → Distinct m → Distinct (remove k m)
  unfolding get remove
  remove-Distinct k [] d = tt
  remove-Distinct k ((j, v) ∷ m) d = ground (arith, remove-Distinct k m d.1, get-remove k j m)

  pub insert-Distinct : (k : K) (v : V) (m : Map K V) → Distinct m → Distinct (insert k v m)
  unfolding get insert
  insert-Distinct k v m d = (ground (arith, get-remove k k m), remove-Distinct k m d)

  pub modify-Distinct : (k : K) (f : V → V) (m : Map K V) → Distinct m → Distinct (modify k f m)
  unfolding modify
  modify-Distinct k f m d = elim (Option-cases (get k m)) [
    | inl e ↦ rw (e, modify) d
    | inr (v, e) ↦ rw (e, modify) (insert-Distinct k (f v) m d)
  ]

-- `m.retain(|k, v| p(k, v))`
unfoldable pub retain {ℓ} : {K V : Type ℓ} → (K → V → Bool) → Map K V → Map K V
retain p [] = []
retain p ((k, v) ∷ m) = let rest = retain p m in if p k v then (k, v) ∷ rest else rest

module _ {ℓ} {K V : Type ℓ} (dec : Discrete K) where
  pub get-retain :
      (p : K → V → Bool) (k : K) (m : Map K V)
      → Distinct dec m
      → get dec k (retain p m)
        ≡ elim (get dec k m) [ none ↦ none | some v ↦ if p k v then some v else none ]
  unfolding get retain
  get-retain p k [] d = refl
  get-retain p k ((j, v) ∷ m) d = elim (dec j k) [
    | yes e ↦ ground (arith, get-retain p k m d.1, ap (λ x. p x v) e, ap (λ x. get dec x m) e)
    | no e ↦ ground (arith, get-retain p k m d.1)
  ]

  pub retain-Distinct :
      (p : K → V → Bool) (m : Map K V) → Distinct dec m → Distinct dec (retain p m)
  unfolding retain
  retain-Distinct p [] d = tt
  retain-Distinct p ((k, v) ∷ m) d = ground (arith, retain-Distinct p m d.1, get-retain p k m d.1)

  pub length-remove : (k : K) (m : Map K V) → length (remove dec k m) ≤ length m
  unfolding remove
  length-remove k [] = omega arith
  length-remove k ((j, v) ∷ m) = ground (arith, length-remove k m)

  pub length-insert : (k : K) (v : V) (m : Map K V) → length (insert dec k v m) ≤ length m + 1
  unfolding insert
  length-insert k v m = omega (arith, length-remove k m)

pub length-retain {ℓ} :
    {K V : Type ℓ} (p : K → V → Bool) (m : Map K V) → length (retain p m) ≤ length m
unfolding retain
length-retain p [] = omega arith
length-retain p ((k, v) ∷ m) = ground (arith, length-retain p m)
