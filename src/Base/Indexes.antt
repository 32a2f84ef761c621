-- ===== src/Base/Indexes.antt =====
-- A reverse index: a second map that leads from a field of each value back to the value's key, kept
-- in step with the first map by hand, as the code does.
use localtrans.Base.Bools.{Option-cases}
use localtrans.Base.Maps.{Map, get, insert, remove, modify, get-insert, get-remove}
use mathlib.Core.Path.{◌≡◌, ap}
use mathlib.Core.Logic.{inl, inr}
use mathlib.Core.List.{[]}
use mathlib.Core.Option.{none, some}
use native.Mathlib.Omega.{arith}

module _ {ℓ} {K I V : Type ℓ} (dec : Discrete K) (deci : Discrete I) (key : V → I) where
  pub record Indexes (m : Map K V) (index : Map I K) : Type ℓ where
    pub leads_back : (k : K) (v : V) → get dec k m ≡ some v → get deci (key v) index ≡ some k
    pub leads_on :
        (i : I) (k : K) → get deci i index ≡ some k → (v : V) × (get dec k m ≡ some v) × (key v ≡ i)

  pub empty-Indexes : Indexes [] []
  unfolding get
  empty-Indexes = record {
    leads_back = λ k v h. absurd (ground arith);
    leads_on = λ i k h. absurd (ground arith);
  }

  -- Two keys whose values agree on the field are one key.
  pub key_unique :
      (m : Map K V) (index : Map I K) (j k : K) (v w : V)
      → Indexes m index
      → get dec j m ≡ some v
      → get dec k m ≡ some w
      → key v ≡ key w
      → j ≡ k
  key_unique m index j k v w x hj hk e =
      ground (arith, x.leads_back j v hj, x.leads_back k w hk, ap (λ i. get deci i index) e)

  module _ (m : Map K V) (index : Map I K) (k : K) (x : Indexes m index) where
    pub insert-Indexes :
        (v : V)
        → get dec k m ≡ none
        → get deci (key v) index ≡ none
        → Indexes (insert dec k v m) (insert deci (key v) k index)
    insert-Indexes v absent free = record {
      leads_back = λ j w h. ground (
        arith,
        get-insert dec k j v m,
        get-insert deci (key v) (key w) k index,
        x.leads_back j w,
        ap (λ i. get deci i index) {x = key v} {y = key w},
      );
      leads_on = λ i j h. elim (deci (key v) i) [
        | yes e ↦ (v, ground (arith, get-insert dec k j v m, get-insert deci (key v) i k index), e)
        | no e ↦
            let old : get deci i index ≡ some j =
              ground (arith, get-insert deci (key v) i k index) in
            let (w, at_j, e') = x.leads_on i j old in
            (w, ground (arith, get-insert dec k j v m, ap (λ a. get dec a m) {x = k} {y = j}), e')
      ];
    }

    pub remove-Indexes :
        (v : V) → get dec k m ≡ some v → Indexes (remove dec k m) (remove deci (key v) index)
    remove-Indexes v found = record {
      leads_back = λ j w h. ground (
        arith,
        get-remove dec k j m,
        get-remove deci (key v) (key w) index,
        x.leads_back j w,
        x.leads_back k v found,
      );
      leads_on = λ i j h.
          let old : get deci i index ≡ some j = ground (arith, get-remove deci (key v) i index) in
          let (w, at_j, e') = x.leads_on i j old in
          (
            w,
            ground (
              arith,
              get-remove dec k j m,
              get-remove deci (key v) i index,
              ap (λ a. get dec a m) {x = k} {y = j},
            ),
            e',
          );
    }

    -- A value that keeps the field may be replaced.
    pub replace-Indexes :
        (v w : V) → get dec k m ≡ some v → key w ≡ key v → Indexes (insert dec k w m) index
    replace-Indexes v w found same = record {
      leads_back = λ j u h. ground (
        arith,
        get-insert dec k j w m,
        x.leads_back j u,
        x.leads_back k v found,
        ap (λ i. get deci i index) same,
      );
      leads_on = λ i j h.
          let (u, at_j, e') = x.leads_on i j h in
          elim (dec k j) [
            | yes e ↦
                (w, ground (arith, get-insert dec k j w m), ground (arith, ap (λ a. get dec a m) e))
            | no e ↦ (u, ground (arith, get-insert dec k j w m), e')
          ];
    }

    -- A value may get another key of the index, if the old one is taken out.
    pub rekey-Indexes :
        (v w : V)
        → get dec k m ≡ some v
        → get deci (key w) index ≡ none
        → Indexes (insert dec k w m) (insert deci (key w) k (remove deci (key v) index))
    rekey-Indexes v w found free = record {
      leads_back = λ j u h. ground (
        arith,
        get-insert dec k j w m,
        get-insert deci (key w) (key u) k (remove deci (key v) index),
        get-remove deci (key v) (key u) index,
        x.leads_back j u,
        x.leads_back k v found,
      );
      leads_on = λ i j h. elim (deci (key w) i) [
        | yes e ↦ (
          w,
          ground (
            arith,
            get-insert dec k j w m,
            get-insert deci (key w) i k (remove deci (key v) index),
          ),
          e,
        )
        | no e ↦
            let old : get deci i index ≡ some j = ground (
              arith,
              get-insert deci (key w) i k (remove deci (key v) index),
              get-remove deci (key v) i index,
            ) in
            let (u, at_j, e') = x.leads_on i j old in
            (
              u,
              ground (
                arith,
                get-insert dec k j w m,
                get-insert deci (key w) i k (remove deci (key v) index),
                get-remove deci (key v) i index,
                ap (λ a. get dec a m) {x = k} {y = j},
              ),
              e',
            )
      ];
    }

    -- `modify` with a function that keeps the field.
    pub modify-Indexes :
        (f : V → V) → ((v : V) → key (f v) ≡ key v) → Indexes (modify dec k f m) index
    unfolding modify
    modify-Indexes f same = elim (Option-cases (get dec k m)) [
      | inl e ↦ rw (e, modify) x
      | inr (v, e) ↦ rw (e, modify) (replace-Indexes v (f v) e (same v))
    ]
