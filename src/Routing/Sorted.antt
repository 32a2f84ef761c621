-- ===== src/Routing/Sorted.antt =====
-- crates/localtrans-core/src/routing/score.rs: what sorting and picking keep of the channels.
use localtrans.Base.{
  ℕ, ◌≤◌, ◌≡◌, ap, some, List, [], ◌∷◌, arith, inl, inr, Bool-cases, Option-cases, All, All-mono,
}
use localtrans.Routing.Score.{
  Scored, comes_first, insert_scored, sort_scored, best_direct, preferred,
}

module _ (P : Scored → Type 0) where
  All-insert_scored : (x : Scored) (xs : List Scored) → All P (insert_scored x xs) → P x × All P xs
  unfolding insert_scored
  All-insert_scored x [] h = h
  All-insert_scored x (y ∷ ys) h = elim (Bool-cases (comes_first x y)) [
    | inl e ↦ rw (e, insert_scored) at h
    | inr e ↦
        let (py, more) : P y × All P (insert_scored x ys) = rw (e, insert_scored) at h in
        let (px, pys) = All-insert_scored x ys more in (px, (py, pys))
  ]

  insert_scored-All : (x : Scored) (xs : List Scored) → P x → All P xs → All P (insert_scored x xs)
  unfolding insert_scored
  insert_scored-All x [] px h = (px, tt)
  insert_scored-All x (y ∷ ys) px h = elim (Bool-cases (comes_first x y)) [
    | inl e ↦ rw (e, insert_scored) (px, h)
    | inr e ↦ rw (e, insert_scored) (h.0, insert_scored-All x ys px h.1)
  ]

  -- What holds of all that were sorted holds of all.
  pub All-sort_scored : (xs : List Scored) → All P (sort_scored xs) → All P xs
  unfolding sort_scored
  All-sort_scored [] h = tt
  All-sort_scored (x ∷ xs) h =
      let (px, more) = All-insert_scored x (sort_scored xs) h in (px, All-sort_scored xs more)

  pub sort_scored-All : (xs : List Scored) → All P xs → All P (sort_scored xs)
  unfolding sort_scored
  sort_scored-All [] h = tt
  sort_scored-All (x ∷ xs) h = insert_scored-All x (sort_scored xs) h.0 (sort_scored-All xs h.1)

  best_direct-All :
      (best : ℕ) (xs : List Scored) (y : Scored) → All P xs → best_direct best xs ≡ some y → P y
  unfolding best_direct
  best_direct-All best [] y h e = absurd (ground arith)
  best_direct-All best (x ∷ xs) y h e =
      ground (arith, best_direct-All best xs y h.1, h.0, ap P {x = x} {y = y})

  pub preferred-All : (x : Scored) (xs : List Scored) → All P (x ∷ xs) → P (preferred x (x ∷ xs))
  unfolding preferred
  preferred-All x xs h = elim (Option-cases (best_direct x.0 (x ∷ xs))) [
    | inl e ↦ rw (e, preferred) h.0
    | inr (y, e) ↦ rw (e, preferred) (best_direct-All x.0 (x ∷ xs) y h e)
  ]

abbrev pub TopFirst : List Scored → Type 0
TopFirst [] = Unit
TopFirst (x ∷ xs) = All (λ y. y.0 ≤ x.0) xs

insert_scored-TopFirst :
    (x : Scored) (xs : List Scored) → TopFirst xs → TopFirst (insert_scored x xs)
unfolding insert_scored
insert_scored-TopFirst x [] h = tt
insert_scored-TopFirst x (y ∷ ys) h = elim (Bool-cases (comes_first x y)) [
  | inl e ↦
      let top : y.0 ≤ x.0 = ground arith in
      rw (e, insert_scored) (top, All-mono _ _ (λ z below. omega (arith, below, top)) ys h)
  | inr e ↦ rw (e, insert_scored) (insert_scored-All (λ z. z.0 ≤ y.0) x ys (ground arith) h)
]

pub sort_scored-TopFirst : (xs : List Scored) → TopFirst (sort_scored xs)
unfolding sort_scored
sort_scored-TopFirst [] = tt
sort_scored-TopFirst (x ∷ xs) = insert_scored-TopFirst x (sort_scored xs) (sort_scored-TopFirst xs)
