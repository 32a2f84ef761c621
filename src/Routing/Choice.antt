-- ===== src/Routing/Choice.antt =====
-- crates/localtrans-core/src/routing/score.rs: what `decide` promises, for every scoring function.
use localtrans.Base.{
  ℕ, ◌≤◌, ◌<◌, ◌+◌, ◌≡◌, refl, ap, subst, Bool, true, false, Option, none, some, List, [], ◌∷◌,
  arith, inl, inr, Option-cases, All, Any, All-mono, All-under, All-both, All-Any, is_some,
}
use localtrans.Net.{SocketAddr}
use localtrans.Routing.{ChannelRecord}
use localtrans.Routing.Score.{
  Scored, scored_of, sort_scored, in_band, best_direct, preferred, find_scored, choose,
  decide_sorted, decide,
}
use localtrans.Routing.Sorted.{
  All-sort_scored, sort_scored-All, preferred-All, TopFirst, sort_scored-TopFirst,
}

find_scored-best_direct :
    (best : ℕ) (xs : List Scored) (y : Scored)
    → best_direct best xs ≡ some y
    → is_some (find_scored y.1.addr xs) ≡ true
unfolding best_direct find_scored
find_scored-best_direct best [] y h = absurd (ground arith)
find_scored-best_direct best (x ∷ xs) y h =
    ground (arith, find_scored-best_direct best xs y, ap (λ z. z.1.addr) {x = x} {y = y})

find_scored-head : (x : Scored) (xs : List Scored) → is_some (find_scored x.1.addr (x ∷ xs)) ≡ true
unfolding find_scored
find_scored-head x xs = ground arith

find_scored-preferred :
    (x : Scored) (xs : List Scored)
    → is_some (find_scored (preferred x (x ∷ xs)).1.addr (x ∷ xs)) ≡ true
unfolding preferred
find_scored-preferred x xs = elim (Option-cases (best_direct x.0 (x ∷ xs))) [
  | inl e ↦ rw (e, preferred) (find_scored-head x xs)
  | inr (y, e) ↦ rw (e, preferred) (find_scored-best_direct x.0 (x ∷ xs) y e)
]

choose-addr :
    (best : Scored) (current : Option SocketAddr) (a : SocketAddr) (all : List Scored)
    → choose best current all ≡ some a
    → best.1.addr ≡ a
unfolding choose
choose-addr best none a all e = ground arith
choose-addr best (some cur) a all e = ground arith

-- The preferred channel does not depend on the current one.
choose-settles :
    (best : Scored) (current : Option SocketAddr) (a : SocketAddr) (all : List Scored)
    → is_some (find_scored best.1.addr all) ≡ true
    → choose best current all ≡ some a
    → choose best (some a) all ≡ none
unfolding choose
choose-settles best current a all h e =
    let chosen : best.1.addr ≡ a = choose-addr best current a all e in
    ground (arith, ap (λ b. find_scored b all) chosen)

-- What the preferred channel is among all that have a score.
abbrev pub Fair : Scored → List Scored → Type 0
Fair best all =
    All (λ x. x.0 ≤ best.0 + 15) all
    × (best.1.via_relay ≡ true → All (λ x. x.1.via_relay ≡ false → x.0 + 15 < best.0) all)

best_direct-none :
    (best : ℕ) (xs : List Scored)
    → best_direct best xs ≡ none
    → All (λ x. x.1.via_relay ≡ false → x.0 + 15 < best) xs
unfolding best_direct
best_direct-none best [] h = tt
best_direct-none best (x ∷ xs) h = (λ direct. ground arith, best_direct-none best xs (ground arith))

best_direct-some :
    (best : ℕ) (xs : List Scored) (y : Scored)
    → best_direct best xs ≡ some y
    → in_band best y ≡ true
unfolding best_direct
best_direct-some best [] y h = absurd (ground arith)
best_direct-some best (x ∷ xs) y h =
    ground (arith, best_direct-some best xs y, ap (in_band best) {x = x} {y = y})

preferred-Fair :
    (x : Scored) (xs : List Scored) → TopFirst (x ∷ xs) → Fair (preferred x (x ∷ xs)) (x ∷ xs)
unfolding preferred
preferred-Fair x xs top = elim (Option-cases (best_direct x.0 (x ∷ xs))) [
  | inl e ↦
      subst (λ b. Fair b (x ∷ xs)) {x = x} {y = preferred x (x ∷ xs)} (ground arith)
        (
          (omega arith, All-mono _ _ (λ z below. omega (arith, below)) xs top),
          λ relayed. best_direct-none x.0 (x ∷ xs) e,
        )
  | inr (y, e) ↦
      let near : in_band x.0 y ≡ true = best_direct-some x.0 (x ∷ xs) y e in
      let close : x.0 ≤ y.0 + 15 = ground arith in
      subst (λ b. Fair b (x ∷ xs)) {x = y} {y = preferred x (x ∷ xs)} (ground arith)
        (
          (close, All-mono _ _ (λ z below. omega (arith, below, close)) xs top),
          λ relayed. absurd (ground arith),
        )
]

module _ (score : Option ℕ → Option ℕ → List Bool → Option ℕ) (rs : List ChannelRecord) where
  -- With unchanged measurements, a channel that was just chosen is kept.
  decide-settles :
      (current : Option SocketAddr) (a : SocketAddr)
      → decide score rs current ≡ some a
      → decide score rs (some a) ≡ none
  unfolding decide
  decide-settles current a h = settles (sort_scored (scored_of score rs)) h
    where
      settles :
          (xs : List Scored) → decide_sorted current xs ≡ some a → decide_sorted (some a) xs ≡ none
      settles [] h = refl
      settles (x ∷ xs) h =
          choose-settles (preferred x (x ∷ xs)) current a (x ∷ xs) (find_scored-preferred x xs) h

  abbrev pub Rated : ChannelRecord → ℕ → Type 0
  Rated r s = score r.rtt_ms r.est_bps r.loss_window ≡ some s

  -- One of the records with its score, at most 15 below any other, and relayed only if every direct
  -- record with a score is more than 15 below.
  abbrev pub FairOf : Scored → Type 0
  FairOf best =
      Any (λ r. r ≡ best.1) rs
      × Rated best.1 best.0
      × All
          (λ r.
            (s : ℕ)
            → Rated r s
            → (s ≤ best.0 + 15) × (best.1.via_relay ≡ true → r.via_relay ≡ false → s + 15 < best.0))
          rs

  All-scored_of :
      (P : Scored → Type 0) (xs : List ChannelRecord)
      → All (λ r. (s : ℕ) → Rated r s → P (s, r)) xs
      → All P (scored_of score xs)
  unfolding scored_of
  All-scored_of P [] h = tt
  All-scored_of P (r ∷ xs) h = elim (Option-cases (score r.rtt_ms r.est_bps r.loss_window)) [
    | inl e ↦ rw (e, scored_of) (All-scored_of P xs h.1)
    | inr (s, e) ↦ rw (e, scored_of) (h.0 s e, All-scored_of P xs h.1)
  ]

  scored_of-All :
      (P : Scored → Type 0) (xs : List ChannelRecord)
      → All P (scored_of score xs)
      → All (λ r. (s : ℕ) → Rated r s → P (s, r)) xs
  unfolding scored_of
  scored_of-All P [] h = tt
  scored_of-All P (r ∷ xs) h = elim (Option-cases (score r.rtt_ms r.est_bps r.loss_window)) [
    | inl e ↦ (λ s rated. absurd (ground arith), scored_of-All P xs (rw (e, scored_of) at h))
    | inr (t, e) ↦
        let (here, more) : P (t, r) × All P (scored_of score xs) = rw (e, scored_of) at h in
        (
          λ s rated. let same : t ≡ s = ground arith in subst (λ u. P (u, r)) same here,
          scored_of-All P xs more,
        )
  ]

  -- A given record with its score.
  abbrev pub Real : Scored → Type 0
  Real z = Any (λ r. r ≡ z.1) rs × Rated z.1 z.0

  sorted-Real : All Real (sort_scored (scored_of score rs))
  sorted-Real =
      sort_scored-All _ (scored_of score rs)
        (All-scored_of _ rs (All-mono _ _ (λ r in_rs s rated. (in_rs, rated)) rs (All-Any rs)))

  -- A current channel with a score is left only for a given one whose score is at least 15 higher.
  decide-hysteresis :
      (cur a : SocketAddr) (c : Scored)
      → find_scored cur (sort_scored (scored_of score rs)) ≡ some c
      → decide score rs (some cur) ≡ some a
      → (best : Scored) × (best.1.addr ≡ a) × Real best × (c.0 + 15 ≤ best.0)
  unfolding decide choose
  decide-hysteresis cur a c known h = leads (sort_scored (scored_of score rs)) sorted-Real known h
    where
      leads :
          (xs : List Scored)
          → All Real xs
          → find_scored cur xs ≡ some c
          → decide_sorted (some cur) xs ≡ some a
          → (best : Scored) × (best.1.addr ≡ a) × Real best × (c.0 + 15 ≤ best.0)
      leads [] real known h = absurd (ground arith)
      leads (x ∷ xs) real known h =
          (preferred x (x ∷ xs), ground arith, preferred-All Real x xs real, ground arith)

  -- For every scoring function, the address that is chosen is that of one of the given channels,
  -- which has a score; this score is at most 15 below that of any given channel, and where the
  -- channel is relayed, every direct channel with a score is more than 15 below it.
  pub decide-Fair :
      (current : Option SocketAddr) (a : SocketAddr)
      → decide score rs current ≡ some a
      → (best : Scored) × (best.1.addr ≡ a) × FairOf best
  unfolding decide
  decide-Fair current a h =
      let all = scored_of score rs in
      fair (sort_scored all) (sort_scored-TopFirst all) sorted-Real (λ P. All-sort_scored P all) h
    where
      fair :
          (xs : List Scored)
          → TopFirst xs
          → All Real xs
          → ((P : Scored → Type 0) → All P xs → All P (scored_of score rs))
          → decide_sorted current xs ≡ some a
          → (best : Scored) × (best.1.addr ≡ a) × FairOf best
      fair [] top real from h = absurd (ground arith)
      fair (x ∷ xs) top real from h =
          let best = preferred x (x ∷ xs) in
          let (near, direct) = preferred-Fair x xs top in
          let (member, rated) = preferred-All _ x xs real in
          let close = scored_of-All _ rs (from (λ z. z.0 ≤ best.0 + 15) near) in
          let ahead = scored_of-All _ rs (
            from (λ z. best.1.via_relay ≡ true → z.1.via_relay ≡ false → z.0 + 15 < best.0)
              (All-under _ best.1.via_relay (x ∷ xs) direct)) in
          (
            best,
            choose-addr best current a (x ∷ xs) h,
            (
              member,
              rated,
              All-mono _ _
                  (λ r both s known.
                    (both.0 s known, λ relayed is_direct. both.1 s known relayed is_direct))
                  rs (All-both _ _ rs close ahead),
            ),
          )
