-- ===== src/Routing/Score.antt =====
-- crates/localtrans-core/src/routing/score.rs: which of the channels is used. The score of a channel
-- is computed in floating point and is a parameter, of what the code computes it from.
use localtrans.Base.{
  ℕ, ◌-◌, Bool, true, false, not, ◌&&◌, Option, none, some, List, [], ◌∷◌, if◌then◌else◌, leb, ltb,
  holds,
}
use localtrans.Net.{SocketAddr, SocketAddr-discrete, addr_leb}
use localtrans.Routing.{ChannelRecord}

-- The lead that a change of channel takes, and the width of the band in which direct channels win.
abbrev pub hysteresis : ℕ
hysteresis = 15

abbrev pub Scored : Type 0
Scored = ℕ × ChannelRecord

module _ (score : Option ℕ → Option ℕ → List Bool → Option ℕ) where
  unfoldable pub scored_of : List ChannelRecord → List Scored
  scored_of [] = []
  scored_of (r ∷ rs) =
      let rest = scored_of rs in
      elim (score r.rtt_ms r.est_bps r.loss_window) [ none ↦ rest | some s ↦ (s, r) ∷ rest ]

-- The order of the sort: higher scores, then direct channels, then lower addresses come first.
abbrev pub comes_first : Scored → Scored → Bool
comes_first (s, a) (t, b) =
    if ltb t s
    then true
    else if ltb s t
    then false
    else if a.via_relay
    then (if b.via_relay then addr_leb a.addr b.addr else false)
    else (if b.via_relay then true else addr_leb a.addr b.addr)

unfoldable pub insert_scored : Scored → List Scored → List Scored
insert_scored x [] = x ∷ []
insert_scored x (y ∷ ys) =
    let rest = insert_scored x ys in if comes_first x y then x ∷ y ∷ ys else y ∷ rest

unfoldable pub sort_scored : List Scored → List Scored
unfolding insert_scored
sort_scored [] = []
sort_scored (x ∷ xs) = insert_scored x (sort_scored xs)

abbrev pub in_band : ℕ → Scored → Bool
in_band best (s, r) = leb (best - s) hysteresis && not r.via_relay

-- `max_by_key` with the key (score, reversed address) keeps the last of equal ones.
abbrev pub at_least : Scored → Scored → Bool
at_least (s, a) (t, b) = if ltb t s then true else if ltb s t then false else addr_leb a.addr b.addr

unfoldable pub best_direct : ℕ → List Scored → Option Scored
best_direct best [] = none
best_direct best (x ∷ xs) =
    let rest = best_direct best xs in
    if in_band best x
    then elim rest [ none ↦ some x | some y ↦ if at_least y x then some y else some x ]
    else rest

unfoldable pub preferred : Scored → List Scored → Scored
unfolding best_direct
preferred first all = elim (best_direct first.0 all) [ none ↦ first | some x ↦ x ]

unfoldable pub find_scored : SocketAddr → List Scored → Option Scored
find_scored addr [] = none
find_scored addr (x ∷ xs) =
    let rest = find_scored addr xs in
    if holds (SocketAddr-discrete x.1.addr addr) then some x else rest

unfoldable pub choose : Scored → Option SocketAddr → List Scored → Option SocketAddr
unfolding find_scored
choose best none all = some best.1.addr
choose best (some cur) all = elim (find_scored cur all) [
  | none ↦ some best.1.addr
  | some (cur_score, _) ↦
      if holds (SocketAddr-discrete best.1.addr cur)
      then none
      else if leb hysteresis (best.0 - cur_score)
      then some best.1.addr
      else none
]

abbrev pub decide_sorted : Option SocketAddr → List Scored → Option SocketAddr
decide_sorted current [] = none
decide_sorted current (x ∷ xs) = choose (preferred x (x ∷ xs)) current (x ∷ xs)

unfoldable pub decide :
    (Option ℕ → Option ℕ → List Bool → Option ℕ)
    → List ChannelRecord
    → Option SocketAddr
    → Option SocketAddr
unfolding scored_of sort_scored preferred choose
decide score records current = decide_sorted current (sort_scored (scored_of score records))
