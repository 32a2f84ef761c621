-- ===== src/Routing/Shape.antt =====
-- crates/localtrans-core/src/routing/mod.rs: the shape of a device's list of channels, and the changes
-- to a list that keep it.
use localtrans.Base.{
  ℕ, ◌≤◌, ◌+◌, ◌≡◌, refl, ap, ◌∙◌, Bool, not, ◌&&◌, none, List, [], ◌∷◌, ◌++◌, arith, if◌then◌else◌,
  length, inl, inr, Bool-cases, Option-cases, length-append, length-drop, drop,
}
use localtrans.Net.{SocketAddr}
use localtrans.Routing.{
  ChannelRecord, at_addr, find_addr, modify_addr, keep, without_old_relays, new_record, renewed,
  register_in, push_loss_sample, with_sample,
}
use localtrans.Routing.Channels.{
  AddrsDistinct, find_addr-modify_addr, find_addr-append, find_addr-keep, find_addr-some,
}

abbrev pub relays : List ChannelRecord → ℕ
relays [] = 0
relays (r ∷ rs) = (if r.via_relay then 1 else 0) + relays rs

abbrev pub WindowsBounded : List ChannelRecord → Type 0
WindowsBounded [] = Unit
WindowsBounded (r ∷ rs) = (length r.loss_window ≤ 10) × WindowsBounded rs

-- One record for an address, one relayed channel, and at most ten samples in a window.
pub record Shape (rs : List ChannelRecord) : Type 0 where
  pub distinct : AddrsDistinct rs
  pub one_relay : relays rs ≤ 1
  pub windows : WindowsBounded rs

-- Changes in place that keep the address, the path and the bound.
pub record Mild (f : ChannelRecord → ChannelRecord) : Type 0 where
  pub addr : (r : ChannelRecord) → (f r).addr ≡ r.addr
  pub path : (r : ChannelRecord) → (f r).via_relay ≡ r.via_relay
  pub window : (r : ChannelRecord) → length r.loss_window ≤ 10 → length (f r).loss_window ≤ 10

module _ (f : ChannelRecord → ChannelRecord) (m : Mild f) (a : SocketAddr) where
  modify_addr-distinct :
      (rs : List ChannelRecord) → AddrsDistinct rs → AddrsDistinct (modify_addr a f rs)
  unfolding modify_addr
  modify_addr-distinct [] d = tt
  modify_addr-distinct (r ∷ rs) d = elim (Bool-cases (at_addr a r)) [
    | inl e ↦ rw e (ap (λ b. find_addr b rs) (m.addr r) ∙ d.0, d.1)
    | inr e ↦ rw e (
      ground (arith, find_addr-modify_addr f m.addr r.addr a rs, d.0),
      modify_addr-distinct rs d.1,
    )
  ]

  modify_addr-relays : (rs : List ChannelRecord) → relays (modify_addr a f rs) ≡ relays rs
  unfolding modify_addr
  modify_addr-relays [] = refl
  modify_addr-relays (r ∷ rs) = ground (arith, modify_addr-relays rs, m.path r)

  modify_addr-windows :
      (rs : List ChannelRecord) → WindowsBounded rs → WindowsBounded (modify_addr a f rs)
  unfolding modify_addr
  modify_addr-windows [] w = tt
  modify_addr-windows (r ∷ rs) w = elim (Bool-cases (at_addr a r)) [
    | inl e ↦ rw e (m.window r w.0, w.1)
    | inr e ↦ rw e (w.0, modify_addr-windows rs w.1)
  ]

  pub modify_addr-Shape : (rs : List ChannelRecord) → Shape rs → Shape (modify_addr a f rs)
  modify_addr-Shape rs s = record {
    distinct = modify_addr-distinct rs s.distinct;
    one_relay = rw modify_addr-relays s.one_relay;
    windows = modify_addr-windows rs s.windows;
  }

module _ (p : ChannelRecord → Bool) where
  keep-distinct : (rs : List ChannelRecord) → AddrsDistinct rs → AddrsDistinct (keep p rs)
  unfolding keep
  keep-distinct [] d = tt
  keep-distinct (r ∷ rs) d = elim (Bool-cases (p r)) [
    | inl e ↦ rw e (ground (arith, find_addr-keep p r.addr rs d.1, d.0), keep-distinct rs d.1)
    | inr e ↦ rw e (keep-distinct rs d.1)
  ]

  keep-relays : (rs : List ChannelRecord) → relays (keep p rs) ≤ relays rs
  unfolding keep
  keep-relays [] = omega arith
  keep-relays (r ∷ rs) = ground (arith, keep-relays rs)

  keep-windows : (rs : List ChannelRecord) → WindowsBounded rs → WindowsBounded (keep p rs)
  unfolding keep
  keep-windows [] w = tt
  keep-windows (r ∷ rs) w = elim (Bool-cases (p r)) [
    | inl e ↦ rw e (w.0, keep-windows rs w.1)
    | inr e ↦ rw e (keep-windows rs w.1)
  ]

  pub keep-Shape : (rs : List ChannelRecord) → Shape rs → Shape (keep p rs)
  keep-Shape rs s = record {
    distinct = keep-distinct rs s.distinct;
    one_relay = let fewer = keep-relays rs in omega (arith, fewer, s.one_relay);
    windows = keep-windows rs s.windows;
  }

-- Without the relayed channels of other addresses, none is left when the address is not known.
without_old_relays-none :
    (a : SocketAddr) (rs : List ChannelRecord)
    → find_addr a rs ≡ none
    → relays (keep (λ r. not (r.via_relay && not (at_addr a r))) rs) ≡ 0
unfolding keep find_addr
without_old_relays-none a [] h = refl
without_old_relays-none a (r ∷ rs) h = ground (arith, without_old_relays-none a rs)

module _ (a : SocketAddr) (via : Bool) (now : ℕ) where
  append-distinct :
      (rs : List ChannelRecord)
      → find_addr a rs ≡ none
      → AddrsDistinct rs
      → AddrsDistinct (rs ++ new_record a via now ∷ [])
  unfolding find_addr new_record
  append-distinct [] h d = (refl, tt)
  append-distinct (r ∷ rs) h d = (
    ground (arith, find_addr-append r.addr rs (new_record a via now), d.0),
    append-distinct rs (ground arith) d.1,
  )

  append-relays :
      (rs : List ChannelRecord)
      → relays (rs ++ new_record a via now ∷ []) ≡ relays rs + (if via then 1 else 0)
  unfolding new_record
  append-relays [] = ground arith
  append-relays (r ∷ rs) = ground (arith, append-relays rs)

  append-windows :
      (rs : List ChannelRecord)
      → WindowsBounded rs
      → WindowsBounded (rs ++ new_record a via now ∷ [])
  unfolding new_record
  append-windows [] w = (omega arith, tt)
  append-windows (r ∷ rs) w = (w.0, append-windows rs w.1)

  without_old_relays-Shape :
      (rs : List ChannelRecord) → Shape rs → Shape (without_old_relays a via rs)
  unfolding without_old_relays
  without_old_relays-Shape rs s = elim (Bool-cases via) [
    | inl e ↦ rw e (keep-Shape _ rs s)
    | inr e ↦ rw e s
  ]

  without_old_relays-unknown :
      (rs : List ChannelRecord)
      → AddrsDistinct rs
      → find_addr a (keep (λ r. not (r.via_relay && not (at_addr a r))) rs) ≡ none
      → find_addr a rs ≡ none
  without_old_relays-unknown rs d h = elim (Option-cases (find_addr a rs)) [
    | inl e ↦ e
    | inr (r, e) ↦ absurd (
        ground (
          arith,
          find_addr-some a rs r e,
          find_addr-keep (λ r. not (r.via_relay && not (at_addr a r))) a rs d,
        ))
  ]

  room_for_relay :
      (rs : List ChannelRecord)
      → Shape rs
      → find_addr a (without_old_relays a via rs) ≡ none
      → relays (without_old_relays a via rs) + (if via then 1 else 0) ≤ 1
  unfolding without_old_relays
  room_for_relay rs s h = elim (Bool-cases via) [
    | inl e ↦
        let gone : find_addr a (keep (λ r. not (r.via_relay && not (at_addr a r))) rs) ≡ none =
          ground arith in
        ground (arith, without_old_relays-none a rs (without_old_relays-unknown rs s.distinct gone))
    | inr e ↦ ground (arith, s.one_relay)
  ]

  pub register_in-Shape :
      (rs : List ChannelRecord)
      → Shape rs
      → Shape (register_in a via now (without_old_relays a via rs)).0
  unfolding register_in
  register_in-Shape rs s =
      let s' = without_old_relays-Shape rs s in
      elim (Option-cases (find_addr a (without_old_relays a via rs))) [
        | inl e ↦
            rw (e, register_in)
              (record {
                distinct = append-distinct _ e s'.distinct;
                one_relay = rw append-relays (room_for_relay rs s e);
                windows = append-windows _ s'.windows;
              })
        | inr (r, e) ↦
            rw (e, register_in)
              (modify_addr-Shape (renewed now)
                (record { addr = λ r. refl; path = λ r. refl; window = λ r w. w }) a _ s')
      ]

pub with_sample-Mild : (sample : Bool) (now : ℕ) → Mild (with_sample sample now)
unfolding with_sample push_loss_sample
with_sample-Mild sample now = record {
  addr = λ r. ground arith;
  path = λ r. ground arith;
  window = λ r w. bounded r w;
}
  where
    bounded :
        (r : ChannelRecord)
        → length r.loss_window ≤ 10
        → length (with_sample sample now r).loss_window ≤ 10
    bounded r w = ground (
      arith,
      length-append r.loss_window (sample ∷ []),
      length-append (drop 1 r.loss_window) (sample ∷ []),
      length-drop 1 r.loss_window,
    )
