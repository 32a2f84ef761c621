-- ===== src/Routing/Channels.antt =====
-- crates/localtrans-core/src/routing/mod.rs: a list of channels looked up by address, and the shape
-- that the table keeps such lists in.
use localtrans.Base.{
  ◌≡◌, refl, ap, Bool, true, none, some, List, [], ◌∷◌, ◌++◌, arith, if◌then◌else◌, holds,
}
use localtrans.Net.{SocketAddr, SocketAddr-discrete}
use localtrans.Routing.{ChannelRecord, at_addr, find_addr, modify_addr, keep}

module _ (f : ChannelRecord → ChannelRecord)
    (same : (r : ChannelRecord) → (f r).addr ≡ r.addr) where
  pub find_addr-modify_addr :
      (a b : SocketAddr) (rs : List ChannelRecord)
      → find_addr a (modify_addr b f rs) ≡ (
          if holds (SocketAddr-discrete b a)
          then elim (find_addr a rs) [ none ↦ none | some r ↦ some (f r) ]
          else find_addr a rs)
  unfolding find_addr modify_addr
  find_addr-modify_addr a b [] = ground arith
  find_addr-modify_addr a b (r ∷ rs) = ground (arith, find_addr-modify_addr a b rs, same r)

pub find_addr-append :
    (a : SocketAddr) (rs : List ChannelRecord) (q : ChannelRecord)
    → find_addr a (rs ++ q ∷ [])
      ≡ elim (find_addr a rs) [ none ↦ if at_addr a q then some q else none | some r ↦ some r ]
unfolding find_addr
find_addr-append a [] q = refl
find_addr-append a (r ∷ rs) q = ground (arith, find_addr-append a rs q)

abbrev pub AddrsDistinct : List ChannelRecord → Type 0
AddrsDistinct [] = Unit
AddrsDistinct (r ∷ rs) = (find_addr r.addr rs ≡ none) × AddrsDistinct rs

pub find_addr-keep :
    (p : ChannelRecord → Bool) (a : SocketAddr) (rs : List ChannelRecord)
    → AddrsDistinct rs
    → find_addr a (keep p rs)
      ≡ elim (find_addr a rs) [ none ↦ none | some r ↦ if p r then some r else none ]
unfolding find_addr keep
find_addr-keep p a [] d = refl
find_addr-keep p a (r ∷ rs) d =
    ground (arith, find_addr-keep p a rs d.1, ap (λ b. find_addr b rs) {x = r.addr} {y = a})

pub find_addr-some :
    (a : SocketAddr) (rs : List ChannelRecord) (r : ChannelRecord)
    → find_addr a rs ≡ some r
    → at_addr a r ≡ true
unfolding find_addr
find_addr-some a [] r h = absurd (ground arith)
find_addr-some a (q ∷ rs) r h =
    ground (arith, find_addr-some a rs r, ap (λ x. at_addr a x) {x = q} {y = r})
