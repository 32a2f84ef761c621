-- ===== src/Relay/Control/Pushes.antt =====
-- crates/localtrans-relay/src/control.rs: what pushes and broadcasts leave of the connections.
use localtrans.Base.{
  ℕ, ◌≡◌, ◌≢◌, refl, ◌∙◌, false, Option, none, [], ◌∷◌, arith, inl, inr, Bool-cases, Bytes-discrete,
  if◌then◌else◌,
}
use localtrans.Base.Maps.{Map, get, get-remove}
use localtrans.Relay.Proto.{Fingerprint, RelayMsg}
use localtrans.Relay.Lease.{lease_of, remove_lease}
use localtrans.Relay.Lease.Reach.{Inv, Step-Inv, removes}
use localtrans.Relay.Control.{
  RelayServer, CtrlConn, Reaches, evict, push_guarded, roster_for, push_rosters,
}

-- A device's registration is its connection together with its lease.
abbrev pub conn_of : RelayServer → Fingerprint → Option CtrlConn
conn_of s fp = get Bytes-discrete fp s.conns

module _ (reaches : Reaches) where
  -- A push that does not get through removes the connection and the lease registered for the
  -- device, also when the push was to an older connection of the device.
  pub push_guarded-evicts :
      (s : RelayServer) (fp : Fingerprint) (older : CtrlConn) (msg : RelayMsg)
      → reaches.arrives older.conn_id msg ≡ false
      → let s' = (push_guarded reaches s fp older msg).0 in
        (conn_of s' fp ≡ none) × (lease_of s'.leases fp ≡ none)
  unfolding push_guarded evict remove_lease
  push_guarded-evicts s fp older msg late = (
    ground (arith, get-remove Bytes-discrete fp fp s.conns),
    ground (arith, get-remove Bytes-discrete fp fp s.leases.leases),
  )

  pub push_guarded-other :
      (s : RelayServer) (fp q : Fingerprint) (cc : CtrlConn) (msg : RelayMsg)
      → q ≢ fp
      → let s' = (push_guarded reaches s fp cc msg).0 in
        (conn_of s' q ≡ conn_of s q) × (lease_of s'.leases q ≡ lease_of s.leases q)
  unfolding push_guarded evict remove_lease
  push_guarded-other s fp q cc msg apart = (
    ground (arith, get-remove Bytes-discrete fp q s.conns),
    ground (arith, get-remove Bytes-discrete fp q s.leases.leases),
  )

  -- A broadcast to others leaves a device's registration as it is.
  pub push_rosters-other :
      (seen s : RelayServer) (rev : ℕ) (m : Map Fingerprint CtrlConn) (q : Fingerprint)
      → get Bytes-discrete q m ≡ none
      → let s' = (push_rosters reaches seen s rev m).0 in
        (conn_of s' q ≡ conn_of s q) × (lease_of s'.leases q ≡ lease_of s.leases q)
  unfolding push_rosters get
  push_rosters-other seen s rev [] q h = (refl, refl)
  push_rosters-other seen s rev ((fp, conn) ∷ m) q h =
      let apart : q ≢ fp = λ e. ground arith in
      let msg = roster_for seen rev fp in
      let s' = (push_guarded reaches s fp conn msg).0 in
      let seen' =
        if reaches.at_once conn.conn_id msg
        then (push_guarded reaches seen fp conn msg).0
        else seen in
      let (c, l) = push_guarded-other s fp q conn msg apart in
      let (c', l') = push_rosters-other seen' s' rev m q (ground arith) in (c' ∙ c, l' ∙ l)

  pub push_guarded-Inv :
      (s : RelayServer) (fp : Fingerprint) (cc : CtrlConn) (msg : RelayMsg)
      → Inv s.leases
      → Inv (push_guarded reaches s fp cc msg).0.leases
  unfolding push_guarded evict
  push_guarded-Inv s fp cc msg v = elim (Bool-cases (reaches.arrives cc.conn_id msg)) [
    | inl e ↦ rw (e, push_guarded) v
    | inr e ↦ rw (e, push_guarded) (Step-Inv (removes fp) v)
  ]

  pub push_rosters-Inv :
      (seen s : RelayServer) (rev : ℕ) (m : Map Fingerprint CtrlConn)
      → Inv s.leases
      → Inv (push_rosters reaches seen s rev m).0.leases
  unfolding push_rosters
  push_rosters-Inv seen s rev [] v = v
  push_rosters-Inv seen s rev ((fp, conn) ∷ m) v =
      let msg = roster_for seen rev fp in
      push_rosters-Inv
        (if reaches.at_once conn.conn_id msg
          then (push_guarded reaches seen fp conn msg).0
          else seen)
        (push_guarded reaches s fp conn msg).0 rev m (push_guarded-Inv s fp conn msg v)
