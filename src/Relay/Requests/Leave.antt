-- ===== src/Relay/Requests/Leave.antt =====
-- crates/localtrans-relay/src/control.rs: what is left of a device that leaves, and of the others.
use localtrans.Base.{
  All-mono, All-append, ℕ, ◌≡◌, ◌≢◌, refl, sym, ap, ◌∙◌, true, none, some, List, [], ◌∷◌, arith,
  Bool, false, All, Bytes-discrete, if◌then◌else◌,
}
use localtrans.Base.Maps.{Map, get, Distinct, get-remove, remove-Distinct}
use localtrans.Relay.Proto.{Fingerprint, RelayMsg}
use localtrans.Relay.Lease.{lease_of, snapshot_roster}
use localtrans.Relay.Lease.Roster.{snapshot_roster_sound}
use localtrans.Relay.Lease.Expiry.{lease_of-remove_lease}
use localtrans.Relay.Lease.Reach.{Inv, Step-Inv, removes}
use localtrans.Relay.Control.{
  RelayServer, CtrlConn, Effect, pushes, closes, Reaches, evict, push_guarded, roster_for,
  push_rosters, next_rev, broadcast_roster, find_conn,
}
use localtrans.Relay.Control.Pushes.{
  conn_of, push_guarded-other, push_guarded-Inv, push_rosters-other, push_rosters-Inv,
}
use localtrans.Relay.Requests.{Outcome, Outside, handle_leave, handle_request}

-- A roster without the device, or the end of a connection.
abbrev pub LeavesOut : Fingerprint → Effect → Type 0
LeavesOut fp (pushes _ (RelayMsg.roster _ devices)) = All (λ d. d.fingerprint ≢ fp) devices
LeavesOut fp (closes _) = Unit
LeavesOut fp _ = ⊥

either : {A : Type 0} (P : A → Type 0) (b : Bool) (x y : A) → P x → P y → P (if b then x else y)
either P true x y p q = p
either P false x y p q = q

module _ (reaches : Reaches) where
  -- A broadcast leaves a device whose connection takes everything as it is.
  push_rosters-keeps :
      (seen s : RelayServer) (rev : ℕ) (m : Map Fingerprint CtrlConn) (q : Fingerprint)
      (c : CtrlConn)
      → Distinct Bytes-discrete m
      → get Bytes-discrete q m ≡ some c
      → ((msg : RelayMsg) → reaches.arrives c.conn_id msg ≡ true)
      → let s' = (push_rosters reaches seen s rev m).0 in
        (conn_of s' q ≡ conn_of s q) × (lease_of s'.leases q ≡ lease_of s.leases q)
  unfolding push_rosters get push_guarded
  push_rosters-keeps seen s rev [] q c d h there = absurd (ground arith)
  push_rosters-keeps seen s rev ((fp, conn) ∷ m) q c d h there =
      let msg = roster_for seen rev fp in
      let s' = (push_guarded reaches s fp conn msg).0 in
      let seen' =
        if reaches.at_once conn.conn_id msg
        then (push_guarded reaches seen fp conn msg).0
        else seen in
      elim (Bytes-discrete fp q) [
        | yes same ↦
            let is_c : conn ≡ c =
              ground (arith, ap (λ k. get Bytes-discrete k ((fp, conn) ∷ m)) same) in
            let goes = ap (λ x. reaches.arrives x.conn_id msg) is_c ∙ there msg in
            let stays : s' ≡ s = ground arith in
            let absent = ap (λ k. get Bytes-discrete k m) (sym same) ∙ d.0 in
            let (a, b) = push_rosters-other reaches seen' s' rev m q absent in
            (a ∙ ap (λ t. conn_of t q) stays, b ∙ ap (λ t. lease_of t.leases q) stays)
        | no apart ↦
            let (a, b) = push_guarded-other reaches s fp q conn msg (λ e. apart (sym e)) in
            let (a', b') = push_rosters-keeps seen' s' rev m q c d.1 (ground arith) there in
            (a' ∙ a, b' ∙ b)
      ]

  push_guarded-LeavesOut :
      (seen s : RelayServer) (rev : ℕ) (fp k : Fingerprint) (conn : CtrlConn)
      → Inv seen.leases
      → lease_of seen.leases fp ≡ none
      → All (LeavesOut fp) (push_guarded reaches s k conn (roster_for seen rev k)).1
  unfolding push_guarded roster_for
  push_guarded-LeavesOut seen s rev fp k conn v gone =
      let shown = snapshot_roster_sound seen.leases k seen.config.public_ip v.leases in
      let without : All (λ d. d.fingerprint ≢ fp)
          (snapshot_roster seen.leases k seen.config.public_ip) =
        All-mono _ _
          (λ d sees same.
            let (e, found, _, _, _, _) = sees in
            let here : lease_of seen.leases fp ≡ some e =
              ap (λ x. lease_of seen.leases x) (sym same) ∙ found in
            ground arith)
          _ shown in
      ground arith

  push_rosters-LeavesOut :
      (seen s : RelayServer) (rev : ℕ) (m : Map Fingerprint CtrlConn) (fp : Fingerprint)
      → Inv seen.leases
      → lease_of seen.leases fp ≡ none
      → get Bytes-discrete fp m ≡ none
      → All (LeavesOut fp) (push_rosters reaches seen s rev m).1
  unfolding push_rosters get
  push_rosters-LeavesOut seen s rev [] fp v gone absent = tt
  push_rosters-LeavesOut seen s rev ((k, conn) ∷ m) fp v gone absent =
      let apart : fp ≢ k = λ e. ground arith in
      let msg = roster_for seen rev k in
      let sent = push_guarded reaches s k conn msg in
      let evicted = (push_guarded reaches seen k conn msg).0 in
      let seen' = if reaches.at_once conn.conn_id msg then evicted else seen in
      let out = (push_guarded-other reaches seen k fp conn msg apart).1 ∙ gone in
      let kept = push_guarded-Inv reaches seen k conn msg v in
      let rest =
        push_rosters-LeavesOut seen' sent.0 rev m fp
          (either (λ t. Inv t.leases) (reaches.at_once conn.conn_id msg) evicted seen kept v)
          (either (λ t. lease_of t.leases fp ≡ none) (reaches.at_once conn.conn_id msg) evicted seen
            out gone)
          (ground arith) in
      All-append (LeavesOut fp) sent.1 (push_rosters reaches seen' sent.0 rev m).1
        (push_guarded-LeavesOut seen s rev fp k conn v gone) rest

-- What a request to leave has done.
abbrev pub Gone : Reaches → RelayServer → Fingerprint → RelayServer → List Effect → Type 0
Gone reaches s fp s' effects =
    (conn_of s' fp ≡ none)
    × (lease_of s'.leases fp ≡ none)
    × Inv s'.leases
    × All (LeavesOut fp) effects
    × ((q : Fingerprint) (c : CtrlConn)
        → q ≢ fp
        → conn_of s q ≡ some c
        → ((msg : RelayMsg) → reaches.arrives c.conn_id msg ≡ true)
        → (conn_of s' q ≡ some c) × (lease_of s'.leases q ≡ lease_of s.leases q))

module _ (reaches : Reaches) where
  broadcast_roster-Gone :
      (s : RelayServer) (fp : Fingerprint)
      → Distinct Bytes-discrete s.conns
      → Inv s.leases
      → let t = evict s fp in let r = broadcast_roster reaches t in Gone reaches s fp r.0 r.1
  unfolding broadcast_roster evict
  broadcast_roster-Gone s fp d v =
      let t = evict s fp in
      let next = next_rev t in
      let left = get-remove Bytes-discrete fp fp s.conns in
      let absent : get Bytes-discrete fp t.conns ≡ none = ground arith in
      let gone : lease_of t.leases fp ≡ none =
        ground (arith, lease_of-remove_lease s.leases fp fp) in
      let valid : Inv t.leases = Step-Inv (removes fp) v in
      let (a, b) = push_rosters-other reaches next next t.roster_rev t.conns fp absent in
      (
        a ∙ absent,
        b ∙ gone,
        push_rosters-Inv reaches next next t.roster_rev t.conns valid,
        push_rosters-LeavesOut reaches next next t.roster_rev t.conns fp valid gone absent,
        λ q c apart known there.
            let conn_same : conn_of t q ≡ some c =
              ground (arith, get-remove Bytes-discrete fp q s.conns) in
            let lease_same : lease_of t.leases q ≡ lease_of s.leases q =
              ground (arith, lease_of-remove_lease s.leases fp q) in
            let (x, y) =
              push_rosters-keeps reaches next next t.roster_rev t.conns q c
                (remove-Distinct Bytes-discrete fp s.conns d) conn_same there in
            (x ∙ conn_same, y ∙ lease_same),
      )

  -- In a well-formed lease table and a table of connections without double entries, the request of
  -- a registered device to leave takes away its connection and its lease, keeps the table well
  -- formed, sends nothing but rosters without the device, and leaves every other device to which
  -- all pushes get through its connection and its lease.
  pub handle_request-leave :
      (out : Outside) (s : RelayServer) (conn_id now : ℕ) (fp : Fingerprint) (cc : CtrlConn)
      → find_conn conn_id s.conns ≡ some (fp, cc)
      → Distinct Bytes-discrete s.conns
      → Inv s.leases
      → let r = handle_request out reaches s conn_id now RelayMsg.leave in
        (r.outcome ≡ Outcome.accepted) × Gone reaches s fp r.server r.effects
  unfolding handle_request handle_leave evict
  handle_request-leave out s conn_id now fp cc known d v =
      rw (known, handle_leave) (refl, broadcast_roster-Gone s fp d v)
