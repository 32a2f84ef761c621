-- ===== src/Relay/Requests/Registration.antt =====
-- crates/localtrans-relay/src/control.rs: who is registered, and by which proof.
use localtrans.Base.{
  ℕ, ◌+◌, ◌<◌, ◌^◌, ◌≡◌, ◌≢◌, refl, sym, subst, ap, ◌∙◌, Bool, true, false, none, some, [], ◌∷◌,
  ◌++◌, String, Bytes, List, All, All-append, if◌then◌else◌, arith, inl, inr, Option-cases,
  Bytes-discrete, holds, not, Option,
}
use localtrans.Base.Maps.{Map, get, insert, get-insert, get-retain, Distinct, insert-Distinct}
use localtrans.Net.{IpAddr, SocketAddr}
use localtrans.Relay.Proto.{Fingerprint, Token, LeaseInfo, RemoteDevice, RelayMsg}
use localtrans.Relay.Lease.{
  AllocatedLease, alloc, lease_of, lease_info, token_owner, snapshot_roster,
}
use localtrans.Relay.Lease.Reach.{Inv}
use localtrans.Relay.Lease.Methods.{alloc_registers}
use localtrans.Relay.Control.{
  RelayServer, CtrlConn, Reaches, Effect, pushes, closes, push_guarded, push_rosters, roster_for,
  next_rev, broadcast_roster_except, find_conn, on_conn_closed, record_auth_failure,
}
use localtrans.Relay.Control.AuthLimit.{failure_count, failure_count-record}
use localtrans.Relay.Control.Pushes.{conn_of, push_rosters-other}
use localtrans.Relay.Requests.{
  Outcome, Outside, Reply, register_granted, await_signed_register, register_or_count,
}

-- Whether a first message is a registration with a valid proof for the nonce.
abbrev pub proves : Outside → Bytes → RelayMsg → Bool
proves out nonce (RelayMsg.register name fp hidden cert_der nonce_sig) =
    out.verify_possession fp cert_der (fp ++ nonce) nonce_sig
proves out nonce _ = false

-- A roster, or the end of a connection.
abbrev pub IsRoster : Effect → Type 0
IsRoster (pushes _ (RelayMsg.roster _ _)) = Unit
IsRoster (closes _) = Unit
IsRoster _ = ⊥

push_guarded-IsRoster :
    (reaches : Reaches) (s : RelayServer) (fp : Fingerprint) (cc : CtrlConn) (rev : ℕ)
    (devices : List RemoteDevice)
    → All IsRoster (push_guarded reaches s fp cc (RelayMsg.roster rev devices)).1
unfolding push_guarded
push_guarded-IsRoster reaches s fp cc rev devices = ground arith

push_rosters-IsRoster :
    (reaches : Reaches) (seen s : RelayServer) (rev : ℕ) (m : Map Fingerprint CtrlConn)
    → All IsRoster (push_rosters reaches seen s rev m).1
unfolding push_rosters push_guarded roster_for
push_rosters-IsRoster reaches seen s rev [] = tt
push_rosters-IsRoster reaches seen s rev ((fp, cc) ∷ m) =
    let msg = roster_for seen rev fp in
    let sent = push_guarded reaches s fp cc msg in
    let seen' =
      if reaches.at_once cc.conn_id msg then (push_guarded reaches seen fp cc msg).0 else seen in
    All-append IsRoster sent.1 (push_rosters reaches seen' sent.0 rev m).1
      (push_guarded-IsRoster reaches s fp cc rev
        (snapshot_roster seen.leases fp seen.config.public_ip))
      (push_rosters-IsRoster reaches seen' sent.0 rev m)

leases-record_auth_failure :
    (s : RelayServer) (ip : IpAddr) (now : ℕ)
    → ((record_auth_failure s ip now).leases ≡ s.leases)
      × ((record_auth_failure s ip now).conns ≡ s.conns)
unfolding record_auth_failure
leases-record_auth_failure s ip now = (ground arith, ground arith)

module _ (out : Outside) (reaches : Reaches) (s : RelayServer) (conn_id : ℕ) (remote : SocketAddr)
    (nonce : Bytes) (now : ℕ) (token : Token) where
  await-unproven :
      (msg : RelayMsg)
      → proves out nonce msg ≡ false
      → let r = await_signed_register out reaches s conn_id remote nonce now token msg in
        (r.outcome ≡ Outcome.refused) × (r.server ≡ s)
  unfolding await_signed_register
  await-unproven msg h = (ground arith, ground arith)

  -- A first message that is no registration with a valid proof is refused, changes no lease and no
  -- connection, and adds one failure to the address, whose count does not wrap around.
  pub register_or_count-unproven :
      (msg : RelayMsg)
      → proves out nonce msg ≡ false
      → failure_count s remote.ip + 1 < 2 ^ 32
      → let r = register_or_count out reaches s conn_id remote nonce now token msg in
        (r.outcome ≡ Outcome.refused)
        × (r.server.leases ≡ s.leases)
        × (r.server.conns ≡ s.conns)
        × (failure_count r.server remote.ip ≡ failure_count s remote.ip + 1)
  unfolding register_or_count
  register_or_count-unproven msg h small =
      let (refused, same) = await-unproven msg h in
      let kept = leases-record_auth_failure s remote.ip now in
      let counted = failure_count-record s remote.ip now small in
      rw (refused, register_or_count) (rw same (refused, kept.0, kept.1, counted))

  -- The client is told its lease and the address that it is seen at, if it can be reached.
  abbrev pub acknowledged : Option LeaseInfo → List Effect
  acknowledged lease =
      let ack = RelayMsg.register_ack lease (some (out.to_string remote)) in
      if reaches.arrives conn_id ack then pushes conn_id ack ∷ [] else []

  -- The device is registered with its lease, and is told the lease that the table has for it; what else
  -- is done is rosters and the ends of connections.
  abbrev pub Registered : Fingerprint → AllocatedLease → Reply → Type 0
  Registered fp a r =
      let lease = lease_info r.server.leases fp in
      (r.outcome ≡ Outcome.accepted)
      × (conn_of r.server fp ≡ some (record { conn_id = conn_id; fp = fp }))
      × (lease ≡ some (record { data_port = a.port; token = a.token }))
      × (rest : List Effect) × (r.effects ≡ acknowledged lease ++ rest)
      × All IsRoster rest

  broadcast_roster_except-IsRoster :
      (t : RelayServer) (fp : Fingerprint) → All IsRoster (broadcast_roster_except reaches t fp).1
  unfolding broadcast_roster_except
  broadcast_roster_except-IsRoster t fp =
      push_rosters-IsRoster reaches (next_rev t) (next_rev t) t.roster_rev _

  broadcast_roster_except-own :
      (t : RelayServer) (fp : Fingerprint)
      → Distinct Bytes-discrete t.conns
      → let t' = (broadcast_roster_except reaches t fp).0 in
        (conn_of t' fp ≡ conn_of t fp) × (lease_of t'.leases fp ≡ lease_of t.leases fp)
  unfolding broadcast_roster_except
  broadcast_roster_except-own t fp d =
      push_rosters-other reaches (next_rev t) (next_rev t) t.roster_rev _ fp (
        get-retain Bytes-discrete (λ q _. not (holds (Bytes-discrete q fp))) fp t.conns d
        ∙ ground arith)

  -- A device that has a lease in the table is registered and told so.
  register_granted-Registered :
      (t : RelayServer) (fp : Fingerprint) (a : AllocatedLease)
      → Distinct Bytes-discrete t.conns
      → lease_info t.leases fp ≡ some (record { data_port = a.port; token = a.token })
      → Registered fp a (register_granted out reaches t conn_id remote fp a)
  unfolding register_granted lease_info
  register_granted-Registered t fp a d info =
      let mine : CtrlConn = record { conn_id = conn_id; fp = fp } in
      let t' = record t { conns = insert Bytes-discrete fp mine t.conns } in
      let rest = (broadcast_roster_except reaches t' fp).1 in
      let (own, lease) =
        broadcast_roster_except-own t' fp (insert-Distinct Bytes-discrete fp mine t.conns d) in
      let told : lease_info (broadcast_roster_except reaches t' fp).0.leases fp
          ≡ some (record { data_port = a.port; token = a.token }) =
        ground arith in
      (
        refl,
        ground (arith, get-insert Bytes-discrete fp fp mine t.conns),
        told,
        rest,
        ap (λ l. acknowledged l ++ rest) (sym told),
        broadcast_roster_except-IsRoster t' fp,
      )

  register_or_count-granted :
      (name : String) (fp : Fingerprint) (hidden : Bool) (cert_der nonce_sig : Bytes)
      (a : AllocatedLease)
      → proves out nonce (RelayMsg.register name fp hidden cert_der nonce_sig) ≡ true
      → (alloc s.leases fp name hidden now token).1 ≡ some a
      → register_or_count out reaches s conn_id remote nonce now token
          (RelayMsg.register name fp hidden cert_der nonce_sig)
        ≡ register_granted out reaches
            (record s { leases = (alloc s.leases fp name hidden now token).0 })
            conn_id
            remote
            fp
            a
  unfolding register_or_count await_signed_register register_granted
  register_or_count-granted name fp hidden cert_der nonce_sig a ok_sig granted = ground arith

  -- A device that proves its possession and is given a lease, in a well-formed table, with an
  -- unused token and a table of connections without double entries, is registered under its
  -- connection with the port and token of its lease; if it can be reached, it is told first, and
  -- once, exactly the lease that the table has for it and the address that it is seen at; whatever
  -- else the server does is sending rosters and ending connections, whichever of these pushes fail.
  pub register_or_count-proven :
      (name : String) (fp : Fingerprint) (hidden : Bool) (cert_der nonce_sig : Bytes)
      (a : AllocatedLease)
      → proves out nonce (RelayMsg.register name fp hidden cert_der nonce_sig) ≡ true
      → Inv s.leases
      → Distinct Bytes-discrete s.conns
      → token_owner s.leases token ≡ none
      → (alloc s.leases fp name hidden now token).1 ≡ some a
      → Registered fp a (
          register_or_count out reaches s conn_id remote nonce now token
            (RelayMsg.register name fp hidden cert_der nonce_sig))
  register_or_count-proven name fp hidden cert_der nonce_sig a ok_sig v d fresh granted =
      let t = alloc s.leases fp name hidden now token in
      let (info, _, _, _) =
        alloc_registers s.leases fp name hidden now token a v.leases fresh granted in
      subst (Registered fp a)
        (sym (register_or_count-granted name fp hidden cert_der nonce_sig a ok_sig granted))
        (register_granted-Registered (record s { leases = t.0 }) fp a d info)

find_conn-id :
    (id : ℕ) (m : Map Fingerprint CtrlConn) (q : Fingerprint) (c : CtrlConn)
    → find_conn id m ≡ some (q, c)
    → c.conn_id ≡ id
unfolding find_conn
find_conn-id id [] q c h = absurd (ground arith)
find_conn-id id ((fp, b) ∷ m) q c h =
    ground (arith, find_conn-id id m q c, ap (λ x. x.conn_id) {x = b} {y = c})

pub find_conn-get :
    (id : ℕ) (m : Map Fingerprint CtrlConn) (q : Fingerprint) (c : CtrlConn)
    → Distinct Bytes-discrete m
    → find_conn id m ≡ some (q, c)
    → get Bytes-discrete q m ≡ some c
unfolding find_conn get
find_conn-get id [] q c d h = absurd (ground arith)
find_conn-get id ((fp, b) ∷ m) q c d h =
    ground
      (arith, find_conn-get id m q c d.1, d.0, ap (λ k. get Bytes-discrete k m) {x = fp} {y = q})

-- When a device has reconnected under a new number, no other connection has the old number, and the
-- table of connections has no double entries, the end of its old connection changes nothing and
-- tells nobody.
on_conn_closed-superseded :
    (reaches : Reaches) (s : RelayServer) (fp : Fingerprint) (old new : CtrlConn)
    → Distinct Bytes-discrete s.conns
    → ((q : Fingerprint) (other : CtrlConn)
        → conn_of s q ≡ some other
        → q ≢ fp
        → other.conn_id ≢ old.conn_id)
    → new.conn_id ≢ old.conn_id
    → let s' = record s { conns = insert Bytes-discrete fp new s.conns } in
      on_conn_closed reaches s' old.conn_id ≡ (s', [])
unfolding on_conn_closed
on_conn_closed-superseded reaches s fp old new d unique fresh =
    let m = insert Bytes-discrete fp new s.conns in
    elim (Option-cases (find_conn old.conn_id m)) [
      | inl e ↦ rw (e, on_conn_closed) refl
      | inr ((q, c), e) ↦
          let id = find_conn-id old.conn_id m q c e in
          let there =
            find_conn-get old.conn_id m q c (insert-Distinct Bytes-discrete fp new s.conns d) e in
          let at_q = get-insert Bytes-discrete fp q new s.conns in
          elim (Bytes-discrete fp q) [
            | yes same ↦
                let is_new : c ≡ new = ground arith in
                absurd (fresh (ap (λ x. x.conn_id) (sym is_new) ∙ id))
            | no apart ↦ absurd (unique q c (ground arith) (λ e'. apart (sym e')) id)
          ]
    ]
