-- ===== src/Relay/Requests/Invariant.antt =====
-- crates/localtrans-relay/src/control.rs: no request of a client breaks the lease table.
use localtrans.Base.{
  ℕ, ◌≡◌, sym, subst, none, arith, if◌then◌else◌, inl, inr, Bool-cases, Option-cases,
  Bytes-discrete,
}
use localtrans.Base.Maps.{get}
use localtrans.Relay.Proto.{Fingerprint, RelayMsg}
use localtrans.Relay.Lease.{is_hidden, alloc_session_port}
use localtrans.Relay.Lease.Reach.{Inv, Step-Inv, beats, removes, pairs}
use localtrans.Relay.Control.{
  RelayServer, CtrlConn, Reaches, find_conn, punch_rate_ok, broadcast_roster,
}
use localtrans.Relay.Control.Pushes.{push_guarded-Inv, push_rosters-Inv}
use localtrans.Relay.Requests.{
  Outside, punch_target, handle_punch, handle_ping, handle_leave, handle_request,
}

module _ (out : Outside) (reaches : Reaches) where
  leases-punch_rate_ok :
      (s : RelayServer) (fp : Fingerprint) (now : ℕ) → (punch_rate_ok s fp now).0.leases ≡ s.leases
  unfolding punch_rate_ok
  leases-punch_rate_ok s fp now = ground arith

  punch_target-Inv :
      (s : RelayServer) (from target : Fingerprint) (requester callee : CtrlConn) (now : ℕ)
      → Inv s.leases
      → Inv (punch_target out reaches s from requester target callee now).0.leases
  unfolding punch_target
  punch_target-Inv s from target requester callee now v =
      let t = alloc_session_port s.leases from target now in
      let paired : Inv t.0 = Step-Inv (pairs from target now) v in
      elim (Option-cases t.1) [
        | inl e ↦ rw (e, punch_target) (push_guarded-Inv reaches _ _ _ _ paired)
        | inr (p, e) ↦
            rw (e, punch_target)
              (push_guarded-Inv reaches _ _ _ _ (push_guarded-Inv reaches _ _ _ _ paired))
      ]

  handle_ping-Inv :
      (s : RelayServer) (conn_id now : ℕ)
      → Inv s.leases
      → Inv (handle_ping out reaches s conn_id now).0.leases
  unfolding handle_ping
  handle_ping-Inv s conn_id now v = elim (Option-cases (find_conn conn_id s.conns)) [
    | inl e ↦ rw (e, handle_ping) v
    | inr ((fp, c), e) ↦
        rw (e, handle_ping) (push_guarded-Inv reaches _ _ _ _ (Step-Inv (beats fp now) v))
  ]

  handle_leave-Inv :
      (s : RelayServer) (conn_id : ℕ)
      → Inv s.leases
      → Inv (handle_leave out reaches s conn_id).0.leases
  unfolding handle_leave broadcast_roster
  handle_leave-Inv s conn_id v = elim (Option-cases (find_conn conn_id s.conns)) [
    | inl e ↦ rw (e, handle_leave) v
    | inr ((fp, c), e) ↦
        rw (e, handle_leave) (push_rosters-Inv reaches _ _ _ _ (Step-Inv (removes fp) v))
  ]

  handle_punch-Inv :
      (s : RelayServer) (conn_id : ℕ) (target : Fingerprint) (now : ℕ)
      → Inv s.leases
      → Inv (handle_punch out reaches s conn_id target now).0.leases
  unfolding handle_punch
  handle_punch-Inv s conn_id target now v = elim (Option-cases (find_conn conn_id s.conns)) [
    | inl e ↦ rw (e, handle_punch) v
    | inr ((fp, c), e) ↦ elim (Option-cases (get Bytes-discrete fp s.conns)) [
      | inl f ↦ rw (e, f, handle_punch) v
      | inr (requester, f) ↦
          let rated : Inv (punch_rate_ok s fp now).0.leases =
            subst Inv (sym (leases-punch_rate_ok s fp now)) v in
          let reach =
            if is_hidden s.leases target then none else get Bytes-discrete target s.conns in
          elim (Option-cases reach) [
            | inl g ↦ rw (e, f, g, handle_punch) (push_guarded-Inv reaches _ _ _ _ v)
            | inr (callee, g) ↦ elim (Bool-cases (punch_rate_ok s fp now).1) [
              | inl b ↦ rw (e, f, g, b, handle_punch) (punch_target-Inv _ _ _ _ _ _ rated)
              | inr b ↦ rw (e, f, g, b, handle_punch) (push_guarded-Inv reaches _ _ _ _ rated)
            ]
          ]
    ]
  ]

  -- Every request of a registered client keeps the lease table well formed, whichever pushes fail
  -- on the way.
  handle_request-Inv :
      (s : RelayServer) (conn_id now : ℕ) (msg : RelayMsg)
      → Inv s.leases
      → Inv (handle_request out reaches s conn_id now msg).server.leases
  unfolding handle_request
  handle_request-Inv s conn_id now RelayMsg.ping v = handle_ping-Inv s conn_id now v
  handle_request-Inv s conn_id now (RelayMsg.punch target) v =
      handle_punch-Inv s conn_id target now v
  handle_request-Inv s conn_id now RelayMsg.leave v = handle_leave-Inv s conn_id v
  handle_request-Inv s conn_id now (RelayMsg.register _ _ _ _ _) v = v
  handle_request-Inv s conn_id now (RelayMsg.server_nonce _) v = v
  handle_request-Inv s conn_id now (RelayMsg.register_ack _ _) v = v
  handle_request-Inv s conn_id now (RelayMsg.roster _ _) v = v
  handle_request-Inv s conn_id now (RelayMsg.punch_notif _ _) v = v
  handle_request-Inv s conn_id now (RelayMsg.punch_resp _ _ _) v = v
  handle_request-Inv s conn_id now (RelayMsg.error _ _) v = v
