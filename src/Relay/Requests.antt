-- ===== src/Relay/Requests.antt =====
-- crates/localtrans-relay/src/control.rs: the messages of a client, from its registration on.
pub mod Punch
pub mod Registration
pub mod Invariant
pub mod Leave
use localtrans.Base.{
  ℕ, ◌++◌, Bool, true, false, Option, none, some, List, [], ◌∷◌, String, Bytes, Bytes-discrete,
  if◌then◌else◌,
}
use localtrans.Base.Maps.{get, insert, remove}
use localtrans.Net.{IpAddr, SocketAddr}
use localtrans.Relay.Proto.{Fingerprint, Token, LeaseInfo, RelayMsg}
use localtrans.Relay.Lease.{
  LeaseTable, AllocatedLease, alloc, remove_lease, heartbeat, is_hidden, alloc_session_port,
}
use localtrans.Relay.Control.{
  RelayServer, CtrlConn, Effect, pushes, closes, Reaches, evict, push_guarded, roster_for, next_rev,
  broadcast_roster, broadcast_roster_except, find_conn, punch_rate_ok, record_auth_failure,
}

-- How a request ends.
pub data Outcome : Type 0 where
  accepted refused : Outcome

pub record Reply : Type 0 where
  pub server : RelayServer
  pub effects : List Effect
  pub outcome : Outcome

abbrev done : RelayServer × List Effect → Reply
done (s, effects) = record { server = s; effects = effects; outcome = Outcome.accepted }

-- What the control plane takes from outside: `identity::verify_possession` and the printing of a
-- socket address.
pub record Outside : Type 0 where
  pub verify_possession : Fingerprint → Bytes → Bytes → Bytes → Bool
  pub to_string : SocketAddr → String

-- `send_error_then_close`
abbrev deny : Reaches → RelayServer → ℕ → ℕ → String → Reply
deny reaches s conn_id code msg =
    let told =
      if reaches.opens_uni conn_id then pushes conn_id (RelayMsg.error code msg) ∷ [] else [] in
    record { server = s; effects = told ++ closes conn_id ∷ []; outcome = Outcome.refused }

module _ (out : Outside) (reaches : Reaches) where
  -- The lease is granted: the connection is entered and everybody else is told.
  unfoldable pub register_granted :
      RelayServer → ℕ → SocketAddr → Fingerprint → AllocatedLease → Reply
  register_granted s conn_id remote fp a =
      let cc : CtrlConn = record { conn_id = conn_id; fp = fp } in
      let s' = record s { conns = insert Bytes-discrete fp cc s.conns } in
      let ack =
        RelayMsg.register_ack (some (record { data_port = a.port; token = a.token }))
          (some (out.to_string remote)) in
      let acked = if reaches.arrives conn_id ack then pushes conn_id ack ∷ [] else [] in
      let (s'', told) = broadcast_roster_except reaches s' fp in done (s'', acked ++ told)

  -- `await_signed_register`: the first message, after the nonce was pushed.
  unfoldable pub await_signed_register :
      RelayServer → ℕ → SocketAddr → Bytes → ℕ → Token → RelayMsg → Reply
  await_signed_register s conn_id remote nonce now token
        (RelayMsg.register name fp hidden cert_der nonce_sig) =
      if out.verify_possession fp cert_der (fp ++ nonce) nonce_sig
      then (let (leases, allocated) = alloc s.leases fp name hidden now token in
          let s' = record s { leases = leases } in
          elim allocated [
            | none ↦
                if reaches.opens_uni conn_id
                then done (
                  s',
                  pushes conn_id (RelayMsg.register_ack none (some (out.to_string remote))) ∷ [],
                )
                else record { server = s'; effects = []; outcome = Outcome.refused }
            | some a ↦ register_granted s' conn_id remote fp a
          ])
      else deny reaches s conn_id 3 "注册占有证明失败"
  await_signed_register s conn_id remote nonce now token _ =
      deny reaches s conn_id 2 "首条消息必须是 Register"

  -- A registration that fails counts against the address.
  unfoldable pub register_or_count :
      RelayServer → ℕ → SocketAddr → Bytes → ℕ → Token → RelayMsg → Reply
  register_or_count s conn_id remote nonce now token msg =
      let r = await_signed_register s conn_id remote nonce now token msg in
      elim r.outcome [
        | Outcome.accepted ↦ r
        | Outcome.refused ↦ record r { server = record_auth_failure r.server remote.ip now }
      ]

  unfoldable pub handle_ping : RelayServer → ℕ → ℕ → RelayServer × List Effect
  handle_ping s conn_id now = elim (find_conn conn_id s.conns) [
    | none ↦ (s, [])
    | some (fp, cc) ↦
        let s' = record s { leases = heartbeat s.leases fp now } in
        push_guarded reaches (next_rev s') fp cc (roster_for s' s.roster_rev fp)
  ]

  abbrev pub punch_refused : String → RelayMsg
  punch_refused reason = RelayMsg.punch_resp false (some reason) none

  -- Both sides are told the address of a session port that is theirs.
  unfoldable pub punch_target :
      RelayServer → Fingerprint → CtrlConn → Fingerprint → CtrlConn → ℕ → RelayServer × List Effect
  punch_target s requester_fp requester_cc target_fp target_cc now =
      let (leases, port) = alloc_session_port s.leases requester_fp target_fp now in
      let s' = record s { leases = leases } in
      elim port [
        | none ↦ push_guarded reaches s' requester_fp requester_cc (punch_refused "会话端口耗尽")
        | some p ↦
            let addr : SocketAddr = record { ip = s.config.public_ip; port = p } in
            let (s'', to_target) =
              push_guarded reaches s' target_fp target_cc
                (RelayMsg.punch_notif requester_fp addr) in
            let (s''', to_requester) =
              push_guarded reaches s'' requester_fp requester_cc
                (RelayMsg.punch_resp true none (some (out.to_string addr))) in
            (s''', to_target ++ to_requester)
      ]

  unfoldable pub handle_punch : RelayServer → ℕ → Fingerprint → ℕ → RelayServer × List Effect
  handle_punch s conn_id target_fp now = elim (find_conn conn_id s.conns) [
    | none ↦ (s, [])
    | some (requester_fp, _) ↦ elim (get Bytes-discrete requester_fp s.conns) [
      | none ↦ (s, [])
      | some requester_cc ↦
          let target_cc =
            if is_hidden s.leases target_fp then none else get Bytes-discrete target_fp s.conns in
          elim target_cc [
            | none ↦ push_guarded reaches s requester_fp requester_cc (punch_refused "对方当前不可达")
            | some cc ↦
                let (s', within_rate) = punch_rate_ok s requester_fp now in
                if within_rate
                then punch_target s' requester_fp requester_cc target_fp cc now
                else push_guarded reaches s' requester_fp requester_cc
                    (punch_refused "请求过于频繁,请稍后再试")
          ]
    ]
  ]

  unfoldable pub handle_leave : RelayServer → ℕ → RelayServer × List Effect
  handle_leave s conn_id = elim (find_conn conn_id s.conns) [
    | none ↦ (s, [])
    | some (fp, _) ↦ broadcast_roster reaches (record s {
      leases = (remove_lease s.leases fp).0;
      conns = remove Bytes-discrete fp s.conns;
    })
  ]

  -- `handle_request`: a message on a registered connection.
  unfoldable pub handle_request : RelayServer → ℕ → ℕ → RelayMsg → Reply
  handle_request s conn_id now RelayMsg.ping = done (handle_ping s conn_id now)
  handle_request s conn_id now (RelayMsg.punch target_fp) =
      done (handle_punch s conn_id target_fp now)
  handle_request s conn_id now RelayMsg.leave = done (handle_leave s conn_id)
  handle_request s conn_id now _ = record { server = s; effects = []; outcome = Outcome.refused }
