-- ===== src/Relay/DataPlane/Access.antt =====
-- crates/localtrans-relay/src/data_plane.rs: whose packets have an effect, and where they go.
use localtrans.Base.{
  ℕ, ◌≤◌, ◌≡◌, ◌≢◌, ◌⊎◌, inl, inr, refl, sym, ◌∙◌, ap, true, false, none, some, Bytes,
  Bytes-discrete, ℕ_discrete, arith, length, drop, ok, Option-cases, Result-cases,
}
use localtrans.Base.Maps.{Map, get, insert, get-insert}
use localtrans.Net.{SocketAddr}
use localtrans.Relay.Proto.{Fingerprint, Token, flag_data, data_header_decode}
use localtrans.Relay.Lease.{
  LeaseTable, token_owner, data_packet_ok, get_by_token, session_member_ok, session_member_ok_inner,
  touch_session, session_members_of,
}
use localtrans.Relay.DataPlane.{
  DataPlane, Datagram, received, count_bytes, addrs_of, follow_drift, other_side, forward, dispatch,
  is_session_flag, admit, authenticate, on_datagram,
}

-- A KNOCK, DATA or GOODBYE packet with the token of a device that is no member of the port sends
-- nothing, teaches nothing and changes no session.
pub on_datagram_stranger :
    (d : DataPlane) (port : ℕ) (from : SocketAddr) (datagram : Bytes) (now : ℕ) (token : Token)
    (flag : ℕ) (src : Fingerprint)
    → data_header_decode (received datagram) ≡ ok (token, flag)
    → token_owner d.leases token ≡ some src
    → is_session_flag flag ≡ true
    → session_member_ok_inner d.leases port src ≡ false
    → let (d', out) = on_datagram d port from datagram now in
      (out ≡ none)
      × (d'.learned ≡ d.learned)
      × (d'.leases.session_ports ≡ d.leases.session_ports)
      × (d'.leases.session_members ≡ d.leases.session_members)
      × (d'.leases.session_activity ≡ d.leases.session_activity)
unfolding on_datagram authenticate admit get_by_token session_member_ok session_member_ok_inner
    count_bytes
on_datagram_stranger d port from datagram now token flag src header known session stranger =
    ground arith

-- What `follow_drift` can change is the source's own address.
pub addrs_of-follow_drift :
    (d : DataPlane) (port : ℕ) (src q : Fingerprint) (from : SocketAddr)
    → q ≢ src
    → get Bytes-discrete q (addrs_of (follow_drift d port src from) port)
      ≡ get Bytes-discrete q (addrs_of d port)
unfolding follow_drift addrs_of
addrs_of-follow_drift d port src q from other =
    elim (Option-cases (get ℕ_discrete port d.learned)) [
      | inl e ↦ rw (e, follow_drift)
      | inr (m, e) ↦ ground (
        arith,
        get-insert ℕ_discrete port port (insert Bytes-discrete src from m) d.learned,
        get-insert Bytes-discrete src q from m,
      )
    ]

-- The two devices of a session, in either order.
abbrev pub Between : LeaseTable → ℕ → Fingerprint → Fingerprint → Type 0
Between t port a b =
    (session_members_of t port ≡ some (a, b)) ⊎ (session_members_of t port ≡ some (b, a))

forward-some :
    (d : DataPlane) (port : ℕ) (src : Fingerprint) (payload : Bytes) (out : Datagram)
    → forward d port src payload ≡ some out
    → (dst : Fingerprint) × (other_side (session_members_of d.leases port) src (addrs_of d port)
        ≡ some dst)
      × (get Bytes-discrete dst (addrs_of d port) ≡ some out.to)
      × (out.payload ≡ payload)
unfolding forward addrs_of
forward-some d port src payload out h = elim (Option-cases (get ℕ_discrete port d.learned)) [
  | inl e ↦ absurd (ground arith)
  | inr (m, e) ↦ elim (Option-cases (other_side (session_members_of d.leases port) src m)) [
    | inl f ↦ absurd (ground arith)
    | inr (dst, f) ↦ (dst, ground arith, ground arith, ground arith)
  ]
]

-- A member of a port has exactly one other side.
other_side-Between :
    (t : LeaseTable) (port : ℕ) (src dst : Fingerprint) (m : Map Fingerprint SocketAddr)
    → session_member_ok_inner t port src ≡ true
    → other_side (session_members_of t port) src m ≡ some dst
    → Between t port src dst
unfolding session_member_ok_inner other_side
other_side-Between t port src dst m member h = elim (Option-cases (session_members_of t port)) [
  | inl e ↦ absurd (ground arith)
  | inr (p, e) ↦ elim (Bytes-discrete p.0 src) [
    | yes s ↦ inl (ground arith)
    | no s ↦ inr (ground arith)
  ]
]

admit-some :
    (d : DataPlane) (port : ℕ) (src : Fingerprint) (from : SocketAddr) (flag : ℕ) (payload : Bytes)
    (now : ℕ) (out : Datagram)
    → (admit d port src from flag payload now).1 ≡ some out
    → (flag ≡ flag_data)
      × (session_member_ok_inner d.leases port src ≡ true)
      × (forward
            (follow_drift (record d { leases = touch_session d.leases port now }) port src from)
            port
            src
            payload
          ≡ some out)
unfolding admit dispatch session_member_ok
admit-some d port src from flag payload now out h = ground arith

authenticate-some :
    (d : DataPlane) (port : ℕ) (token : Token) (from : SocketAddr) (flag : ℕ) (payload : Bytes)
    (now : ℕ) (out : Datagram)
    → (authenticate d port token from flag payload now).1 ≡ some out
    → (src : Fingerprint) × (token_owner d.leases token ≡ some src)
      × ((admit
            (record d { leases = (get_by_token d.leases token now).0 })
            port
            src
            from
            flag
            payload
            now).1
          ≡ some out)
unfolding authenticate get_by_token
authenticate-some d port token from flag payload now out h =
    elim (Option-cases (token_owner d.leases token)) [
      | inl e ↦ absurd (ground arith)
      | inr (src, e) ↦ (src, e, ground arith)
    ]

pub leases-follow_drift :
    (d : DataPlane) (port : ℕ) (src : Fingerprint) (from : SocketAddr)
    → (follow_drift d port src from).leases ≡ d.leases
unfolding follow_drift
leases-follow_drift d port src from = ground arith

-- The session members do not change between the header and the dispatch.
members-get_by_token :
    (t : LeaseTable) (port : ℕ) (token : Token) (now : ℕ)
    → session_members_of (get_by_token t token now).0 port ≡ session_members_of t port
unfolding session_members_of get_by_token
members-get_by_token t port token now = ground arith

members-touch_session :
    (t : LeaseTable) (port now : ℕ)
    → session_members_of (touch_session t port now) port ≡ session_members_of t port
unfolding session_members_of touch_session
members-touch_session t port now = refl

-- Whatever the relay sends out is the payload, of at most 1500 bytes, of a DATA packet with the
-- token of one member of the session of the port it arrived at, and goes, where the two differ, to
-- the address learned of the other member.
pub on_datagram_forwards :
    (d : DataPlane) (port : ℕ) (from : SocketAddr) (datagram : Bytes) (now : ℕ) (out : Datagram)
    → (on_datagram d port from datagram now).1 ≡ some out
    → (token : Token) × (src : Fingerprint) × (dst : Fingerprint) × (data_header_decode
          (received datagram)
        ≡ ok (token, flag_data))
      × (token_owner d.leases token ≡ some src)
      × Between d.leases port src dst
      × (out.payload ≡ drop 18 (received datagram))
      × (length out.payload ≤ 1500)
      × (dst ≢ src → get Bytes-discrete dst (addrs_of d port) ≡ some out.to)
unfolding on_datagram count_bytes data_packet_ok addrs_of
on_datagram_forwards d port from datagram now out h =
    elim (Result-cases (data_header_decode (received datagram))) [
      | inr (e, bad) ↦ absurd (ground arith)
      | inl ((token, flag), header) ↦
          let counted = count_bytes d port (length (received datagram)) in
          let small : length (drop 18 (received datagram)) ≤ 1500 = ground arith in
          let sent : (authenticate counted port token from flag (drop 18 (received datagram)) now).1
              ≡ some out =
            ground arith in
          let (src, known, admitted) =
            authenticate-some counted port token from flag _ now out sent in
          let t = (get_by_token d.leases token now).0 in
          let authed = record counted { leases = t } in
          let (is_data, member, forwarded) =
            admit-some authed port src from flag _ now out admitted in
          let ready = record authed { leases = touch_session t port now } in
          let (dst, side, at, same) =
            forward-some (follow_drift ready port src from) port src _ out forwarded in
          let members : session_members_of (follow_drift ready port src from).leases port
              ≡ session_members_of t port =
            ap (λ u. session_members_of u port) (leases-follow_drift ready port src from)
            ∙ members-touch_session t port now in
          let between : Between t port src dst =
            other_side-Between t port src dst (addrs_of (follow_drift ready port src from) port)
              member (rw members at side) in
          (
            token,
            src,
            dst,
            ground arith,
            known,
            rw members-get_by_token at between,
            same,
            rw same small,
            λ other. sym (addrs_of-follow_drift ready port src dst from other) ∙ at,
          )
    ]
