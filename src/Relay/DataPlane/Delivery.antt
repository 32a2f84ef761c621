-- ===== src/Relay/DataPlane/Delivery.antt =====
-- crates/localtrans-relay/src/data_plane.rs: what a member's packets do.
use localtrans.Base.{
  ℕ, ◌+◌, ◌≤◌, ◌≡◌, ◌≢◌, inl, inr, refl, ◌∙◌, ap, true, some, [], ◌++◌, Bytes, Bytes-discrete,
  ℕ_discrete, arith, length, drop, ok, Option-cases, length-append, take_of_length-le,
}
use localtrans.Base.Maps.{Map, get}
use localtrans.Net.{SocketAddr}
use localtrans.Relay.Proto.{Fingerprint, Token, flag_data, data_header_encode, data_header_decode}
use localtrans.Relay.Proto.Roundtrip.{data_header_decode-data_header_encode}
use localtrans.Relay.Lease.{
  LeaseTable, token_owner, data_packet_ok, get_by_token, session_member_ok, session_member_ok_inner,
  touch_session, session_members_of,
}
use localtrans.Relay.DataPlane.{
  DataPlane, received, count_bytes, addrs_of, follow_drift, other_side, forward, dispatch,
  is_session_flag, admit, authenticate, on_datagram,
}
use localtrans.Relay.DataPlane.Access.{Between, addrs_of-follow_drift, leases-follow_drift}

-- A datagram with a header for a 16-byte token.
abbrev pub packet : Token → ℕ → Bytes → Bytes
packet token flag payload = data_header_encode [] token flag ++ payload

length-packet :
    (token : Token) (flag : ℕ) (payload : Bytes)
    → length (packet token flag payload) ≡ 2 + length token + length payload
unfolding data_header_encode
length-packet token flag payload = omega (arith, length-append token payload)

received_lem : (g : Bytes) → length g ≤ 2048 → received g ≡ g
unfolding received
received_lem g h = take_of_length-le 2048 g h

on_datagram-ok :
    (d : DataPlane) (port : ℕ) (from : SocketAddr) (g payload : Bytes) (token : Token)
    (flag now : ℕ)
    → data_header_decode (received g) ≡ ok (token, flag)
    → drop 18 (received g) ≡ payload
    → length payload ≤ 1500
    → on_datagram d port from g now
      ≡ authenticate (count_bytes d port (length (received g))) port token from flag payload now
unfolding on_datagram data_packet_ok
on_datagram-ok d port from g payload token flag now header rest small =
    rw (← rest) (let fits : length (drop 18 (received g)) ≤ 1500 = rw rest small in ground arith)

-- A packet that is not too long is authenticated by its token.
pub on_datagram-packet :
    (d : DataPlane) (port : ℕ) (from : SocketAddr) (token : Token) (flag : ℕ) (payload : Bytes)
    (now : ℕ)
    → length token ≡ 16
    → length payload ≤ 1500
    → on_datagram d port from (packet token flag payload) now
      ≡ authenticate (count_bytes d port (18 + length payload)) port token from flag payload now
on_datagram-packet d port from token flag payload now h small =
    let g = packet token flag payload in
    let size : length g ≡ 18 + length payload = omega (arith, length-packet token flag payload) in
    let whole : received g ≡ g = received_lem g (omega arith) in
    let (header, rest) = data_header_decode-data_header_encode token flag payload h in
    on_datagram-ok d port from g payload token flag now (ap data_header_decode whole ∙ header)
      (ap (drop 18) whole ∙ rest) small
    ∙ ap (λ n. authenticate (count_bytes d port n) port token from flag payload now)
        (ap length whole ∙ size)

forward-of_addrs :
    (d : DataPlane) (port : ℕ) (src dst : Fingerprint) (payload : Bytes) (addr : SocketAddr)
    → other_side (session_members_of d.leases port) src (addrs_of d port) ≡ some dst
    → get Bytes-discrete dst (addrs_of d port) ≡ some addr
    → forward d port src payload ≡ some (record { to = addr; payload = payload })
unfolding forward addrs_of get
forward-of_addrs d port src dst payload addr side at =
    elim (Option-cases (get ℕ_discrete port d.learned)) [
      | inl e ↦ absurd (ground arith)
      | inr (m, e) ↦ ground arith
    ]

side-of_Between :
    (t : LeaseTable) (port : ℕ) (src dst : Fingerprint) (m : Map Fingerprint SocketAddr)
    → Between t port src dst
    → other_side (session_members_of t port) src m ≡ some dst
unfolding other_side
side-of_Between t port src dst m (inl e) = ground arith
side-of_Between t port src dst m (inr e) = ground arith

pub member-of_Between :
    (t : LeaseTable) (port : ℕ) (src dst : Fingerprint)
    → Between t port src dst
    → session_member_ok_inner t port src ≡ true
unfolding session_member_ok_inner
member-of_Between t port src dst (inl e) = ground arith
member-of_Between t port src dst (inr e) = ground arith

-- The state in which a member's packet is dispatched: counted, authenticated and touched.
abbrev pub ready : DataPlane → ℕ → Token → ℕ → ℕ → DataPlane
ready d port token now n = record (count_bytes d port n) {
  leases = touch_session (get_by_token (count_bytes d port n).leases token now).0 port now;
}

module _ (d : DataPlane) (port : ℕ) (from : SocketAddr) (token : Token) (src : Fingerprint)
    (now flag : ℕ) (payload : Bytes) (n : ℕ) where
  -- A member's session packet reaches the dispatch.
  pub authenticate-member :
      token_owner d.leases token ≡ some src
      → session_member_ok_inner d.leases port src ≡ true
      → is_session_flag flag ≡ true
      → authenticate (count_bytes d port n) port token from flag payload now
        ≡ dispatch (ready d port token now n) port src from flag payload
  unfolding authenticate admit session_member_ok session_member_ok_inner get_by_token count_bytes
  authenticate-member known member session = ground arith

pub members-ready :
    (d : DataPlane) (port : ℕ) (token : Token) (now n : ℕ)
    → session_members_of (ready d port token now n).leases port ≡ session_members_of d.leases port
unfolding session_members_of touch_session get_by_token count_bytes
members-ready d port token now n = ground arith

pub addrs-ready :
    (d : DataPlane) (port : ℕ) (token : Token) (now n : ℕ)
    → addrs_of (ready d port token now n) port ≡ addrs_of d port
unfolding addrs_of count_bytes
addrs-ready d port token now n = refl

-- A DATA packet with a known token of 16 bytes and at most 1500 bytes of payload from one member of
-- a session goes out, without its header, to the address that is learned of the other, distinct
-- member.
pub on_datagram-data :
    (d : DataPlane) (port : ℕ) (from : SocketAddr) (token : Token) (src dst : Fingerprint)
    (payload : Bytes) (addr : SocketAddr) (now : ℕ)
    → length token ≡ 16
    → length payload ≤ 1500
    → token_owner d.leases token ≡ some src
    → Between d.leases port src dst
    → dst ≢ src
    → get Bytes-discrete dst (addrs_of d port) ≡ some addr
    → (on_datagram d port from (packet token flag_data payload) now).1
      ≡ some (record { to = addr; payload = payload })
unfolding dispatch
on_datagram-data d port from token src dst payload addr now size small known between apart at =
    let n = 18 + length payload in
    let d' = ready d port token now n in
    let d'' = follow_drift d' port src from in
    let members : session_members_of d''.leases port ≡ session_members_of d.leases port =
      ap (λ t. session_members_of t port) (leases-follow_drift d' port src from)
      ∙ members-ready d port token now n in
    let side : other_side (session_members_of d''.leases port) src (addrs_of d'' port) ≡ some dst =
      rw members (side-of_Between d.leases port src dst (addrs_of d'' port) between) in
    let at'' : get Bytes-discrete dst (addrs_of d'' port) ≡ some addr =
      addrs_of-follow_drift d' port src dst from apart
      ∙ ap (get Bytes-discrete dst) (addrs-ready d port token now n)
      ∙ at in
    ap (λ r. r.1) (on_datagram-packet d port from token flag_data payload now size small)
    ∙ ap (λ r. r.1)
        (authenticate-member d port from token src now flag_data payload n known
          (member-of_Between d.leases port src dst between) refl)
    ∙ forward-of_addrs d'' port src dst payload addr side at''
