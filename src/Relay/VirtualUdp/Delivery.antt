-- ===== src/Relay/VirtualUdp/Delivery.antt =====
-- From one client's socket through the relay to the other's: crates/localtrans-core/src/relay/
-- virtual_ep.rs and crates/localtrans-relay/src/data_plane.rs together.
use localtrans.Base.{
  ℕ, ◌≤◌, ◌≡◌, ◌≢◌, inl, inr, ◌∙◌, ap, some, [], ◌∷◌, Bytes, arith, length, ok, take_of_length-le,
  Result-cases,
}
use localtrans.Net.{SocketAddr}
use localtrans.Relay.Proto.{Fingerprint, Token, flag_data, data_header_decode}
use localtrans.Relay.Lease.{token_owner}
use localtrans.Relay.DataPlane.{DataPlane, on_datagram}
use localtrans.Relay.DataPlane.Access.{Between}
use localtrans.Relay.DataPlane.Delivery.{packet, on_datagram-data, member-of_Between}
use localtrans.Relay.DataPlane.Learning.{on_datagram-knock}
use localtrans.Relay.VirtualUdp.{VirtualUdp, send_knock, try_send, payload_of, deliver, poll_recv}

payload_of-foreign :
    (v : VirtualUdp) (g : Bytes)
    → ((token : Token) (flag : ℕ) → data_header_decode g ≡ ok (token, flag) → token ≢ v.token)
    → payload_of v g ≡ g
unfolding payload_of
payload_of-foreign v g foreign = elim (Result-cases (data_header_decode g)) [
  | inr (e, bad) ↦ ground arith
  | inl ((token, flag), header) ↦ let other = foreign token flag header in ground arith
]

-- A datagram from the relay is handed to QUIC as it is, as coming from the relay's session address,
-- unless it is empty, is longer than the buffer, or begins with a header for this socket's own token.
pub poll_recv_lem :
    (v : VirtualUdp) (b : ℕ) (bs : Bytes)
    → length (b ∷ bs) ≤ 2048
    → ((token : Token) (flag : ℕ)
        → data_header_decode (b ∷ bs) ≡ ok (token, flag)
        → token ≢ v.token)
    → poll_recv v (b ∷ bs) ≡ some (record { addr = v.relay_session_addr; contents = b ∷ bs })
unfolding poll_recv
poll_recv_lem v b bs fits foreign =
    ap (λ g. deliver v (payload_of v g)) (take_of_length-le 2048 (b ∷ bs) fits)
    ∙ ap (deliver v) (payload_of-foreign v (b ∷ bs) foreign)

-- When one member of a session has knocked and the other, different one then sends at most 1500
-- bytes through its socket, both with known tokens of 16 bytes, the relay sends exactly these bytes
-- to the address that was knocked from.
pub knock_then_send :
    (d : DataPlane) (port : ℕ) (a b : VirtualUdp) (fp_a fp_b : Fingerprint)
    (from_a from_b : SocketAddr) (contents : Bytes) (now later : ℕ)
    → length a.token ≡ 16
    → length b.token ≡ 16
    → length contents ≤ 1500
    → token_owner d.leases a.token ≡ some fp_a
    → token_owner d.leases b.token ≡ some fp_b
    → Between d.leases port fp_a fp_b
    → fp_b ≢ fp_a
    → let d' = (on_datagram d port from_b (send_knock b) now).0 in
      (g : Bytes) × (try_send a a.relay_session_addr contents ≡ some g)
      × ((on_datagram d' port from_a g later).1 ≡ some (record { to = from_b; payload = contents }))
unfolding send_knock try_send
knock_then_send d port a b fp_a fp_b from_a from_b contents now later size_a size_b small known_a
      known_b between apart =
    let swap : Between d.leases port fp_b fp_a = elim between [ inl e ↦ inr e | inr e ↦ inl e ] in
    let (_, learned, _, members, tokens) =
      on_datagram-knock d port from_b b.token fp_b (0 ∷ []) now size_b (omega arith) known_b
        (member-of_Between d.leases port fp_b fp_a swap) in
    (
      packet a.token flag_data contents,
      ground arith,
      on_datagram-data _ port from_a a.token fp_a fp_b contents from_b later size_a small
          (rw tokens known_a) (rw members between) apart learned,
    )
