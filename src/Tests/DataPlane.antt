-- ===== src/Tests/DataPlane.antt =====
-- The theorems of the data plane, the client's socket and the wire formats at small data.
use localtrans.Base.{
  ◌≤◌, ◌≡◌, ◌≢◌, inl, refl, sym, Option, none, some, [], ◌∷◌, ◌++◌, Bytes, Bytes-discrete, arith,
  drop, ok,
}
use localtrans.Base.Words.{u32_to_be_bytes}
use localtrans.Base.Maps.{get}
use localtrans.Json.{Json}
use localtrans.Net.{SocketAddr, SocketAddr-discrete, v4}
use localtrans.Relay.Proto.{
  Fingerprint, Token, RelayMsg, flag_data, flag_goodbye_knock, data_header_encode,
  data_header_decode, encode_relay_msg, read_relay_frame,
}
use localtrans.Relay.Proto.Roundtrip.{read_relay_frame-encode_relay_msg}
use localtrans.Relay.Lease.{
  token_owner, session_member_ok_inner, session_members_of, is_session_port, data_packet_ok,
  session_member_ok, touch_session, remove_session_port,
}
use localtrans.Relay.DataPlane.{
  DataPlane, received, count_bytes, addrs_of, on_knock, on_goodbye, follow_drift, first_other,
  other_side, forward, dispatch, admit, authenticate, on_datagram,
}
use localtrans.Relay.DataPlane.Access.{Between, on_datagram_stranger, on_datagram_forwards}
use localtrans.Relay.DataPlane.Delivery.{packet, on_datagram-data}
use localtrans.Relay.DataPlane.Learning.{on_datagram-goodbye_stays}
use localtrans.Relay.VirtualUdp.{VirtualUdp, send_knock, try_send}
use localtrans.Relay.VirtualUdp.Delivery.{knock_then_send}
use localtrans.Tests.Lease.{
  lease_program, alice, bob, carol, token_a, token_b, token_c, with_session, home,
}

data_program : Unit {0}
unfolding lease_program received count_bytes addrs_of on_knock on_goodbye follow_drift first_other
    other_side forward dispatch admit authenticate on_datagram data_header_encode data_header_decode
    SocketAddr-discrete data_packet_ok touch_session remove_session_port session_member_ok_inner
    session_member_ok
data_program = tt

abbrev at_alice : SocketAddr
at_alice = record { ip = v4 11; port = 4001 }

abbrev at_bob : SocketAddr
at_bob = record { ip = v4 22; port = 4002 }

-- The session port 102 of alice and bob; the relay knows where bob is.
abbrev knows_bob : DataPlane
knows_bob = record {
  leases = with_session;
  learned = (102, (bob, at_bob) ∷ []) ∷ [];
  port_bytes_in = (102, 0) ∷ [];
}

-- The packet of alice goes to bob.
forwards_run :
    (on_datagram knows_bob 102 at_alice (packet token_a flag_data (5 ∷ 6 ∷ [])) 9).1
    ≡ some (record { to = at_bob; payload = 5 ∷ 6 ∷ [] })
unfolding data_program
forwards_run = refl

on_datagram-data_example :
    (on_datagram knows_bob 102 at_alice (packet token_a flag_data (5 ∷ 6 ∷ [])) 9).1
    ≡ some (record { to = at_bob; payload = 5 ∷ 6 ∷ [] })
unfolding data_program
on_datagram-data_example =
    on_datagram-data knows_bob 102 at_alice token_a alice bob (5 ∷ 6 ∷ []) at_bob 9 refl
      (omega arith) refl (inl refl) (λ e. ground arith) refl

on_datagram_forwards_example :
    (token : Token) × (src : Fingerprint) × (dst : Fingerprint) × (data_header_decode
        (received (packet token_a flag_data (5 ∷ 6 ∷ [])))
      ≡ ok (token, flag_data))
    × (token_owner with_session token ≡ some src)
    × Between with_session 102 src dst
    × ((5 ∷ 6 ∷ []) ≡ drop 18 (received (packet token_a flag_data (5 ∷ 6 ∷ []))))
    × (2 ≤ 1500)
    × (dst ≢ src → get Bytes-discrete dst (addrs_of knows_bob 102) ≡ some at_bob)
unfolding data_program
on_datagram_forwards_example =
    on_datagram_forwards knows_bob 102 at_alice (packet token_a flag_data (5 ∷ 6 ∷ [])) 9
      (record { to = at_bob; payload = 5 ∷ 6 ∷ [] }) forwards_run

-- carol has a lease as well, but no part in the session.
abbrev with_carol : DataPlane
with_carol = record knows_bob {
  leases = record with_session { token_map = (token_c, carol) ∷ with_session.token_map };
}

on_datagram_stranger_example :
    let (d', out) = on_datagram with_carol 102 at_alice (packet token_c flag_data (5 ∷ [])) 9 in
    (out ≡ none)
    × (d'.learned ≡ with_carol.learned)
    × (d'.leases.session_ports ≡ with_carol.leases.session_ports)
    × (d'.leases.session_members ≡ with_carol.leases.session_members)
    × (d'.leases.session_activity ≡ with_carol.leases.session_activity)
unfolding data_program
on_datagram_stranger_example =
    on_datagram_stranger with_carol 102 at_alice (packet token_c flag_data (5 ∷ [])) 9 token_c
      flag_data carol refl refl refl refl

bob_alone : (q : Fingerprint) → q ≢ bob → get Bytes-discrete q (addrs_of knows_bob 102) ≡ none
unfolding data_program
bob_alone q other = elim (Bytes-discrete bob q) [
  | yes same ↦ absurd (other (sym same))
  | no apart ↦ ground arith
]

-- An address that an earlier session has left behind on the port.
abbrev with_leftover : DataPlane
with_leftover = record knows_bob { learned = (102, (bob, at_bob) ∷ (carol, at_alice) ∷ []) ∷ [] }

on_datagram-goodbye_stays_example :
    let d' = (on_datagram with_leftover 102 at_bob (packet token_b flag_goodbye_knock []) 9).0 in
    (is_session_port d'.leases 102 ≡ is_session_port with_session 102)
    × (session_members_of d'.leases 102 ≡ session_members_of with_session 102)
unfolding data_program
on_datagram-goodbye_stays_example =
    on_datagram-goodbye_stays with_leftover 102 at_bob token_b bob [] 9 refl (omega arith) refl refl
      carol at_alice (λ e. ground arith) refl

abbrev relay_addr : SocketAddr
relay_addr = record { ip = home; port = 102 }

abbrev socket_a : VirtualUdp
socket_a = record { relay_session_addr = relay_addr; token = token_a }

abbrev socket_b : VirtualUdp
socket_b = record { relay_session_addr = relay_addr; token = token_b }

knock_then_send_example :
    let d' = (on_datagram knows_bob 102 at_bob (send_knock socket_b) 9).0 in
    (g : Bytes) × (try_send socket_a relay_addr (5 ∷ []) ≡ some g)
    × ((on_datagram d' 102 at_alice g 10).1 ≡ some (record { to = at_bob; payload = 5 ∷ [] }))
unfolding data_program
knock_then_send_example =
    knock_then_send knows_bob 102 socket_a socket_b alice bob at_alice at_bob (5 ∷ []) 9 10 refl
      refl (omega arith) refl refl (inl refl) (λ e. ground arith)

-- A printer for one message only, and its parser.
abbrev print_ping : RelayMsg → Option Bytes
print_ping RelayMsg.ping = some (7 ∷ [])
print_ping _ = none

abbrev parse_ping : Bytes → Option RelayMsg
parse_ping _ = some RelayMsg.ping

parse-print : (msg : RelayMsg) (b : Bytes) → print_ping msg ≡ some b → parse_ping b ≡ some msg
parse-print msg b h = ground arith

abbrev ping_json : Json RelayMsg
ping_json = record { to_vec = print_ping; from_slice = parse_ping; from_slice-to_vec = parse-print }

read_relay_frame-encode_relay_msg_example :
    read_relay_frame ping_json ((0 ∷ 0 ∷ 0 ∷ 1 ∷ 7 ∷ []) ++ 9 ∷ []) ≡ ok RelayMsg.ping
unfolding encode_relay_msg u32_to_be_bytes
read_relay_frame-encode_relay_msg_example =
    read_relay_frame-encode_relay_msg ping_json RelayMsg.ping (0 ∷ 0 ∷ 0 ∷ 1 ∷ 7 ∷ []) (9 ∷ []) refl
