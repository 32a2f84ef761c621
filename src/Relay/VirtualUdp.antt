-- ===== src/Relay/VirtualUdp.antt =====
-- crates/localtrans-core/src/relay/virtual_ep.rs: the client's socket over a session port, which
-- puts the 18-byte header before each datagram that it sends and takes one off where it finds its own.
pub mod Delivery
use localtrans.Base.{
  ℕ, Bool, Option, none, some, List, [], ◌∷◌, ◌++◌, Bytes, Bytes-discrete, if◌then◌else◌, leb,
  holds, length, take, drop, ok, err,
}
use localtrans.Net.{SocketAddr, SocketAddr-discrete}
use localtrans.Relay.Proto.{
  Token, data_header_len, flag_knock, flag_data, data_header_encode, data_header_decode,
}

pub record VirtualUdp : Type 0 where
  pub relay_session_addr : SocketAddr
  pub token : Token

-- The datagram for the relay's session port.
unfoldable pub send_knock : VirtualUdp → Bytes
send_knock v = data_header_encode [] v.token flag_knock ++ 0 ∷ []

-- What goes to any other destination is dropped without an error.
unfoldable pub try_send : VirtualUdp → SocketAddr → Bytes → Option Bytes
try_send v destination contents =
    if holds (SocketAddr-discrete destination v.relay_session_addr)
    then some (data_header_encode [] v.token flag_data ++ contents)
    else none

-- What is left of a datagram when its own header, if it has one, is taken off.
unfoldable pub payload_of : VirtualUdp → Bytes → Bytes
payload_of v datagram =
    if leb data_header_len (length datagram)
    then elim (data_header_decode datagram) [
      | err _ ↦ datagram
      | ok (token, _) ↦ if holds (Bytes-discrete token v.token) then drop 18 datagram else datagram
    ]
    else datagram

-- A packet as it is handed to QUIC.
pub record Received : Type 0 where
  pub addr : SocketAddr
  pub contents : Bytes

abbrev deliver : VirtualUdp → Bytes → Option Received
deliver v [] = none
deliver v (b ∷ bs) = some (record { addr = v.relay_session_addr; contents = b ∷ bs })

-- The receive buffer holds 2048 bytes; an empty payload counts as nothing received.
unfoldable pub poll_recv : VirtualUdp → Bytes → Option Received
poll_recv v datagram = deliver v (payload_of v (take 2048 datagram))
