-- ===== src/Relay/DataPlane.antt =====
-- crates/localtrans-relay/src/data_plane.rs: the data plane of the relay server, one datagram at a
-- time. A datagram is handled by the port that it arrives at, and leads to at most one datagram out.
pub mod Access
pub mod Delivery
pub mod Learning
use localtrans.Base.{
  ℕ, ◌+◌, ◌%◌, ◌^◌, Bool, true, false, not, ◌||◌, Option, none, some, List, [], ◌∷◌, Bytes,
  Bytes-discrete, ℕ_discrete, if◌then◌else◌, ◌==◌, is_some, holds, length, take, drop, ok, err,
}
use localtrans.Base.Maps.{Map, get, insert, remove, modify}
use localtrans.Net.{SocketAddr, SocketAddr-discrete}
use localtrans.Relay.Proto.{
  Fingerprint, Token, flag_knock, flag_goodbye_knock, flag_data, data_header_decode,
}
use localtrans.Relay.Lease.{
  LeaseTable, data_packet_ok, get_by_token, session_member_ok, touch_session, remove_session_port,
  session_members_of,
}

-- The addresses that a session port has learned of its two sides.
abbrev pub Addrs : Type 0
Addrs = Map Fingerprint SocketAddr

pub record DataPlane : Type 0 where
  pub leases : LeaseTable
  pub learned : Map ℕ Addrs
  pub port_bytes_in : Map ℕ ℕ

pub record Datagram : Type 0 where
  pub to : SocketAddr
  pub payload : Bytes

-- The receive buffer holds 2048 bytes; what does not fit is lost.
unfoldable pub received : Bytes → Bytes
received datagram = take 2048 datagram

unfoldable pub count_bytes : DataPlane → ℕ → ℕ → DataPlane
count_bytes d port n = record d {
  port_bytes_in = modify ℕ_discrete port (λ c. (c + n) % 2 ^ 64) d.port_bytes_in;
}

unfoldable pub addrs_of : DataPlane → ℕ → Addrs
addrs_of d port = elim (get ℕ_discrete port d.learned) [ none ↦ [] | some m ↦ m ]

-- A KNOCK is only learned from.
unfoldable pub on_knock : DataPlane → ℕ → Fingerprint → SocketAddr → DataPlane
unfolding addrs_of
on_knock d port src from = record d {
  learned = insert ℕ_discrete port (insert Bytes-discrete src from (addrs_of d port)) d.learned;
}

abbrev is_empty {ℓ} : {A : Type ℓ} → List A → Bool
is_empty [] = true
is_empty (_ ∷ _) = false

-- The side that leaves is forgotten; when nobody is left, so is the session port.
unfoldable pub on_goodbye : DataPlane → ℕ → Fingerprint → DataPlane
on_goodbye d port src = elim (get ℕ_discrete port d.learned) [
  | none ↦ d
  | some entry ↦
      let entry' = remove Bytes-discrete src entry in
      if is_empty entry'
      then record d {
        learned = remove ℕ_discrete port d.learned;
        leases = remove_session_port d.leases port;
      }
      else record d { learned = insert ℕ_discrete port entry' d.learned }
]

-- A source address that differs from the learned one replaces it.
unfoldable pub follow_drift : DataPlane → ℕ → Fingerprint → SocketAddr → DataPlane
follow_drift d port src from = elim (get ℕ_discrete port d.learned) [
  | none ↦ d
  | some addrs ↦ elim (get Bytes-discrete src addrs) [
    | none ↦ d
    | some old ↦ if holds (SocketAddr-discrete old from) then d else record d {
      learned = insert ℕ_discrete port (insert Bytes-discrete src from addrs) d.learned;
    }
  ]
]

unfoldable pub first_other : Fingerprint → Addrs → Option Fingerprint
first_other src [] = none
first_other src ((fp, _) ∷ m) =
    let rest = first_other src m in if holds (Bytes-discrete fp src) then rest else some fp

-- The member of the session that is not the source; without members, any other learned device.
unfoldable pub other_side :
    Option (Fingerprint × Fingerprint) → Fingerprint → Addrs → Option Fingerprint
unfolding first_other
other_side none src addrs = first_other src addrs
other_side (some (a, b)) src addrs =
    if holds (Bytes-discrete a src)
    then some b
    else if holds (Bytes-discrete b src)
    then some a
    else none

unfoldable pub forward : DataPlane → ℕ → Fingerprint → Bytes → Option Datagram
forward d port src payload = elim (get ℕ_discrete port d.learned) [
  | none ↦ none
  | some addrs ↦ elim (other_side (session_members_of d.leases port) src addrs) [
    | none ↦ none
    | some dst ↦ elim (get Bytes-discrete dst addrs) [
      | none ↦ none
      | some addr ↦ some (record { to = addr; payload = payload })
    ]
  ]
]

unfoldable pub dispatch :
    DataPlane → ℕ → Fingerprint → SocketAddr → ℕ → Bytes → DataPlane × Option Datagram
dispatch d port src from flag payload =
    if flag == flag_knock
    then (on_knock d port src from, none)
    else if flag == flag_goodbye_knock
    then (on_goodbye d port src, none)
    else if flag == flag_data
    then (follow_drift d port src from, forward (follow_drift d port src from) port src payload)
    else (d, none)

abbrev pub is_session_flag : ℕ → Bool
is_session_flag flag = flag == flag_knock || (flag == flag_data || flag == flag_goodbye_knock)

-- The three kinds of session packets pass only from a member of the port.
unfoldable pub admit :
    DataPlane → ℕ → Fingerprint → SocketAddr → ℕ → Bytes → ℕ → DataPlane × Option Datagram
admit d port src from flag payload now =
    if is_session_flag flag
    then (let (leases, member) = session_member_ok d.leases port src in
        if member
        then dispatch (record d { leases = touch_session leases port now }) port src from flag
            payload
        else (record d { leases = leases }, none))
    else dispatch d port src from flag payload

unfoldable pub authenticate :
    DataPlane → ℕ → Token → SocketAddr → ℕ → Bytes → ℕ → DataPlane × Option Datagram
authenticate d port token from flag payload now =
    let (leases, src) = get_by_token d.leases token now in
    elim src [
      | none ↦ (record d { leases = leases }, none)
      | some fp ↦ admit (record d { leases = leases }) port fp from flag payload now
    ]

-- One turn of `recv_loop`.
unfoldable pub on_datagram : DataPlane → ℕ → SocketAddr → Bytes → ℕ → DataPlane × Option Datagram
on_datagram d port from datagram now =
    let pkt = received datagram in
    let counted = count_bytes d port (length pkt) in
    elim (data_header_decode pkt) [
      | err _ ↦ (counted, none)
      | ok (token, flag) ↦
          if data_packet_ok (drop 18 pkt)
          then authenticate counted port token from flag (drop 18 pkt) now
          else (counted, none)
    ]
