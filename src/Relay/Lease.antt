-- ===== src/Relay/Lease.antt =====
-- crates/localtrans-relay/src/lease.rs: the lease table of the relay server. Every method takes the
-- reading of the clock that it makes, and `alloc` the token that the random generator fills.
pub mod Ports
pub mod Invariant
pub mod Sessions
pub mod Reach
pub mod Methods
pub mod Expiry
pub mod Roster
pub mod SessionPorts
use localtrans.Base.{
  ℕ, suc, ◌+◌, ◌-◌, ◌*◌, ◌%◌, ◌^◌, Bool, true, false, not, ◌&&◌, ◌||◌, Option, none, some, List, [],
  ◌∷◌, map, String, Bytes, Bytes-discrete, ℕ_discrete, if◌then◌else◌, ltb, leb, is_some, holds,
  length,
}
use localtrans.Base.Maps.{Map, get, insert, remove, modify, retain}
use localtrans.Net.{IpAddr, SocketAddr}
use localtrans.Relay.Proto.{Fingerprint, Token, LeaseInfo, RemoteDevice}
use Ports.{find_port}

abbrev pub data_packet_limit : ℕ
data_packet_limit = 1500

unfoldable pub data_packet_ok : Bytes → Bool
data_packet_ok payload = leb (length payload) data_packet_limit

-- Times are readings of the monotonic clock, in any unit.
pub record LeaseEntry : Type 0 where
  pub fingerprint : Fingerprint
  pub name : String
  pub port : ℕ
  pub token : Token
  pub last_active : ℕ
  pub punch_from : Option SocketAddr
  pub last_ping : ℕ
  pub hidden : Bool

pub record AllocatedLease : Type 0 where
  pub port : ℕ
  pub token : Token

-- A hash set is a map into the unit type.
pub record LeaseTable : Type 0 where
  pub leases : Map Fingerprint LeaseEntry
  pub port_start : ℕ
  pub port_end : ℕ
  pub port_map : Map ℕ Fingerprint
  pub token_map : Map Token Fingerprint
  pub tokens_accepted_count : ℕ
  pub session_ports : Map ℕ (Unit {0})
  pub session_members : Map ℕ (Fingerprint × Fingerprint)
  pub session_activity : Map ℕ ℕ
  pub nonmember_reject_count : ℕ

unfoldable pub new : ℕ → ℕ → LeaseTable
new start end' = record {
  leases = [];
  port_start = start;
  port_end = end';
  port_map = [];
  token_map = [];
  tokens_accepted_count = 0;
  session_ports = [];
  session_members = [];
  session_activity = [];
  nonmember_reject_count = 0;
}

-- The maps at their keys.
abbrev pub lease_of : LeaseTable → Fingerprint → Option LeaseEntry
lease_of t fp = get Bytes-discrete fp t.leases

abbrev pub port_owner : LeaseTable → ℕ → Option Fingerprint
port_owner t p = get ℕ_discrete p t.port_map

abbrev pub token_owner : LeaseTable → Token → Option Fingerprint
token_owner t k = get Bytes-discrete k t.token_map

-- A registered device gets a new token under its old port.
unfoldable pub renew_lease :
    LeaseTable
    → Fingerprint
    → LeaseEntry
    → String
    → Bool
    → ℕ
    → Token
    → LeaseTable × Option AllocatedLease
renew_lease t fp existing name hidden now token = (
  record t {
    leases =
        insert Bytes-discrete fp
          (record existing {
            name = name;
            token = token;
            last_active = now;
            last_ping = now;
            hidden = hidden;
          })
          t.leases;
    token_map = insert Bytes-discrete token fp (remove Bytes-discrete existing.token t.token_map);
  },
  some (record { port = existing.port; token = token }),
)

unfoldable pub grant_lease :
    LeaseTable → Fingerprint → ℕ → String → Bool → ℕ → Token → LeaseTable × Option AllocatedLease
grant_lease t fp port name hidden now token = (
  record t {
    leases =
        insert Bytes-discrete fp
          (record {
            fingerprint = fp;
            name = name;
            port = port;
            token = token;
            last_active = now;
            punch_from = none;
            last_ping = now;
            hidden = hidden;
          })
          t.leases;
    port_map = insert ℕ_discrete port fp t.port_map;
    token_map = insert Bytes-discrete token fp t.token_map;
  },
  some (record { port = port; token = token }),
)

unfoldable pub free_port : LeaseTable → Option ℕ
free_port t = find_port (λ p. is_some (port_owner t p)) (t.port_end - t.port_start) t.port_start

unfoldable pub alloc :
    LeaseTable → Fingerprint → String → Bool → ℕ → Token → LeaseTable × Option AllocatedLease
alloc t fp name hidden now token = elim (lease_of t fp) [
  | some existing ↦ renew_lease t fp existing name hidden now token
  | none ↦ elim (free_port t) [
    | none ↦ (t, none)
    | some port ↦ grant_lease t fp port name hidden now token
  ]
]

unfoldable pub get_by_port : LeaseTable → ℕ → Option Fingerprint
get_by_port t port = port_owner t port

-- The counters are `AtomicU64`s.
unfoldable pub get_by_token : LeaseTable → Token → ℕ → LeaseTable × Option Fingerprint
get_by_token t token now = elim (token_owner t token) [
  | none ↦ (t, none)
  | some fp ↦ (
    record t {
      leases = modify Bytes-discrete fp (λ e. record e { last_active = now }) t.leases;
      tokens_accepted_count = (t.tokens_accepted_count + 1) % 2 ^ 64;
    },
    some fp,
  )
]

unfoldable pub remove_lease : LeaseTable → Fingerprint → LeaseTable × Bool
remove_lease t fp = elim (lease_of t fp) [
  | none ↦ (t, false)
  | some e ↦ (
    record t {
      leases = remove Bytes-discrete fp t.leases;
      port_map = remove ℕ_discrete e.port t.port_map;
      token_map = remove Bytes-discrete e.token t.token_map;
    },
    true,
  )
]

unfoldable pub punch_seen : LeaseTable → Fingerprint → SocketAddr → LeaseTable × Bool
punch_seen t fp from = (
  record t {
    leases = modify Bytes-discrete fp (λ e. record e { punch_from = some from }) t.leases;
  },
  is_some (lease_of t fp),
)

unfoldable pub heartbeat : LeaseTable → Fingerprint → ℕ → LeaseTable
heartbeat t fp now = record t {
  leases = modify Bytes-discrete fp (λ e. record e { last_ping = now }) t.leases;
}

unfoldable pub remove_session_port : LeaseTable → ℕ → LeaseTable
remove_session_port t port = record t {
  session_ports = remove ℕ_discrete port t.session_ports;
  session_members = remove ℕ_discrete port t.session_members;
  session_activity = remove ℕ_discrete port t.session_activity;
}

-- `duration_since` saturates at zero, as `-` does.
unfoldable pub is_expired : ℕ → ℕ → LeaseEntry → Bool
is_expired ttl now e = ltb ttl (now - e.last_active) && ltb ttl (now - e.last_ping)

unfoldable pub expired_leases : ℕ → ℕ → Map Fingerprint LeaseEntry → List Fingerprint
expired_leases ttl now leases = map (λ kv. kv.0) (retain (λ _ e. is_expired ttl now e) leases)

unfoldable pub idle_ports : ℕ → ℕ → Map ℕ ℕ → List ℕ
idle_ports ttl now activity =
    map (λ kv. kv.0) (retain (λ _ last. ltb (ttl * 2) (now - last)) activity)

unfoldable pub remove_all : LeaseTable → List Fingerprint → LeaseTable
remove_all t [] = t
remove_all t (fp ∷ fps) = remove_all (remove_lease t fp).0 fps

unfoldable pub remove_session_ports : LeaseTable → List ℕ → LeaseTable
remove_session_ports t [] = t
remove_session_ports t (p ∷ ps) = remove_session_ports (remove_session_port t p) ps

unfoldable pub reap_expired : LeaseTable → ℕ → ℕ → LeaseTable × List Fingerprint
reap_expired t ttl now =
    let expired = expired_leases ttl now t.leases in
    let t' = remove_all t expired in
    (remove_session_ports t' (idle_ports ttl now t'.session_activity), expired)

unfoldable pub snapshot_roster : LeaseTable → Fingerprint → IpAddr → List RemoteDevice
snapshot_roster t exclude_fp public_ip =
    map
      (λ kv. record {
        fingerprint = kv.0;
        name = kv.1.name;
        lease_addr = record { ip = public_ip; port = kv.1.port };
        relayed_ephemeral = false;
      })
      (retain (λ fp e. not (holds (Bytes-discrete fp exclude_fp)) && not e.hidden) t.leases)

unfoldable pub lease_count : LeaseTable → ℕ
lease_count t = length t.leases

unfoldable pub is_hidden : LeaseTable → Fingerprint → Bool
is_hidden t fp = elim (lease_of t fp) [ none ↦ false | some e ↦ e.hidden ]

unfoldable pub lease_info : LeaseTable → Fingerprint → Option LeaseInfo
lease_info t fp = elim (lease_of t fp) [
  | none ↦ none
  | some e ↦ some (record { data_port = e.port; token = e.token })
]

unfoldable pub free_session_port : LeaseTable → Option ℕ
free_session_port t =
    find_port (λ p. is_some (port_owner t p) || is_some (get ℕ_discrete p t.session_ports))
      (t.port_end - t.port_start) t.port_start

unfoldable pub alloc_session_port :
    LeaseTable → Fingerprint → Fingerprint → ℕ → LeaseTable × Option ℕ
alloc_session_port t fp_a fp_b now = elim (free_session_port t) [
  | none ↦ (t, none)
  | some port ↦ (
    record t {
      session_ports = insert ℕ_discrete port tt t.session_ports;
      session_members = insert ℕ_discrete port (fp_a, fp_b) t.session_members;
      session_activity = insert ℕ_discrete port now t.session_activity;
    },
    some port,
  )
]

unfoldable pub session_members_of : LeaseTable → ℕ → Option (Fingerprint × Fingerprint)
session_members_of t port = get ℕ_discrete port t.session_members

unfoldable pub touch_session : LeaseTable → ℕ → ℕ → LeaseTable
touch_session t port now = record t {
  session_activity = modify ℕ_discrete port (λ _. now) t.session_activity;
}

unfoldable pub session_member_ok_inner : LeaseTable → ℕ → Fingerprint → Bool
unfolding session_members_of
session_member_ok_inner t port src_fp = elim (session_members_of t port) [
  | none ↦ false
  | some (a, b) ↦ holds (Bytes-discrete a src_fp) || holds (Bytes-discrete b src_fp)
]

unfoldable pub session_member_ok : LeaseTable → ℕ → Fingerprint → LeaseTable × Bool
session_member_ok t port src_fp =
    if session_member_ok_inner t port src_fp
    then (t, true)
    else (record t { nonmember_reject_count = (t.nonmember_reject_count + 1) % 2 ^ 64 }, false)

unfoldable pub is_session_port : LeaseTable → ℕ → Bool
is_session_port t port = is_some (get ℕ_discrete port t.session_ports)
