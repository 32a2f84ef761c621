-- ===== src/Relay/Control.antt =====
-- crates/localtrans-relay/src/control.rs: the control plane of the relay server, as functions on the
-- state that its tasks share. Times are in milliseconds. QUIC and TLS are outside: what a connection
-- does to the server is an argument (whether a push gets through in time, whether a signature holds,
-- what a closed connection's number was), and what the server does to a connection is an effect.
pub mod AuthLimit
pub mod Windows
pub mod PunchRate
pub mod Pushes
use localtrans.Base.{
  ℕ, suc, ◌+◌, ◌-◌, ◌*◌, ◌/◌, ◌%◌, ◌^◌, Bool, true, false, not, Option, none, some, List, [], ◌∷◌,
  ◌++◌, String, Bytes, Bytes-discrete, ℕ_discrete, if◌then◌else◌, ltb, leb, ◌==◌, length, holds,
}
use localtrans.Base.Maps.{Map, get, insert, remove, retain}
use localtrans.Net.{IpAddr, SocketAddr, IpAddr-discrete}
use localtrans.Relay.Proto.{Fingerprint, Token, LeaseInfo, RemoteDevice, RelayMsg}
use localtrans.Relay.Lease.{LeaseTable, remove_lease, reap_expired, snapshot_roster}

abbrev pub second : ℕ
second = 1000

-- `auth_max_per_min` and what else of the configuration the control plane reads.
pub record RelayConfig : Type 0 where
  pub public_ip : IpAddr
  pub lease_ttl_secs : ℕ
  pub auth_max_per_min : ℕ

pub record CtrlConn : Type 0 where
  pub conn_id : ℕ
  pub fp : Fingerprint

pub record RelayServer : Type 0 where
  pub config : RelayConfig
  pub leases : LeaseTable
  pub conns : Map Fingerprint CtrlConn
  -- Address → start of the window and number of failures.
  pub auth_failures : Map IpAddr (ℕ × ℕ)
  pub blocked_ips : Map IpAddr ℕ
  pub roster_rev : ℕ
  pub punch_rate : Map Fingerprint (List ℕ)
  pub active_conns : ℕ
  pub ip_conns : Map IpAddr ℕ

-- What the server does to the connection with a number.
pub data Effect : Type 0 where
  pushes : ℕ → RelayMsg → Effect
  closes : ℕ → Effect

-- Whether a connection takes a message within `PUSH_TIMEOUT`, whether a push that fails does so at
-- once, before the other pushes of a broadcast have begun, and whether a stream to the client can be
-- opened for a message that is no push.
pub record Reaches : Type 0 where
  pub arrives : ℕ → RelayMsg → Bool
  pub at_once : ℕ → RelayMsg → Bool
  pub opens_uni : ℕ → Bool

-- `evict` works by fingerprint.
unfoldable pub evict : RelayServer → Fingerprint → RelayServer
evict s fp = record s {
  conns = remove Bytes-discrete fp s.conns;
  leases = (remove_lease s.leases fp).0;
}

unfoldable pub push_guarded :
    Reaches → RelayServer → Fingerprint → CtrlConn → RelayMsg → RelayServer × List Effect
push_guarded reaches s fp cc msg =
    if reaches.arrives cc.conn_id msg
    then (s, pushes cc.conn_id msg ∷ [])
    else (evict s fp, closes cc.conn_id ∷ [])

unfoldable pub roster_for : RelayServer → ℕ → Fingerprint → RelayMsg
roster_for s rev fp = RelayMsg.roster rev (snapshot_roster s.leases fp s.config.public_ip)

-- The pushes of a broadcast run side by side. Each makes its roster when it begins, in the order of the
-- connections, of the table `seen` at that moment: only the pushes that failed at once have already
-- taken devices out of it. The effects are listed in the order of the connections.
unfoldable pub push_rosters :
    Reaches → RelayServer → RelayServer → ℕ → Map Fingerprint CtrlConn → RelayServer × List Effect
unfolding roster_for
push_rosters reaches seen s rev [] = (s, [])
push_rosters reaches seen s rev ((fp, cc) ∷ rest) =
    let msg = roster_for seen rev fp in
    let (s', sent) = push_guarded reaches s fp cc msg in
    let seen' =
      if reaches.at_once cc.conn_id msg then (push_guarded reaches seen fp cc msg).0 else seen in
    let (s'', more) = push_rosters reaches seen' s' rev rest in (s'', sent ++ more)

abbrev pub next_rev : RelayServer → RelayServer
next_rev s = record s { roster_rev = (s.roster_rev + 1) % 2 ^ 64 }

unfoldable pub broadcast_roster : Reaches → RelayServer → RelayServer × List Effect
broadcast_roster reaches s = push_rosters reaches (next_rev s) (next_rev s) s.roster_rev s.conns

unfoldable pub broadcast_roster_except :
    Reaches → RelayServer → Fingerprint → RelayServer × List Effect
broadcast_roster_except reaches s exclude_fp =
    push_rosters reaches (next_rev s) (next_rev s) s.roster_rev
      (retain (λ fp _. not (holds (Bytes-discrete fp exclude_fp))) s.conns)

-- `conns.iter().find(|(_, cc)| cc.conn_id == conn_id)`
unfoldable pub find_conn : ℕ → Map Fingerprint CtrlConn → Option (Fingerprint × CtrlConn)
find_conn conn_id [] = none
find_conn conn_id ((fp, cc) ∷ m) =
    let rest = find_conn conn_id m in if cc.conn_id == conn_id then some (fp, cc) else rest

unfoldable pub on_conn_closed : Reaches → RelayServer → ℕ → RelayServer × List Effect
unfolding evict
on_conn_closed reaches s conn_id = elim (find_conn conn_id s.conns) [
  | none ↦ (s, [])
  | some (fp, _) ↦ broadcast_roster reaches (evict s fp)
]

-- `failures.entry(ip).or_insert_with(|| (now, 0))`
unfoldable pub failures_of : RelayServer → IpAddr → ℕ → ℕ × ℕ
failures_of s ip now = elim (get IpAddr-discrete ip s.auth_failures) [
  | none ↦ (now, 0)
  | some entry ↦ entry
]

-- The failures of one address; at the limit the address is blocked for ten minutes.
unfoldable pub record_auth_failure : RelayServer → IpAddr → ℕ → RelayServer
unfolding failures_of
record_auth_failure s ip now =
    let entry = failures_of s ip now in
    let count' = (entry.1 + 1) % 2 ^ 32 in
    let failures = insert IpAddr-discrete ip (entry.0, count') s.auth_failures in
    if leb s.config.auth_max_per_min count'
    then record s {
      auth_failures = failures;
      blocked_ips = insert IpAddr-discrete ip (now + 600 * second) s.blocked_ips;
    }
    else record s { auth_failures = failures }

-- The test at the head of `handle_conn`.
unfoldable pub is_blocked : RelayServer → IpAddr → ℕ → Bool
is_blocked s ip now = elim (get IpAddr-discrete ip s.blocked_ips) [
  | none ↦ false
  | some expiry ↦ ltb now expiry
]

abbrev pub max_per_window : ℕ
max_per_window = 10

unfoldable pub within : ℕ → ℕ → List ℕ → List ℕ
within now width [] = []
within now width (t ∷ ts) =
    let rest = within now width ts in if ltb (now - t) width then t ∷ rest else rest

unfoldable pub times_of : RelayServer → Fingerprint → List ℕ
times_of s fp = elim (get Bytes-discrete fp s.punch_rate) [ none ↦ [] | some ts ↦ ts ]

-- The sliding window of ten requests in 60 seconds.
unfoldable pub punch_rate_ok : RelayServer → Fingerprint → ℕ → RelayServer × Bool
unfolding times_of
punch_rate_ok s fp now =
    let entry = within now (60 * second) (times_of s fp) in
    let store =
      λ (ts : List ℕ). record s { punch_rate = insert Bytes-discrete fp ts s.punch_rate } in
    if leb max_per_window (length entry)
    then (store entry, false)
    else (store (entry ++ now ∷ []), true)

unfoldable pub keep_recent : ℕ → Map Fingerprint (List ℕ) → Map Fingerprint (List ℕ)
keep_recent now [] = []
keep_recent now ((fp, []) ∷ m) = keep_recent now m
keep_recent now ((fp, t ∷ ts) ∷ m) = (fp, within now (61 * second) (t ∷ ts)) ∷ keep_recent now m

-- Every 30 seconds: blocks that are over, windows that are over, and old requests are dropped.
unfoldable pub ratelimit_tick : RelayServer → ℕ → RelayServer
ratelimit_tick s now = record s {
  blocked_ips = retain (λ _ expiry. ltb now expiry) s.blocked_ips;
  auth_failures = retain (λ _ entry. leb ((now - entry.0) / second) 60) s.auth_failures;
  punch_rate = keep_recent now s.punch_rate;
}

-- Every 5 seconds.
unfoldable pub reap_tick : Reaches → RelayServer → ℕ → RelayServer × List Effect
reap_tick reaches s now =
    let (leases, expired) = reap_expired s.leases (s.config.lease_ttl_secs * second) now in
    let s' = record s { leases = leases } in
    elim expired [ [] ↦ (s', []) | _ ∷ _ ↦ broadcast_roster reaches s' ]
