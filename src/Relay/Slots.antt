-- ===== src/Relay/Slots.antt =====
-- crates/localtrans-relay/src/control.rs: the two counters of connections, over all and by address.
-- The guard of a connection gives its places back when the task of the connection ends; when the task
-- is aborted, it does so only if it gets the lock of the table at once.
pub mod Exact
use localtrans.Base.{
  ℕ, suc, ◌+◌, ◌-◌, ◌%◌, ◌^◌, Bool, true, false, Option, none, some, List, [], ◌∷◌, ◌++◌,
  if◌then◌else◌, ltb, leb, ◌==◌,
}
use localtrans.Base.Maps.{get, insert, remove}
use localtrans.Net.{IpAddr, IpAddr-discrete}
use localtrans.Relay.Control.{RelayServer}

abbrev pub max_conns : ℕ
max_conns = 512

abbrev pub max_conns_per_ip : ℕ
max_conns_per_ip = 8

-- `fetch_sub(1)` on a `usize`.
unfoldable pub give_back : RelayServer → RelayServer
give_back s = record s { active_conns = (s.active_conns + (2 ^ 64 - 1)) % 2 ^ 64 }

-- A place is taken before the handshake, and given back at once above the limit.
unfoldable pub reserve : RelayServer → RelayServer × Bool
reserve s =
    let n = (s.active_conns + 1) % 2 ^ 64 in
    let s' = record s { active_conns = n } in
    if ltb max_conns n then (give_back s', false) else (s', true)

abbrev pub count_of : RelayServer → IpAddr → ℕ
count_of s ip = elim (get IpAddr-discrete ip s.ip_conns) [ none ↦ 0 | some n ↦ n ]

-- After the handshake.
unfoldable pub enter : RelayServer → IpAddr → RelayServer × Bool
unfolding give_back
enter s ip =
    let n = count_of s ip in
    if leb max_conns_per_ip n
    then (give_back (record s { ip_conns = insert IpAddr-discrete ip n s.ip_conns }), false)
    else (record s { ip_conns = insert IpAddr-discrete ip (n + 1) s.ip_conns }, true)

unfoldable pub release : RelayServer → IpAddr → RelayServer
release s ip = elim (get IpAddr-discrete ip s.ip_conns) [
  | none ↦ s
  | some n ↦
      if n - 1 == 0
      then record s { ip_conns = remove IpAddr-discrete ip s.ip_conns }
      else record s { ip_conns = insert IpAddr-discrete ip (n - 1) s.ip_conns }
]

-- The end of a task: `release`, then the drop of the guard, which finds it released.
unfoldable pub finish : RelayServer → IpAddr → RelayServer
unfolding release give_back
finish s ip = give_back (release s ip)

-- The drop of the guard of a task that was aborted, by whether the lock was free.
unfoldable pub abort : RelayServer → IpAddr → Bool → RelayServer
abort s ip lock_free = if lock_free then release (give_back s) ip else give_back s
