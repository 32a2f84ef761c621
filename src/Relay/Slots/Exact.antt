-- ===== src/Relay/Slots/Exact.antt =====
-- crates/localtrans-relay/src/control.rs: the counters of connections against the connections.
use localtrans.Base.{
  ℕ, ◌+◌, ◌-◌, ◌≤◌, ◌<◌, ◌≡◌, refl, sym, ap, ◌∙◌, true, false, List, [], ◌∷◌, ◌++◌, arith,
  if◌then◌else◌, holds, length, length-append, inl, inr, Option-cases,
}
use localtrans.Base.Maps.{get, get-insert, get-remove}
use localtrans.Net.{IpAddr, IpAddr-discrete}
use localtrans.Relay.Control.{RelayServer}
use localtrans.Relay.Slots.{give_back, reserve, count_of, enter, release, finish, abort}

-- How often an address stands in a list.
abbrev pub occurrences : IpAddr → List IpAddr → ℕ
occurrences ip [] = 0
occurrences ip (a ∷ xs) = (if holds (IpAddr-discrete a ip) then 1 else 0) + occurrences ip xs

occurrences-append :
    (ip : IpAddr) (xs ys : List IpAddr)
    → occurrences ip (xs ++ ys) ≡ occurrences ip xs + occurrences ip ys
occurrences-append ip [] ys = omega arith
occurrences-append ip (a ∷ xs) ys = ground (arith, occurrences-append ip xs ys)

-- The server, the number of handshakes in progress, and the addresses of the open connections.
pub record Conns : Type 0 where
  pub server : RelayServer
  pub pending : ℕ
  pub open_conns : List IpAddr

-- What happens to connections. An aborted task finds the lock free.
pub data ConnStep : Conns → Conns → Type 0 where
  refuses :
      (s : RelayServer) (n : ℕ) (xs : List IpAddr)
      → (reserve s).1 ≡ false
      → ConnStep
          (record { server = s; pending = n; open_conns = xs })
          (record { server = (reserve s).0; pending = n; open_conns = xs })
  accepts :
      (s : RelayServer) (n : ℕ) (xs : List IpAddr)
      → (reserve s).1 ≡ true
      → ConnStep
          (record { server = s; pending = n; open_conns = xs })
          (record { server = (reserve s).0; pending = n + 1; open_conns = xs })
  handshake_fails :
      (s : RelayServer) (n : ℕ) (xs : List IpAddr)
      → ConnStep
          (record { server = s; pending = n + 1; open_conns = xs })
          (record { server = give_back s; pending = n; open_conns = xs })
  too_many :
      (s : RelayServer) (n : ℕ) (xs : List IpAddr) (ip : IpAddr)
      → (enter s ip).1 ≡ false
      → ConnStep
          (record { server = s; pending = n + 1; open_conns = xs })
          (record { server = (enter s ip).0; pending = n; open_conns = xs })
  opens :
      (s : RelayServer) (n : ℕ) (xs : List IpAddr) (ip : IpAddr)
      → (enter s ip).1 ≡ true
      → ConnStep
          (record { server = s; pending = n + 1; open_conns = xs })
          (record { server = (enter s ip).0; pending = n; open_conns = ip ∷ xs })
  ends :
      (s : RelayServer) (n : ℕ) (xs ys : List IpAddr) (ip : IpAddr)
      → ConnStep
          (record { server = s; pending = n; open_conns = xs ++ ip ∷ ys })
          (record { server = finish s ip; pending = n; open_conns = xs ++ ys })
  aborts :
      (s : RelayServer) (n : ℕ) (xs ys : List IpAddr) (ip : IpAddr)
      → ConnStep
          (record { server = s; pending = n; open_conns = xs ++ ip ∷ ys })
          (record { server = abort s ip true; pending = n; open_conns = xs ++ ys })

-- Both counters are exact and within their limits.
pub record Exact (c : Conns) : Type 0 where
  pub total : c.server.active_conns ≡ c.pending + length c.open_conns
  pub most : c.server.active_conns ≤ 512
  pub by_ip : (ip : IpAddr) → count_of c.server ip ≡ occurrences ip c.open_conns
  pub most_by_ip : (ip : IpAddr) → count_of c.server ip ≤ 8

count_of-release :
    (s : RelayServer) (ip q : IpAddr)
    → count_of (release s ip) q
      ≡ (if holds (IpAddr-discrete ip q) then count_of s q - 1 else count_of s q)
unfolding release
count_of-release s ip q = elim (Option-cases (get IpAddr-discrete ip s.ip_conns)) [
  | inl e ↦ ground (arith, ap (λ a. get IpAddr-discrete a s.ip_conns) {x = ip} {y = q})
  | inr (n, e) ↦ ground (
    arith,
    get-insert IpAddr-discrete ip q (n - 1) s.ip_conns,
    get-remove IpAddr-discrete ip q s.ip_conns,
    ap (λ a. get IpAddr-discrete a s.ip_conns) {x = ip} {y = q},
  )
]

active-release : (s : RelayServer) (ip : IpAddr) → (release s ip).active_conns ≡ s.active_conns
unfolding release
active-release s ip = ground arith

active-give_back :
    (s : RelayServer) (n : ℕ) → s.active_conns ≡ n + 1 → n < 512 → (give_back s).active_conns ≡ n
unfolding give_back
active-give_back s n h small = omega arith

-- The end of one of the open connections, by either way.
ended-Exact :
    (s s' : RelayServer) (n : ℕ) (xs ys : List IpAddr) (ip : IpAddr)
    → s'.active_conns ≡ (give_back s).active_conns
    → ((q : IpAddr) → count_of s' q ≡ count_of (release s ip) q)
    → Exact (record { server = s; pending = n; open_conns = xs ++ ip ∷ ys })
    → Exact (record { server = s'; pending = n; open_conns = xs ++ ys })
ended-Exact s s' n xs ys ip active counts x =
    let all = length-append xs (ip ∷ ys) in
    let rest = length-append xs ys in
    let before : s.active_conns ≡ (n + length xs + length ys) + 1 = omega (arith, x.total, all) in
    let after =
      active-give_back s (n + length xs + length ys) before (omega (arith, before, x.most)) in
    record {
      total = omega (arith, active, after, rest);
      most = omega (arith, active, after, before, x.most);
      by_ip = λ q. ground (
        arith,
        counts q,
        count_of-release s ip q,
        x.by_ip q,
        occurrences-append q xs (ip ∷ ys),
        occurrences-append q xs ys,
      );
      most_by_ip = λ q. ground (arith, counts q, count_of-release s ip q, x.most_by_ip q);
    }

count_of-enter :
    (s : RelayServer) (ip q : IpAddr)
    → count_of (enter s ip).0 q ≡ (
        if holds (IpAddr-discrete ip q)
        then (if (enter s ip).1 then count_of s q + 1 else count_of s q)
        else count_of s q)
unfolding enter give_back
count_of-enter s ip q = ground (
  arith,
  get-insert IpAddr-discrete ip q (count_of s ip) s.ip_conns,
  get-insert IpAddr-discrete ip q (count_of s ip + 1) s.ip_conns,
  ap (λ a. get IpAddr-discrete a s.ip_conns) {x = ip} {y = q},
)

active-enter :
    (s : RelayServer) (ip : IpAddr)
    → (enter s ip).0.active_conns
      ≡ (if (enter s ip).1 then s.active_conns else (give_back s).active_conns)
unfolding enter give_back
active-enter s ip = ground arith

room-enter : (s : RelayServer) (ip : IpAddr) → (enter s ip).1 ≡ true → count_of s ip < 8
unfolding enter
room-enter s ip h = ground arith

active-reserve :
    (s : RelayServer)
    → s.active_conns ≤ 512
    → (reserve s).0.active_conns ≡ (if (reserve s).1 then s.active_conns + 1 else s.active_conns)
unfolding reserve give_back
active-reserve s h = ground arith

room-reserve :
    (s : RelayServer) → s.active_conns ≤ 512 → (reserve s).1 ≡ true → s.active_conns + 1 ≤ 512
unfolding reserve
room-reserve s h r = ground arith

counts-reserve : (s : RelayServer) → (reserve s).0.ip_conns ≡ s.ip_conns
unfolding reserve give_back
counts-reserve s = ground arith

-- What changes only the number of all connections.
counted-Exact :
    (s s' : RelayServer) (n m : ℕ) (xs : List IpAddr)
    → s'.ip_conns ≡ s.ip_conns
    → s'.active_conns ≡ m + length xs
    → s'.active_conns ≤ 512
    → Exact (record { server = s; pending = n; open_conns = xs })
    → Exact (record { server = s'; pending = m; open_conns = xs })
counted-Exact s s' n m xs same total most x = record {
  total = total;
  most = most;
  by_ip = λ q. rw same (x.by_ip q);
  most_by_ip = λ q. rw same (x.most_by_ip q);
}

ConnStep-Exact : {c d : Conns} → ConnStep c d → Exact c → Exact d
unfolding give_back finish abort
ConnStep-Exact (refuses s n xs h) x =
    let now = active-reserve s x.most in
    counted-Exact s (reserve s).0 n n xs (counts-reserve s) (ground (arith, x.total))
      (ground (arith, x.most)) x
ConnStep-Exact (accepts s n xs h) x =
    let now = active-reserve s x.most in
    let room = room-reserve s x.most h in
    counted-Exact s (reserve s).0 n (n + 1) xs (counts-reserve s) (ground (arith, x.total))
      (ground (arith, x.total)) x
ConnStep-Exact (handshake_fails s n xs) x =
    let now =
      active-give_back s (n + length xs) (omega (arith, x.total))
        (omega (arith, x.total, x.most)) in
    counted-Exact s (give_back s) (n + 1) n xs refl now (omega (arith, now, x.total, x.most)) x
ConnStep-Exact (too_many s n xs ip h) x =
    let now =
      active-give_back s (n + length xs) (omega (arith, x.total))
        (omega (arith, x.total, x.most)) in
    record {
      total = ground (arith, active-enter s ip);
      most = ground (arith, active-enter s ip, x.total, x.most);
      by_ip = λ q. ground (arith, count_of-enter s ip q, x.by_ip q);
      most_by_ip = λ q. ground (arith, count_of-enter s ip q, x.most_by_ip q);
    }
ConnStep-Exact (opens s n xs ip h) x = record {
  total = ground (arith, active-enter s ip, x.total);
  most = ground (arith, active-enter s ip, x.most);
  by_ip = λ q. ground (arith, count_of-enter s ip q, x.by_ip q);
  most_by_ip = λ q. ground (
    arith,
    count_of-enter s ip q,
    room-enter s ip h,
    x.most_by_ip q,
    ap (count_of s) {x = ip} {y = q},
  );
}
ConnStep-Exact (ends s n xs ys ip) x =
    ended-Exact s (finish s ip) n xs ys ip (ground (arith, active-release s ip)) (λ q. refl) x
ConnStep-Exact (aborts s n xs ys ip) x =
    ended-Exact s (abort s ip true) n xs ys ip (active-release (give_back s) ip)
      (λ q. count_of-release (give_back s) ip q ∙ sym (count_of-release s ip q)) x

-- Any number of steps.
pub data ConnRun (c : Conns) : Conns → Type 0 where
  here : ConnRun c c
  next : {d e : Conns} → ConnRun c d → ConnStep d e → ConnRun c e

-- From exact counters, any run of accepted, refused, failed, opened, ended and aborted connections,
-- in which an aborted task finds the lock free, keeps the counters exact: every handshake and every
-- open connection is counted once, at most 512 in all and at most eight of one address.
pub ConnRun-Exact : {c d : Conns} → ConnRun c d → Exact c → Exact d
ConnRun-Exact here x = x
ConnRun-Exact (next r s) x = ConnStep-Exact s (ConnRun-Exact r x)
