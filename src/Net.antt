-- ===== src/Net.antt =====
-- `std::net::IpAddr` and `SocketAddr`, as far as the program compares, builds and orders them. The flow
-- label and the scope of an IPv6 address, which no code of the program sets, are left out.
use Prim.Native.Nat.{compare, Ordering}
use localtrans.Base.{ℕ, ℕ_discrete, Bool, true, false, leb}

-- An address of either family, as the number that its octets spell.
pub data IpAddr : Type 0 where
  v4 v6 : ℕ → IpAddr

pub record SocketAddr : Type 0 where
  pub ip : IpAddr
  pub port : ℕ

unfoldable pub IpAddr-discrete : Discrete IpAddr
IpAddr-discrete = hlevel ℕ_discrete

unfoldable pub SocketAddr-discrete : Discrete SocketAddr
SocketAddr-discrete = hlevel ℕ_discrete

-- The derived orders: the addresses of version 4 come before those of version 6.
abbrev pub ip_compare : IpAddr → IpAddr → Ordering
ip_compare (v4 a) (v4 b) = compare a b
ip_compare (v4 a) (v6 b) = Ordering.lt
ip_compare (v6 a) (v4 b) = Ordering.gt
ip_compare (v6 a) (v6 b) = compare a b

abbrev pub addr_leb : SocketAddr → SocketAddr → Bool
addr_leb a b = elim (ip_compare a.ip b.ip) [
  | Ordering.lt ↦ true
  | Ordering.gt ↦ false
  | Ordering.eq ↦ leb a.port b.port
]
