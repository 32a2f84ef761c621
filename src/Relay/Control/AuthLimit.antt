-- ===== src/Relay/Control/AuthLimit.antt =====
-- crates/localtrans-relay/src/control.rs: failed registrations and the blocking of addresses.
use localtrans.Base.{
  ℕ, ◌+◌, ◌*◌, ◌%◌, ◌^◌, ◌<◌, ◌≡◌, ◌≢◌, ap, ◌∙◌, none, some, List, [], ◌∷◌, ◌++◌, arith,
  if◌then◌else◌, leb, ltb, length,
}
use localtrans.Base.Maps.{get, get-insert}
use localtrans.Net.{IpAddr, IpAddr-discrete}
use localtrans.Relay.Control.{RelayServer, second, failures_of, record_auth_failure, is_blocked}

-- Failures of one address at the times of a list, one after the other.
abbrev pub fail_all : RelayServer → IpAddr → List ℕ → RelayServer
fail_all s ip [] = s
fail_all s ip (now ∷ times) = fail_all (record_auth_failure s ip now) ip times

abbrev pub failure_count : RelayServer → IpAddr → ℕ
failure_count s ip = elim (get IpAddr-discrete ip s.auth_failures) [
  | none ↦ 0
  | some entry ↦ entry.1
]

pub failure_count-record :
    (s : RelayServer) (ip : IpAddr) (now : ℕ)
    → failure_count s ip + 1 < 2 ^ 32
    → failure_count (record_auth_failure s ip now) ip ≡ failure_count s ip + 1
unfolding record_auth_failure failures_of
failure_count-record s ip now small = ground (
  arith,
  get-insert IpAddr-discrete ip ip ((failures_of s ip now).0, (failures_of s ip now).1 + 1)
      s.auth_failures,
)

is_blocked-record :
    (s : RelayServer) (ip : IpAddr) (now later : ℕ)
    → failure_count s ip + 1 < 2 ^ 32
    → is_blocked (record_auth_failure s ip now) ip later ≡ (
        if leb s.config.auth_max_per_min (failure_count s ip + 1)
        then ltb later (now + 600 * second)
        else is_blocked s ip later)
unfolding record_auth_failure failures_of is_blocked
is_blocked-record s ip now later small =
    ground (arith, get-insert IpAddr-discrete ip ip (now + 600 * second) s.blocked_ips)

-- A failure of one address does not touch another.
pub record_auth_failure-other :
    (s : RelayServer) (ip other : IpAddr) (now later : ℕ)
    → other ≢ ip
    → let s' = record_auth_failure s ip now in
      (is_blocked s' other later ≡ is_blocked s other later)
      × (failure_count s' other ≡ failure_count s other)
unfolding record_auth_failure failures_of is_blocked
record_auth_failure-other s ip other now later apart = (
  ground (arith, get-insert IpAddr-discrete ip other (now + 600 * second) s.blocked_ips),
  ground (
    arith,
    get-insert IpAddr-discrete ip other
        ((failures_of s ip now).0, ((failures_of s ip now).1 + 1) % 2 ^ 32) s.auth_failures,
  ),
)

config-record :
    (s : RelayServer) (ip : IpAddr) (now : ℕ) → (record_auth_failure s ip now).config ≡ s.config
unfolding record_auth_failure
config-record s ip now = ground arith

-- After a series of failures of an address, whose count does not wrap around, the address is
-- blocked until ten minutes after the last one if the count has reached the limit, and otherwise as
-- it was before.
pub is_blocked-fail_all :
    (s : RelayServer) (ip : IpAddr) (times : List ℕ) (last later : ℕ)
    → failure_count s ip + length times + 1 < 2 ^ 32
    → is_blocked (fail_all s ip (times ++ last ∷ [])) ip later ≡ (
        if leb s.config.auth_max_per_min (failure_count s ip + length times + 1)
        then ltb later (last + 600 * second)
        else is_blocked s ip later)
is_blocked-fail_all s ip [] last later small =
    is_blocked-record s ip last later (omega arith) ∙ ground arith
is_blocked-fail_all s ip (now ∷ times) last later small =
    let count = failure_count-record s ip now (omega arith) in
    let first = is_blocked-record s ip now later (omega arith) in
    is_blocked-fail_all (record_auth_failure s ip now) ip times last later (omega arith)
    ∙ ground (arith, ap (λ c. c.auth_max_per_min) (config-record s ip now))
