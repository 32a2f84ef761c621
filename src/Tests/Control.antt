-- ===== src/Tests/Control.antt =====
-- The theorems of the control plane at small data.
use localtrans.Base.{
  ◌+◌, ◌≡◌, ◌≢◌, refl, sym, ap, true, false, none, some, List, [], ◌∷◌, Bytes-discrete, arith, ◌==◌,
}
use localtrans.Base.Maps.{Distinct}
use localtrans.Net.{SocketAddr, IpAddr-discrete}
use localtrans.Relay.Proto.{Fingerprint, RelayMsg}
use localtrans.Relay.Lease.{lease_of, is_hidden, snapshot_roster}
use localtrans.Relay.Control.{
  CtrlConn, RelayServer, Reaches, evict, push_guarded, roster_for, push_rosters, broadcast_roster,
  broadcast_roster_except, find_conn, on_conn_closed, failures_of, record_auth_failure, is_blocked,
  within, times_of, punch_rate_ok, keep_recent, ratelimit_tick,
}
use localtrans.Relay.Control.AuthLimit.{failure_count}
use localtrans.Relay.Control.PunchRate.{
  RateEvent, requests, ticks, answers, reference, answers-reference,
}
use localtrans.Relay.Control.Pushes.{conn_of, push_guarded-evicts}
use localtrans.Relay.Requests.{Outcome, Outside, register_or_count, handle_request}
use localtrans.Relay.Requests.Leave.{Gone, handle_request-leave}
use localtrans.Relay.Requests.Registration.{
  Registered, register_or_count-unproven, register_or_count-proven,
}
use localtrans.Relay.Slots.{reserve, enter, give_back}
use localtrans.Relay.Slots.Exact.{Conns, ConnRun, here, next, accepts, opens, Exact, ConnRun-Exact}
use localtrans.Tests.Lease.{
  lease_program, alice, bob, carol, token_c, two_devices, two_devices-Inv, home,
}

control_program : Unit {0}
unfolding lease_program evict push_guarded roster_for push_rosters broadcast_roster
    broadcast_roster_except find_conn on_conn_closed failures_of record_auth_failure is_blocked
    within times_of punch_rate_ok keep_recent ratelimit_tick snapshot_roster is_hidden
    IpAddr-discrete reserve enter give_back
control_program = tt

abbrev conn_a : CtrlConn
conn_a = record { conn_id = 1; fp = alice }

abbrev conn_b : CtrlConn
conn_b = record { conn_id = 2; fp = bob }

abbrev server : RelayServer
server = record {
  config = record { public_ip = home; lease_ttl_secs = 90; auth_max_per_min = 2 };
  leases = two_devices;
  conns = (alice, conn_a) ∷ (bob, conn_b) ∷ [];
  auth_failures = [];
  blocked_ips = [];
  roster_rev = 0;
  punch_rate = [];
  active_conns = 2;
  ip_conns = [];
}

-- A network on which everything arrives, and one on which nothing does.
abbrev all_reach : Reaches
all_reach = record {
  arrives = λ conn_id msg. true;
  at_once = λ conn_id msg. false;
  opens_uni = λ conn_id. true;
}

abbrev none_reach : Reaches
none_reach = record {
  arrives = λ conn_id msg. false;
  at_once = λ conn_id msg. true;
  opens_uni = λ conn_id. false;
}

-- A verifier that takes the signature 1, and a printer that prints nothing.
abbrev outside : Outside
outside = record {
  verify_possession = λ fp cert msg sig. elim sig [ [] ↦ false | s ∷ _ ↦ s == 1 ];
  to_string = λ a. "";
}

abbrev busy : List RateEvent
busy = requests alice 1 ∷ ticks 30000 ∷ requests alice 60500 ∷ requests bob 60600 ∷ []

answers-reference_example : answers server busy ≡ reference (λ fp. []) busy
unfolding control_program
answers-reference_example =
    answers-reference server 0 busy refl
      (omega arith, (omega arith, (omega arith, (omega arith, tt))))

push_guarded-evicts_example :
    let s' =
      (push_guarded none_reach server alice (record { conn_id = 0; fp = alice }) RelayMsg.ping).0 in
    (conn_of s' alice ≡ none) × (lease_of s'.leases alice ≡ none)
push_guarded-evicts_example =
    push_guarded-evicts none_reach server alice (record { conn_id = 0; fp = alice }) RelayMsg.ping
      refl

abbrev at_home : SocketAddr
at_home = record { ip = home; port = 5000 }

register_or_count-unproven_example :
    let r = register_or_count outside all_reach server 3 at_home [] 9 token_c RelayMsg.ping in
    (r.outcome ≡ Outcome.refused)
    × (r.server.leases ≡ two_devices)
    × (r.server.conns ≡ server.conns)
    × (failure_count r.server home ≡ failure_count server home + 1)
unfolding control_program
register_or_count-unproven_example =
    register_or_count-unproven outside all_reach server 3 at_home [] 9 token_c RelayMsg.ping refl
      (omega arith)

server-Distinct : Distinct Bytes-discrete server.conns
unfolding control_program
server-Distinct = (refl, (refl, tt))

register_or_count-proven_example :
    Registered outside all_reach server 3 at_home [] 9 token_c carol
      (record { port = 102; token = token_c })
      (register_or_count outside all_reach server 3 at_home [] 9 token_c
        (RelayMsg.register "carol" carol false [] (1 ∷ [])))
unfolding control_program
register_or_count-proven_example =
    register_or_count-proven outside all_reach server 3 at_home [] 9 token_c "carol" carol false []
      (1 ∷ []) (record { port = 102; token = token_c }) refl two_devices-Inv server-Distinct refl
      refl

others_apart :
    (q : Fingerprint) (other : CtrlConn)
    → conn_of server q ≡ some other
    → q ≢ alice
    → other.conn_id ≢ 1
unfolding control_program
others_apart q other h apart e = elim (Bytes-discrete alice q) [
  | yes same ↦ apart (sym same)
  | no _ ↦ elim (Bytes-discrete bob q) [
    | yes _ ↦ ground (arith, ap (λ c. c.conn_id) {x = conn_b} {y = other})
    | no _ ↦ ground arith
  ]
]

alice_found : find_conn 1 server.conns ≡ some (alice, conn_a)
unfolding control_program
alice_found = refl

handle_request-leave_example :
    let r = handle_request outside all_reach server 1 9 RelayMsg.leave in
    (r.outcome ≡ Outcome.accepted) × Gone all_reach server alice r.server r.effects
handle_request-leave_example =
    handle_request-leave all_reach outside server 1 9 alice conn_a alice_found server-Distinct
      two_devices-Inv

-- A server without connections, and with one.
abbrev quiet : RelayServer
quiet = record server { conns = []; active_conns = 0 }

abbrev no_conns : Conns
no_conns = record { server = quiet; pending = 0; open_conns = [] }

abbrev one_conn : Conns
unfolding control_program
one_conn = record { server = (enter (reserve quiet).0 home).0; pending = 0; open_conns = home ∷ [] }

first_conn : ConnRun no_conns one_conn
unfolding control_program
first_conn = next (next here (accepts quiet 0 [] refl)) (opens (reserve quiet).0 0 [] home refl)

no_conns-Exact : Exact no_conns
unfolding control_program
no_conns-Exact = record {
  total = refl;
  most = omega arith;
  by_ip = λ ip. refl;
  most_by_ip = λ ip. omega arith;
}

ConnRun-Exact_example : Exact one_conn
ConnRun-Exact_example = ConnRun-Exact first_conn no_conns-Exact
