-- ===== src/Tests/Lease.antt =====
-- Runs of the lease table on small data, and its theorems at such data.
use localtrans.Base.{
  ℕ, ◌≤◌, ◌<◌, ◌≡◌, ◌≢◌, ◌↔◌, refl, true, false, none, some, [], ◌∷◌, Bytes-discrete, ℕ_discrete,
  replicate, is_some,
}
use localtrans.Base.Maps.{get, insert, remove, modify, retain}
use localtrans.Net.{IpAddr, v4}
use localtrans.Relay.Proto.{Fingerprint, Token}
use localtrans.Relay.Lease.Ports.{find_port}
use localtrans.Relay.Lease.Reach.{Inv, Reach-Inv, new-Inv, Reach, here, next, allocates, pairs}
use localtrans.Relay.Lease.Methods.{ports_unique, alloc-none_iff, alloc_registers}
use localtrans.Relay.Lease.Expiry.{lease_of-reap_expired}
use localtrans.Relay.Lease.SessionPorts.{alloc_session_port-some, alloc_takes_session_port}
use localtrans.Relay.Lease.{
  LeaseTable, LeaseEntry, new, alloc, renew_lease, grant_lease, free_port, get_by_port,
  get_by_token, remove_lease, alloc_session_port, free_session_port, lease_of, token_owner,
  port_owner, lease_info, is_hidden, reap_expired, is_session_port, session_members_of,
}

unfoldable pub lease_program : Unit {0}
unfolding get insert remove modify retain find_port new alloc renew_lease grant_lease free_port
    get_by_token remove_lease alloc_session_port free_session_port Bytes-discrete ℕ_discrete
lease_program = tt

-- Two devices, their tokens, and a table with three ports.
abbrev pub alice : Fingerprint
alice = 1 ∷ []

abbrev pub bob : Fingerprint
bob = 2 ∷ []

abbrev pub token_a : Token
token_a = replicate 16 7

abbrev pub token_b : Token
token_b = replicate 16 9

abbrev pub empty_table : LeaseTable
unfolding new
empty_table = new 100 103

abbrev pub one_device : LeaseTable
one_device = (alloc empty_table alice "alice" false 5 token_a).0

abbrev pub two_devices : LeaseTable
two_devices = (alloc one_device bob "bob" true 6 token_b).0

two_devices_lem : token_owner two_devices token_b ≡ some bob
unfolding lease_program
two_devices_lem = refl

pub session_port : (alloc_session_port two_devices alice bob 8).1 ≡ some 102
unfolding lease_program
session_port = refl

new_then_two : Reach (new 100 103) two_devices
unfolding lease_program
new_then_two =
    next (next here (allocates alice "alice" false 5 token_a refl))
      (allocates bob "bob" true 6 token_b refl)

pub two_devices-Inv : Inv two_devices
two_devices-Inv = Reach-Inv (new-Inv 100 103) new_then_two

Reach-Inv_example : Inv two_devices
Reach-Inv_example = Reach-Inv (new-Inv 100 103) new_then_two

abbrev pub alice_entry : LeaseEntry
alice_entry = record {
  fingerprint = alice;
  name = "alice";
  port = 100;
  token = token_a;
  last_active = 5;
  punch_from = none;
  last_ping = 5;
  hidden = false;
}

pub alice_leased : lease_of two_devices alice ≡ some alice_entry
unfolding lease_program
alice_leased = refl

ports_unique_example : alice ≡ alice
ports_unique_example =
    ports_unique two_devices alice alice alice_entry alice_entry two_devices-Inv.leases alice_leased
      alice_leased refl

-- A range of one port, which alice has.
abbrev full_table : LeaseTable
full_table = (alloc (new 100 101) alice "alice" false 5 token_a).0

abbrev pub carol : Fingerprint
carol = 3 ∷ []

abbrev pub token_c : Token
token_c = replicate 16 4

alloc-none_iff_example : ((alloc full_table carol "carol" false 9 token_c).1 ≡ none) ↔ (
    (lease_of full_table carol ≡ none)
    × ((p : ℕ)
        → full_table.port_start ≤ p
        → p < full_table.port_end
        → is_some (port_owner full_table p) ≡ true))
alloc-none_iff_example = alloc-none_iff full_table carol "carol" false 9 token_c

alloc_registers_example :
    let u = (alloc two_devices carol "carol" false 9 token_c).0 in
    (lease_info u carol ≡ some (record { data_port = 102; token = token_c }))
    × (is_hidden u carol ≡ false)
    × (get_by_port u 102 ≡ some carol)
    × ((get_by_token u token_c 9).1 ≡ some carol)
unfolding lease_program
alloc_registers_example =
    alloc_registers two_devices carol "carol" false 9 token_c
      (record { port = 102; token = token_c }) two_devices-Inv.leases refl refl

lease_of-reap_expired_example : lease_of (reap_expired two_devices 30 40).0 alice ≡ none
unfolding lease_program
lease_of-reap_expired_example = lease_of-reap_expired two_devices 30 40 alice two_devices-Inv

-- alice and bob have the session port 102.
abbrev pub with_session : LeaseTable
with_session = (alloc_session_port two_devices alice bob 8).0

pub with_session-Inv : Inv with_session
with_session-Inv = Reach-Inv (new-Inv 100 103) (next new_then_two (pairs alice bob 8))

alloc_session_port-some_example :
    (100 ≤ 102)
    × (102 < 103)
    × (port_owner two_devices 102 ≡ none)
    × (is_session_port two_devices 102 ≡ false)
    × (is_session_port with_session 102 ≡ true)
    × (session_members_of with_session 102 ≡ some (alice, bob))
    × ((q : ℕ) → q ≢ 102 → session_members_of with_session q ≡ session_members_of two_devices q)
unfolding lease_program
alloc_session_port-some_example = alloc_session_port-some two_devices alice bob 8 102 session_port

alloc_takes_session_port_example :
    let u = with_session in
    ((alloc u carol "carol" false 9 token_c).1 ≡ some (record { port = 102; token = token_c }))
    × (is_session_port (alloc u carol "carol" false 9 token_c).0 102 ≡ true)
unfolding lease_program
alloc_takes_session_port_example =
    alloc_takes_session_port two_devices alice bob 8 102 carol "carol" false 9 token_c refl refl
      session_port

abbrev pub home : IpAddr
home = v4 7
