-- ===== src/Tests/Routing.antt =====
-- Runs of the table of channels and of the choice among them, and the theorems at such runs.
use localtrans.Base.{
  ℕ, ◌≡◌, refl, Bool, true, false, Option, none, some, List, [], ◌∷◌, Bytes-discrete, ℕ_discrete,
}
use localtrans.Base.Maps.{get, insert, remove, modify}
use localtrans.Net.{SocketAddr, SocketAddr-discrete, v4}
use localtrans.Routing.{
  ChannelRecord, ChannelTable, empty_table, new_record, find_addr, modify_addr, keep,
  without_old_relays, register_in, register, note_connected, find_rec, channels_of, record_of,
  rtt_doubled, with_rtt, record_rtt, take_rtt_degradation, record_bandwidth, push_loss_sample,
  with_sample, record_probe_sample, reap_timeouts,
}
use localtrans.Routing.Shape.{Shape}
use localtrans.Routing.Reach.{Op, TableShape, run_ops, run_ops-TableShape}
use localtrans.Routing.Score.{
  Scored, scored_of, insert_scored, sort_scored, best_direct, preferred, find_scored, choose,
  decide,
}
use localtrans.Routing.Choice.{FairOf, decide-Fair}

routing_program : Unit {0}
unfolding get insert remove modify Bytes-discrete ℕ_discrete SocketAddr-discrete new_record
    find_addr modify_addr keep without_old_relays register_in register note_connected find_rec
    rtt_doubled with_rtt record_rtt take_rtt_degradation record_bandwidth push_loss_sample
    with_sample record_probe_sample reap_timeouts scored_of insert_scored sort_scored best_direct
    preferred find_scored choose decide
routing_program = tt

abbrev peer : List ℕ
peer = 9 ∷ []

abbrev direct : SocketAddr
direct = record { ip = v4 1; port = 100 }

abbrev relayed : SocketAddr
relayed = record { ip = v4 2; port = 200 }

abbrev opening : List Op
opening =
    Op.connects peer direct false 1
    ∷ Op.registers peer relayed true 2
    ∷ Op.measures_rtt peer direct 4 3
    ∷ Op.measures_rtt peer direct 9 4
    ∷ Op.measures_rtt peer direct 20 5
    ∷ Op.measures_rtt peer direct 50 6
    ∷ Op.samples peer direct false 7
    ∷ []

abbrev table : ChannelTable
table = run_ops empty_table opening

run_ops-TableShape_example : Shape (channels_of table peer)
run_ops-TableShape_example = run_ops-TableShape opening peer

table-TableShape : TableShape table
table-TableShape = run_ops-TableShape opening

abbrev direct_record : ChannelRecord
direct_record = record {
  addr = direct;
  via_relay = false;
  rtt_ms = some 50;
  est_bps = none;
  last_full_bps = none;
  loss_window = false ∷ [];
  updated_at = 7;
  consecutive_timeouts = 1;
  probe_disabled = true;
  rtt_double_streak = 3;
}

direct_known : record_of table peer direct ≡ some direct_record
unfolding routing_program
direct_known = refl

-- A score that only looks at the bandwidth.
abbrev by_bandwidth : Option ℕ → Option ℕ → List Bool → Option ℕ
by_bandwidth rtt none w = none
by_bandwidth rtt (some bps) w = some bps

abbrev slow : ChannelRecord
slow = record direct_record { est_bps = some 40 }

abbrev fast : ChannelRecord
fast = record direct_record { addr = relayed; via_relay = true; est_bps = some 90 }

abbrev both : List ChannelRecord
both = slow ∷ fast ∷ []

decide-Fair_example : (best : Scored) × (best.1.addr ≡ relayed) × FairOf by_bandwidth both best
unfolding routing_program
decide-Fair_example = decide-Fair by_bandwidth both (some direct) relayed refl
