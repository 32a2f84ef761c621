-- ===== src/Routing/Reach.antt =====
-- crates/localtrans-core/src/routing/mod.rs: the tables of channels that the program can come to.
use localtrans.Base.{
  ℕ, refl, subst, Bool, List, [], ◌∷◌, arith, inl, inr, Bool-cases, Option-cases, Bytes-discrete,
}
use localtrans.Base.Maps.{get, get-insert, insert, modify}
use localtrans.Net.{SocketAddr}
use localtrans.Relay.Proto.{Fingerprint}
use localtrans.Routing.{
  ChannelRecord, ChannelTable, ProbeKind, find_addr, channels_of, register, note_connected,
  find_rec, with_rtt, record_rtt, take_rtt_degradation, record_bandwidth, record_probe_sample,
  reap_timeouts, empty_table, degraded,
}
use localtrans.Routing.Shape.{
  Shape, Mild, modify_addr-Shape, keep-Shape, register_in-Shape, with_sample-Mild,
}

-- Every list of the table.
abbrev pub TableShape : ChannelTable → Type 0
TableShape t = (fp : Fingerprint) → Shape (channels_of t fp)

empty-Shape : Shape []
empty-Shape = record { distinct = tt; one_relay = omega arith; windows = tt }

insert-TableShape :
    (t : ChannelTable) (fp : Fingerprint) (rs : List ChannelRecord)
    → TableShape t
    → Shape rs
    → TableShape (record t { channels = insert Bytes-discrete fp rs t.channels })
insert-TableShape t fp rs s r q = elim (Bytes-discrete fp q) [
  | yes e ↦ subst Shape (ground (arith, get-insert Bytes-discrete fp q rs t.channels)) r
  | no e ↦ subst Shape (ground (arith, get-insert Bytes-discrete fp q rs t.channels)) (s q)
]

modify-TableShape :
    (t : ChannelTable) (fp : Fingerprint) (g : List ChannelRecord → List ChannelRecord)
    → TableShape t
    → ((rs : List ChannelRecord) → Shape rs → Shape (g rs))
    → TableShape (record t { channels = modify Bytes-discrete fp g t.channels })
unfolding modify
modify-TableShape t fp g s h = elim (Option-cases (get Bytes-discrete fp t.channels)) [
  | inl e ↦ rw (e, modify) s
  | inr (rs, e) ↦
      rw (e, modify) (insert-TableShape t fp (g rs) s (h rs (subst Shape (ground arith) (s fp))))
]

-- The calls that change the table.
pub data Op : Type 0 where
  registers connects : Fingerprint → SocketAddr → Bool → ℕ → Op
  measures_rtt : Fingerprint → SocketAddr → ℕ → ℕ → Op
  takes_degradation : Fingerprint → SocketAddr → Op
  measures_bandwidth : Fingerprint → SocketAddr → ProbeKind → ℕ → ℕ → Op
  samples : Fingerprint → SocketAddr → Bool → ℕ → Op
  reaps : Fingerprint → Op

abbrev pub run_op : ChannelTable → Op → ChannelTable
run_op t (registers fp addr via_relay now) = (register t fp addr via_relay now).0
run_op t (connects fp addr via_relay now) = note_connected t fp addr via_relay now
run_op t (measures_rtt fp addr rtt_ms now) = record_rtt t fp addr rtt_ms now
run_op t (takes_degradation fp addr) = (take_rtt_degradation t fp addr).0
run_op t (measures_bandwidth fp addr kind est_bps now) = record_bandwidth t fp addr kind est_bps now
run_op t (samples fp addr sample now) = record_probe_sample t fp addr sample now
run_op t (reaps fp) = reap_timeouts t fp

abbrev pub run_ops : ChannelTable → List Op → ChannelTable
run_ops t [] = t
run_ops t (op ∷ ops) = run_ops (run_op t op) ops

register-TableShape :
    (t : ChannelTable) (fp : Fingerprint) (addr : SocketAddr) (via_relay : Bool) (now : ℕ)
    → TableShape t
    → TableShape (register t fp addr via_relay now).0
unfolding register
register-TableShape t fp addr via_relay now s =
    insert-TableShape t fp _ s (register_in-Shape addr via_relay now (channels_of t fp) (s fp))

find_rec-TableShape :
    (t : ChannelTable) (fp : Fingerprint) (addr : SocketAddr) (f : ChannelRecord → ChannelRecord)
    → Mild f
    → TableShape t
    → TableShape (find_rec t fp addr f)
unfolding find_rec
find_rec-TableShape t fp addr f m s = modify-TableShape t fp _ s (modify_addr-Shape f m addr)

take_rtt_degradation-TableShape :
    (t : ChannelTable) (fp : Fingerprint) (addr : SocketAddr)
    → TableShape t
    → TableShape (take_rtt_degradation t fp addr).0
unfolding take_rtt_degradation
take_rtt_degradation-TableShape t fp addr s =
    elim (Option-cases (find_addr addr (channels_of t fp))) [
      | inl e ↦ rw (e, take_rtt_degradation) s
      | inr (r, e) ↦ elim (Bool-cases (degraded r)) [
        | inl d ↦
            rw (e, d, take_rtt_degradation)
              (find_rec-TableShape t fp addr _
                (record { addr = λ r. refl; path = λ r. refl; window = λ r w. w }) s)
        | inr d ↦ rw (e, d, take_rtt_degradation) s
      ]
    ]

pub run_op-TableShape : (t : ChannelTable) (op : Op) → TableShape t → TableShape (run_op t op)
unfolding note_connected record_rtt with_rtt record_bandwidth record_probe_sample reap_timeouts
run_op-TableShape t (registers fp addr via_relay now) s =
    register-TableShape t fp addr via_relay now s
run_op-TableShape t (connects fp addr via_relay now) s =
    register-TableShape t fp addr via_relay now s
run_op-TableShape t (measures_rtt fp addr rtt_ms now) s =
    find_rec-TableShape t fp addr _
      (record { addr = λ r. refl; path = λ r. refl; window = λ r w. w }) s
run_op-TableShape t (takes_degradation fp addr) s = take_rtt_degradation-TableShape t fp addr s
run_op-TableShape t (measures_bandwidth fp addr kind est_bps now) s =
    find_rec-TableShape t fp addr _
      (record { addr = λ r. refl; path = λ r. refl; window = λ r w. w }) s
run_op-TableShape t (samples fp addr sample now) s =
    find_rec-TableShape t fp addr _ (with_sample-Mild sample now) s
run_op-TableShape t (reaps fp) s = modify-TableShape t fp _ s (keep-Shape _)

run_ops-from : (t : ChannelTable) (ops : List Op) → TableShape t → TableShape (run_ops t ops)
run_ops-from t [] s = s
run_ops-from t (op ∷ ops) s = run_ops-from (run_op t op) ops (run_op-TableShape t op s)

-- Whatever is done to a table of channels that starts empty, no device has two records for one
-- address or two relayed channels, and no record has more than ten probe samples.
pub run_ops-TableShape :
    (ops : List Op) (fp : Fingerprint) → Shape (channels_of (run_ops empty_table ops) fp)
unfolding get
run_ops-TableShape ops = run_ops-from empty_table ops (λ fp. empty-Shape)
