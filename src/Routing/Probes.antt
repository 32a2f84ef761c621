-- ===== src/Routing/Probes.antt =====
-- crates/localtrans-core/src/routing/mod.rs: what a series of probes leads to.
use localtrans.Base.{
  ℕ, ◌≤◌, ◌<◌, ◌+◌, ◌*◌, ◌^◌, ◌-◌, ◌≡◌, ◌⊎◌, ◌↔◌, refl, subst, ◌∙◌, Bool, true, false, none, some,
  List, [], ◌∷◌, arith, if◌then◌else◌, length, inl, inr, Option-cases, Bytes-discrete, ltb,
}
use localtrans.Base.Maps.{get, get-insert, get-modify}
use localtrans.Net.{SocketAddr}
use localtrans.Relay.Proto.{Fingerprint}
use localtrans.Routing.{
  ChannelRecord, ChannelTable, find_addr, modify_addr, keep, channels_of, record_of, find_rec,
  with_rtt, record_rtt, take_rtt_degradation, with_sample, record_probe_sample, reap_timeouts,
  degraded, probe_disabled, escalate_full, median3, register, register_in, new_record, renewed,
  without_old_relays,
}
use localtrans.Routing.Channels.{
  AddrsDistinct, find_addr-modify_addr, find_addr-keep, find_addr-append,
}
use localtrans.Routing.Reach.{Op, TableShape, run_op-TableShape}

record_of-find_rec :
    (t : ChannelTable) (fp : Fingerprint) (a : SocketAddr) (f : ChannelRecord → ChannelRecord)
    → ((r : ChannelRecord) → (f r).addr ≡ r.addr)
    → record_of (find_rec t fp a f) fp a
      ≡ elim (record_of t fp a) [ none ↦ none | some r ↦ some (f r) ]
unfolding find_rec find_addr
record_of-find_rec t fp a f same = elim (Option-cases (get Bytes-discrete fp t.channels)) [
  | inl e ↦ ground (arith, get-modify Bytes-discrete fp fp (modify_addr a f) t.channels)
  | inr (rs, e) ↦ ground (
    arith,
    get-modify Bytes-discrete fp fp (modify_addr a f) t.channels,
    find_addr-modify_addr f same a a rs,
  )
]

-- As many failed probes as there are times in the list.
abbrev pub fail_all : ChannelTable → Fingerprint → SocketAddr → List ℕ → ChannelTable
fail_all t fp a [] = t
fail_all t fp a (now ∷ times) = fail_all (record_probe_sample t fp a false now) fp a times

record_of-fail_all :
    (t : ChannelTable) (fp : Fingerprint) (a : SocketAddr) (times : List ℕ) (r : ChannelRecord)
    → record_of t fp a ≡ some r
    → r.consecutive_timeouts + length times < 2 ^ 32
    → (q : ChannelRecord) × (record_of (fail_all t fp a times) fp a ≡ some q)
      × (q.consecutive_timeouts ≡ r.consecutive_timeouts + length times)
unfolding record_probe_sample with_sample
record_of-fail_all t fp a [] r h small = (r, h, omega arith)
record_of-fail_all t fp a (now ∷ times) r h small =
    let step : record_of (record_probe_sample t fp a false now) fp a
        ≡ some (with_sample false now r) =
      record_of-find_rec t fp a (with_sample false now) (λ q. refl) ∙ ground arith in
    let (q, there, count) =
      record_of-fail_all (record_probe_sample t fp a false now) fp a times _ step (omega arith) in
    (q, there, omega arith)

record_of-reap_timeouts :
    (t : ChannelTable) (fp : Fingerprint) (a : SocketAddr)
    → TableShape t
    → record_of (reap_timeouts t fp) fp a ≡ elim (record_of t fp a) [
      | none ↦ none
      | some r ↦ if ltb r.consecutive_timeouts 3 then some r else none
    ]
unfolding reap_timeouts find_addr
record_of-reap_timeouts t fp a s = elim (Option-cases (get Bytes-discrete fp t.channels)) [
  | inl e ↦
      ground (
        arith,
        get-modify Bytes-discrete fp fp (keep (λ r. ltb r.consecutive_timeouts 3)) t.channels,
      )
  | inr (rs, e) ↦
      let known : channels_of t fp ≡ rs = ground arith in
      ground (
        arith,
        get-modify Bytes-discrete fp fp (keep (λ r. ltb r.consecutive_timeouts 3)) t.channels,
        find_addr-keep (λ r. ltb r.consecutive_timeouts 3) a rs
            (subst AddrsDistinct known (s fp).distinct),
      )
]

fail_all-TableShape :
    (t : ChannelTable) (fp : Fingerprint) (a : SocketAddr) (times : List ℕ)
    → TableShape t
    → TableShape (fail_all t fp a times)
fail_all-TableShape t fp a [] s = s
fail_all-TableShape t fp a (now ∷ times) s =
    fail_all-TableShape (record_probe_sample t fp a false now) fp a times
      (run_op-TableShape t (Op.samples fp a false now) s)

-- In a table of the shape above, a channel that fails one probe after the other is dropped exactly
-- when its failures in a row, the old ones counted and without wrap-around, have come to three.
pub reap-fail_all_iff :
    (t : ChannelTable) (fp : Fingerprint) (a : SocketAddr) (times : List ℕ) (r : ChannelRecord)
    → TableShape t
    → record_of t fp a ≡ some r
    → r.consecutive_timeouts + length times < 2 ^ 32
    → (record_of (reap_timeouts (fail_all t fp a times) fp) fp a ≡ none)
      ↔ (3 ≤ r.consecutive_timeouts + length times)
reap-fail_all_iff t fp a times r s h small =
    let (q, there, count) = record_of-fail_all t fp a times r h small in
    let left =
      record_of-reap_timeouts (fail_all t fp a times) fp a (fail_all-TableShape t fp a times s) in
    (λ gone. ground (arith, left), λ three. ground (arith, left))

register_in-enables :
    (a : SocketAddr) (via_relay : Bool) (now : ℕ) (rs : List ChannelRecord)
    → (q : ChannelRecord) × (find_addr a (register_in a via_relay now rs).0 ≡ some q)
      × (q.probe_disabled ≡ false)
unfolding register_in new_record
register_in-enables a via_relay now rs = elim (Option-cases (find_addr a rs)) [
  | inl e ↦ (
    new_record a via_relay now,
    rw (e, register_in) (ground (arith, find_addr-append a rs (new_record a via_relay now))),
    refl,
  )
  | inr (r, e) ↦ (
    renewed now r,
    rw (e, register_in) (ground (arith, find_addr-modify_addr (renewed now) (λ q. refl) a a rs)),
    refl,
  )
]

register-enables :
    (t : ChannelTable) (fp : Fingerprint) (a : SocketAddr) (via_relay : Bool) (now : ℕ)
    → probe_disabled (register t fp a via_relay now).0 fp a ≡ false
unfolding probe_disabled register
register-enables t fp a via_relay now =
    let rs = without_old_relays a via_relay (channels_of t fp) in
    let (q, there, enabled) = register_in-enables a via_relay now rs in
    ground (arith, get-insert Bytes-discrete fp fp (register_in a via_relay now rs).0 t.channels)

-- A failed probe stops the probing of the channel until the channel is registered again.
pub probe_disabled-fails :
    (t : ChannelTable) (fp : Fingerprint) (a : SocketAddr) (r : ChannelRecord) (now : ℕ)
    → record_of t fp a ≡ some r
    → let t' = record_probe_sample t fp a false now in
      (probe_disabled t' fp a ≡ true)
      × ((via_relay : Bool) (later : ℕ)
          → probe_disabled (register t' fp a via_relay later).0 fp a ≡ false)
unfolding probe_disabled record_probe_sample with_sample
probe_disabled-fails t fp a r now h =
    let step : record_of (record_probe_sample t fp a false now) fp a
        ≡ some (with_sample false now r) =
      record_of-find_rec t fp a (with_sample false now) (λ q. refl) ∙ ground arith in
    (ground arith, λ via_relay later. register-enables _ fp a via_relay later)

-- The measurements of a series, one after the other.
abbrev pub measure_all : ChannelTable → Fingerprint → SocketAddr → List (ℕ × ℕ) → ChannelTable
measure_all t fp a [] = t
measure_all t fp a ((rtt, now) ∷ ms) = measure_all (record_rtt t fp a rtt now) fp a ms

streak-measure_all :
    (t : ChannelTable) (fp : Fingerprint) (a : SocketAddr) (ms : List (ℕ × ℕ)) (r : ChannelRecord)
    → record_of t fp a ≡ some r
    → (q : ChannelRecord) × (record_of (measure_all t fp a ms) fp a ≡ some q)
      × (q.rtt_double_streak ≤ r.rtt_double_streak + length ms)
unfolding record_rtt with_rtt
streak-measure_all t fp a [] r h = (r, h, omega arith)
streak-measure_all t fp a ((rtt, now) ∷ ms) r h =
    let step : record_of (record_rtt t fp a rtt now) fp a ≡ some (with_rtt rtt now r) =
      record_of-find_rec t fp a (with_rtt rtt now) (λ q. refl) ∙ ground arith in
    let (q, there, count) = streak-measure_all (record_rtt t fp a rtt now) fp a ms _ step in
    (q, there, ground arith)

-- A degradation is reported once: when it has been taken, the next one needs at least three more
-- measurements, whatever they are.
pub take_rtt_degradation-again :
    (t : ChannelTable) (fp : Fingerprint) (a : SocketAddr) (ms : List (ℕ × ℕ))
    → (take_rtt_degradation t fp a).1 ≡ true
    → length ms < 3
    → (take_rtt_degradation (measure_all (take_rtt_degradation t fp a).0 fp a ms) fp a).1 ≡ false
unfolding take_rtt_degradation
take_rtt_degradation-again t fp a ms taken few = elim (Option-cases (record_of t fp a)) [
  | inl e ↦ absurd (ground arith)
  | inr (r, e) ↦
      let reset = record_of-find_rec t fp a (λ q. record q { rtt_double_streak = 0 }) (λ q. refl) in
      let d : degraded r ≡ true = ground arith in
      let t' : ChannelTable = find_rec t fp a (λ q. record q { rtt_double_streak = 0 }) in
      let same : (take_rtt_degradation t fp a).0 ≡ t' = ground arith in
      let (q, there, count) =
        streak-measure_all t' fp a ms (record r { rtt_double_streak = 0 }) (reset ∙ ground arith) in
      rw same (ground arith)
]

-- The median is one of the three, and neither below nor above two of them.
pub median3_lem :
    (a b c : ℕ)
    → ((median3 a b c ≡ a) × (((b ≤ a) × (a ≤ c)) ⊎ ((c ≤ a) × (a ≤ b))))
      ⊎ (((median3 a b c ≡ b) × (((a ≤ b) × (b ≤ c)) ⊎ ((c ≤ b) × (b ≤ a))))
          ⊎ ((median3 a b c ≡ c) × (((a ≤ c) × (c ≤ b)) ⊎ ((b ≤ c) × (c ≤ a)))))
unfolding median3
median3_lem a b c = ground arith

-- A quick probe asks for a full one exactly when it measured at most half of the last full result,
-- and the doubling cannot saturate unless that result is the greatest number of 64 bits.
pub escalate_full_iff :
    (full_bps quick_bps : ℕ)
    → full_bps < 2 ^ 64 - 1
    → (escalate_full (some full_bps) quick_bps ≡ true) ↔ (2 * quick_bps ≤ full_bps)
unfolding escalate_full
escalate_full_iff full_bps quick_bps h = (λ e. ground arith, λ e. ground arith)
