-- ===== src/Routing.antt =====
-- crates/localtrans-core/src/routing/mod.rs: the channels to each device, what probes have measured
-- of them, and when they are dropped. Functions that read the clock take its reading.

pub mod Channels
pub mod Shape
pub mod Reach
pub mod Probes
pub mod Score
pub mod Sorted
pub mod Choice
use localtrans.Base.{
  ℕ, suc, ◌+◌, ◌-◌, ◌*◌, ◌%◌, ◌^◌, Bool, true, false, not, ◌&&◌, ◌||◌, Option, none, some, List, [],
  ◌∷◌, ◌++◌, Bytes-discrete, if◌then◌else◌, ltb, leb, is_some, holds, length, drop,
}
use localtrans.Base.Maps.{Map, get, insert, modify}
use localtrans.Net.{SocketAddr, SocketAddr-discrete}
use localtrans.Relay.Proto.{Fingerprint}

abbrev pub loss_window_cap : ℕ
loss_window_cap = 10

abbrev pub remove_after_timeouts : ℕ
remove_after_timeouts = 3

abbrev pub degrade_after_rtt_doubles : ℕ
degrade_after_rtt_doubles = 3

pub data ProbeKind : Type 0 where
  full quick : ProbeKind

pub record ChannelRecord : Type 0 where
  pub addr : SocketAddr
  pub via_relay : Bool
  pub rtt_ms : Option ℕ
  pub est_bps : Option ℕ
  pub last_full_bps : Option ℕ
  pub loss_window : List Bool
  pub updated_at : ℕ
  pub consecutive_timeouts : ℕ
  pub probe_disabled : Bool
  pub rtt_double_streak : ℕ

unfoldable pub new_record : SocketAddr → Bool → ℕ → ChannelRecord
new_record addr via_relay now = record {
  addr = addr;
  via_relay = via_relay;
  rtt_ms = none;
  est_bps = none;
  last_full_bps = none;
  loss_window = [];
  updated_at = now;
  consecutive_timeouts = 0;
  probe_disabled = false;
  rtt_double_streak = 0;
}

unfoldable pub score_ready : ChannelRecord → Bool
score_ready r = is_some r.rtt_ms && is_some r.est_bps

-- The two numbers whose quotient is the loss rate: failures and samples.
unfoldable pub failures : List Bool → ℕ
failures [] = 0
failures (true ∷ w) = failures w
failures (false ∷ w) = suc (failures w)

-- `saturating_mul` and `saturating_add` on `w` bits.
abbrev pub saturate : ℕ → ℕ → ℕ
saturate w n = if ltb n (2 ^ w) then n else 2 ^ w - 1

unfoldable pub escalate_full : Option ℕ → ℕ → Bool
escalate_full none quick_bps = false
escalate_full (some full_bps) quick_bps = leb (saturate 64 (quick_bps * 2)) full_bps

-- `v.sort_unstable(); v[1]`
unfoldable pub median3 : ℕ → ℕ → ℕ → ℕ
median3 a b c =
    let (lo, hi) : ℕ × ℕ = if leb a b then (a, b) else (b, a) in
    if leb c lo then lo else if leb c hi then c else hi

unfoldable pub rtt_doubled : ℕ → ℕ → Bool
rtt_doubled prev cur = ltb 0 prev && leb (saturate 64 (prev * 2)) cur

pub record ChannelTable : Type 0 where
  pub channels : Map Fingerprint (List ChannelRecord)
  pub current : Map Fingerprint SocketAddr

abbrev pub empty_table : ChannelTable
empty_table = record { channels = []; current = [] }

-- `channels.entry(fp).or_default()`
abbrev pub channels_of : ChannelTable → Fingerprint → List ChannelRecord
channels_of t fp = elim (get Bytes-discrete fp t.channels) [ none ↦ [] | some rs ↦ rs ]

abbrev pub at_addr : SocketAddr → ChannelRecord → Bool
at_addr addr r = holds (SocketAddr-discrete r.addr addr)

unfoldable pub find_addr : SocketAddr → List ChannelRecord → Option ChannelRecord
find_addr addr [] = none
find_addr addr (r ∷ rs) = let rest = find_addr addr rs in if at_addr addr r then some r else rest

-- The first record at an address, changed in place.
unfoldable pub modify_addr :
    SocketAddr → (ChannelRecord → ChannelRecord) → List ChannelRecord → List ChannelRecord
modify_addr addr f [] = []
modify_addr addr f (r ∷ rs) =
    let rest = modify_addr addr f rs in if at_addr addr r then f r ∷ rs else r ∷ rest

unfoldable pub keep : (ChannelRecord → Bool) → List ChannelRecord → List ChannelRecord
keep p [] = []
keep p (r ∷ rs) = let rest = keep p rs in if p r then r ∷ rest else rest

-- A new relayed channel replaces the relayed channels at other addresses.
unfoldable pub without_old_relays : SocketAddr → Bool → List ChannelRecord → List ChannelRecord
without_old_relays addr via_relay rs =
    if via_relay then keep (λ r. not (r.via_relay && not (at_addr addr r))) rs else rs

abbrev pub renewed : ℕ → ChannelRecord → ChannelRecord
renewed now r = record r { probe_disabled = false; rtt_double_streak = 0; updated_at = now }

unfoldable pub register_in : SocketAddr → Bool → ℕ → List ChannelRecord → List ChannelRecord × Bool
unfolding new_record
register_in addr via_relay now rs = elim (find_addr addr rs) [
  | some _ ↦ (modify_addr addr (renewed now) rs, false)
  | none ↦ (rs ++ new_record addr via_relay now ∷ [], true)
]

unfoldable pub register : ChannelTable → Fingerprint → SocketAddr → Bool → ℕ → ChannelTable × Bool
register t fp addr via_relay now =
    let (rs, fresh) =
      register_in addr via_relay now (without_old_relays addr via_relay (channels_of t fp)) in
    (record t { channels = insert Bytes-discrete fp rs t.channels }, fresh)

unfoldable pub note_connected : ChannelTable → Fingerprint → SocketAddr → Bool → ℕ → ChannelTable
note_connected t fp addr via_relay now =
    let t' = (register t fp addr via_relay now).0 in
    record t' { current = insert Bytes-discrete fp addr t'.current }

unfoldable pub current_of : ChannelTable → Fingerprint → Option SocketAddr
current_of t fp = get Bytes-discrete fp t.current

unfoldable pub snapshot : ChannelTable → Fingerprint → List ChannelRecord
snapshot t fp = channels_of t fp

-- `find_rec`, with what is done to the record that it finds.
unfoldable pub find_rec :
    ChannelTable → Fingerprint → SocketAddr → (ChannelRecord → ChannelRecord) → ChannelTable
find_rec t fp addr f = record t {
  channels = modify Bytes-discrete fp (modify_addr addr f) t.channels;
}

abbrev pub record_of : ChannelTable → Fingerprint → SocketAddr → Option ChannelRecord
record_of t fp addr = find_addr addr (channels_of t fp)

unfoldable pub probe_disabled : ChannelTable → Fingerprint → SocketAddr → Bool
probe_disabled t fp addr = elim (record_of t fp addr) [ none ↦ false | some r ↦ r.probe_disabled ]

abbrev pub doubles : Option ℕ → ℕ → Bool
doubles none rtt_ms = false
doubles (some prev) rtt_ms = rtt_doubled prev rtt_ms

unfoldable pub with_rtt : ℕ → ℕ → ChannelRecord → ChannelRecord
with_rtt rtt_ms now r = record r {
  rtt_double_streak = if doubles r.rtt_ms rtt_ms then saturate 32 (r.rtt_double_streak + 1) else 0;
  rtt_ms = some rtt_ms;
  updated_at = now;
}

unfoldable pub record_rtt : ChannelTable → Fingerprint → SocketAddr → ℕ → ℕ → ChannelTable
record_rtt t fp addr rtt_ms now = find_rec t fp addr (with_rtt rtt_ms now)

abbrev pub degraded : ChannelRecord → Bool
degraded r = leb degrade_after_rtt_doubles r.rtt_double_streak

unfoldable pub take_rtt_degradation : ChannelTable → Fingerprint → SocketAddr → ChannelTable × Bool
take_rtt_degradation t fp addr = elim (record_of t fp addr) [
  | none ↦ (t, false)
  | some r ↦
      if degraded r
      then (find_rec t fp addr (λ q. record q { rtt_double_streak = 0 }), true)
      else (t, false)
]

abbrev pub full_after : ProbeKind → ℕ → Option ℕ → Option ℕ
full_after ProbeKind.full est_bps old = some est_bps
full_after ProbeKind.quick est_bps old = old

unfoldable pub record_bandwidth :
    ChannelTable → Fingerprint → SocketAddr → ProbeKind → ℕ → ℕ → ChannelTable
record_bandwidth t fp addr kind est_bps now = find_rec t fp addr (λ r. record r {
  est_bps = some est_bps;
  last_full_bps = full_after kind est_bps r.last_full_bps;
  updated_at = now;
})

unfoldable pub push_loss_sample : List Bool → Bool → List Bool
push_loss_sample window sample =
    (if leb loss_window_cap (length window) then drop 1 window else window) ++ sample ∷ []

unfoldable pub with_sample : Bool → ℕ → ChannelRecord → ChannelRecord
unfolding push_loss_sample
with_sample sample now r =
    let r' = record r { loss_window = push_loss_sample r.loss_window sample; updated_at = now } in
    if sample then record r' { consecutive_timeouts = 0 } else record r' {
      consecutive_timeouts = (r.consecutive_timeouts + 1) % 2 ^ 32;
      probe_disabled = true;
    }

unfoldable pub record_probe_sample :
    ChannelTable → Fingerprint → SocketAddr → Bool → ℕ → ChannelTable
record_probe_sample t fp addr sample now = find_rec t fp addr (with_sample sample now)

unfoldable pub reap_timeouts : ChannelTable → Fingerprint → ChannelTable
reap_timeouts t fp = record t {
  channels =
      modify Bytes-discrete fp (keep (λ r. ltb r.consecutive_timeouts remove_after_timeouts))
        t.channels;
}
