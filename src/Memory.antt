-- ===== src/Memory.antt =====
-- crates/localtrans-core/src/connect_memory.rs and relay/autoheal.rs: how long to wait before a new
-- attempt to connect, and when to give up. `connect_peer` is an argument: whether attempt `i` succeeds.
pub mod Backoff
use localtrans.Base.{
  ℕ, zero, suc, ◌+◌, ◌-◌, ◌*◌, ◌^◌, Bool, true, false, Option, none, some, String, if◌then◌else◌,
  leb, ◌==◌, min,
}
use localtrans.Base.Maps.{Map, get, insert, remove}
use localtrans.Base.{Bytes-discrete, is_some}
use localtrans.Relay.Proto.{Fingerprint}

abbrev pub backoff_base_secs : ℕ
backoff_base_secs = 2

abbrev pub backoff_cap_secs : ℕ
backoff_cap_secs = 30

abbrev pub max_consecutive_failures : ℕ
max_consecutive_failures = 5

-- `saturating_mul` on 64 bits.
unfoldable pub backoff_secs : ℕ → ℕ
backoff_secs failures =
    if failures == 0
    then backoff_base_secs
    else min (min (backoff_base_secs * 2 ^ min (failures - 1) 31) (2 ^ 64 - 1)) backoff_cap_secs

unfoldable pub give_up : ℕ → Bool
give_up failures = leb max_consecutive_failures failures

pub record MemoryEntry : Type 0 where
  pub first_connected_at : ℕ
  pub last_connected_at : ℕ

-- By fingerprint; the code uses its hexadecimal text as the key.
abbrev pub ConnectMemory : Type 0
ConnectMemory = Map Fingerprint MemoryEntry

unfoldable pub record_at : Fingerprint → ℕ → ConnectMemory → ConnectMemory × Bool
unfolding get insert
record_at fp ts m = elim (get Bytes-discrete fp m) [
  | some e ↦ (insert Bytes-discrete fp (record e { last_connected_at = ts }) m, false)
  | none ↦ (
    insert Bytes-discrete fp (record { first_connected_at = ts; last_connected_at = ts }) m,
    true,
  )
]

unfoldable pub forget : Fingerprint → ConnectMemory → ConnectMemory × Bool
unfolding get remove
forget fp m = (remove Bytes-discrete fp m, is_some (get Bytes-discrete fp m))

unfoldable pub contains : Fingerprint → ConnectMemory → Bool
unfolding get
contains fp m = is_some (get Bytes-discrete fp m)

abbrev pub max_fails : ℕ
max_fails = 3

abbrev pub max_delay_secs : ℕ
max_delay_secs = 30

-- `BackoffState` is its number of failures; the state after a failure, and the wait, if any.
unfoldable pub record_failure : ℕ → ℕ × Option ℕ
record_failure fails =
    (fails + 1, if leb max_fails (fails + 1) then none else some (min (2 ^ fails) max_delay_secs))

-- How `reconnect_peer_conn` ends: with the connection of an attempt, or not, after waiting in all.
pub data Reconnect : Type 0 where
  connected gave_up : ℕ → ℕ → Reconnect

-- The loop, on fuel, from an attempt on.
unfoldable pub reconnect : ℕ → (ℕ → Bool) → ℕ → ℕ → ℕ → Option Reconnect
unfolding record_failure
reconnect zero connects attempt fails waited = none
reconnect (suc fuel) connects attempt fails waited =
    let failure = record_failure fails in
    if connects attempt then some (connected attempt waited) else elim failure.1 [
      | none ↦ some (gave_up attempt waited)
      | some secs ↦ reconnect fuel connects (attempt + 1) failure.0 (waited + secs)
    ]
