-- ===== src/Discovery.antt =====
-- crates/localtrans-core/src/discovery.rs: the packets by which devices find each other, their
-- signatures and the guard against replays. Ed25519 is a parameter.
pub mod Replay
pub mod Bounds
pub mod Signed
use localtrans.Base.{
  ℕ, ◌-◌, ◌*◌, ◌≡◌, Bool, true, false, Option, none, some, List, [], ◌∷◌, ◌++◌, String, Bytes,
  Bytes-discrete, if◌then◌else◌, ltb, leb, ◌==◌, length, take, drop, Result, ok, err,
}
use localtrans.Base.Maps.{Map, get, insert, retain}
use localtrans.Json.{Json}
use localtrans.Relay.Proto.{Fingerprint}

pub data PacketKind : Type 0 where
  presence probe probe_resp : PacketKind

-- Ten minutes in milliseconds.
abbrev pub clock_skew_tolerance_ms : ℕ
clock_skew_tolerance_ms = 10 * 60 * 1000

abbrev pub max_nonces : ℕ
max_nonces = 4096

pub record DiscoveryPacket : Type 0 where
  pub v : ℕ
  pub kind : PacketKind
  pub name : String
  pub fingerprint : Fingerprint
  pub pubkey : Bytes
  pub quic_port : ℕ
  pub ts_ms : ℕ
  pub nonce : Bytes

pub data DiscoveryError : Type 0 where
  bad_signature stale replay malformed overflow : DiscoveryError

-- The time stamp of each nonce that was seen.
abbrev pub ReplayGuard : Type 0
ReplayGuard = Map Bytes ℕ

-- The entries inside the window.
unfoldable pub live_nonces : ℕ → ReplayGuard → ReplayGuard
unfolding retain
live_nonces now_ms nonces =
    retain (λ _ last_ts. ltb (now_ms - clock_skew_tolerance_ms) last_ts) nonces

-- A new nonce, if there is room for it.
unfoldable pub record_nonce :
    Bytes → ℕ → ℕ → ReplayGuard → Result DiscoveryError (Unit {0}) × ReplayGuard
unfolding insert live_nonces
record_nonce nonce ts_ms now_ms nonces =
    if leb max_nonces (length nonces)
    then (let again = live_nonces now_ms nonces in
        if leb max_nonces (length again)
        then (err overflow, again)
        else (ok tt, insert Bytes-discrete nonce ts_ms again))
    else (ok tt, insert Bytes-discrete nonce ts_ms nonces)

unfoldable pub seen : Bytes → ℕ → ReplayGuard → Bool
unfolding get
seen nonce ts_ms nonces = elim (get Bytes-discrete nonce nonces) [
  | none ↦ false
  | some existing ↦ existing == ts_ms
]

unfoldable pub check_nonce :
    Bytes → ℕ → ℕ → ReplayGuard → Result DiscoveryError (Unit {0}) × ReplayGuard
unfolding live_nonces seen record_nonce
check_nonce nonce ts_ms now_ms nonces =
    let live = live_nonces now_ms nonces in
    if seen nonce ts_ms live then (err replay, live) else record_nonce nonce ts_ms now_ms live

-- Ed25519 with one key of this device: what is relied on is that a signature has 64 bytes and is
-- accepted with the public key of the key that made it.
pub record Signatures : Type 1 where
  pub SigningKey : Type 0
  pub verifying_key : SigningKey → Bytes
  pub sign : SigningKey → Bytes → Bytes
  pub verify : Bytes → Bytes → Bytes → Bool
  pub length-sign : (k : SigningKey) (m : Bytes) → length (sign k m) ≡ 64
  pub verify-sign : (k : SigningKey) (m : Bytes) → verify (verifying_key k) m (sign k m) ≡ true

-- The distance of two times.
unfoldable pub skew : ℕ → ℕ → ℕ
skew now_ms ts_ms = if ltb ts_ms now_ms then now_ms - ts_ms else ts_ms - now_ms

module _ (serde : Json DiscoveryPacket) (ed25519 : Signatures) where
  -- None where `expect` panics.
  unfoldable pub encode_and_sign : DiscoveryPacket → ed25519.SigningKey → Option Bytes
  encode_and_sign pkt key = elim (serde.to_vec pkt) [
    | none ↦ none
    | some json_bytes ↦ some (json_bytes ++ ed25519.sign key json_bytes)
  ]

  -- The packet in bytes that are well-formed, signed and in time.
  unfoldable pub authentic : Bytes → ℕ → Result DiscoveryError DiscoveryPacket
  unfolding skew
  authentic bytes now_ms =
      let json_bytes = take (length bytes - 64) bytes in
      let sig_bytes = drop (length bytes - 64) bytes in
      if ltb (length bytes) 64 then err malformed else elim (serde.from_slice json_bytes) [
        | none ↦ err malformed
        | some pkt ↦
            if ed25519.verify pkt.pubkey json_bytes sig_bytes
            then (if ltb clock_skew_tolerance_ms (skew now_ms pkt.ts_ms) then err stale else ok pkt)
            else err bad_signature
      ]

  unfoldable pub verify_and_parse :
      Bytes → ℕ → ReplayGuard → Result DiscoveryError DiscoveryPacket × ReplayGuard
  unfolding authentic check_nonce
  verify_and_parse bytes now_ms guard = elim (authentic bytes now_ms) [
    | err e ↦ (err e, guard)
    | ok pkt ↦
        let checked = check_nonce pkt.nonce pkt.ts_ms now_ms guard in
        (elim checked.0 [ err e ↦ err e | ok _ ↦ ok pkt ], checked.1)
  ]

  -- The guard after packets that come one after the other, each with its time.
  unfoldable pub receive_all : List (Bytes × ℕ) → ReplayGuard → ReplayGuard
  unfolding verify_and_parse
  receive_all [] guard = guard
  receive_all ((bytes, now_ms) ∷ more) guard =
      receive_all more (verify_and_parse bytes now_ms guard).1
