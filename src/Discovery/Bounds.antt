-- ===== src/Discovery/Bounds.antt =====
-- crates/localtrans-core/src/discovery.rs: what a packet can do to the guard.
use localtrans.Base.{
  ℕ, ◌≤◌, inl, inr, List, [], ◌∷◌, Bytes, Bytes-discrete, arith, length, Result-cases,
}
use localtrans.Base.Maps.{length-retain, length-insert}
use localtrans.Json.{Json}
use localtrans.Discovery.{
  DiscoveryPacket, Signatures, ReplayGuard, max_nonces, live_nonces, record_nonce, check_nonce,
  authentic, verify_and_parse, receive_all,
}

pub length-live_nonces : (now_ms : ℕ) (g : ReplayGuard) → length (live_nonces now_ms g) ≤ length g
unfolding live_nonces
length-live_nonces now_ms g = length-retain _ g

length-check_nonce :
    (nonce : Bytes) (ts_ms now_ms : ℕ) (g : ReplayGuard)
    → length g ≤ max_nonces
    → length (check_nonce nonce ts_ms now_ms g).1 ≤ max_nonces
unfolding check_nonce record_nonce
length-check_nonce nonce ts_ms now_ms g small =
    let live = live_nonces now_ms g in
    let again = live_nonces now_ms live in
    ground (
      arith,
      length-live_nonces now_ms g,
      length-live_nonces now_ms live,
      length-insert Bytes-discrete nonce ts_ms live,
      length-insert Bytes-discrete nonce ts_ms again,
    )

module _ (serde : Json DiscoveryPacket) (ed25519 : Signatures) where
  verify_and_parse-length :
      (bytes : Bytes) (now_ms : ℕ) (g : ReplayGuard)
      → length g ≤ max_nonces
      → length (verify_and_parse serde ed25519 bytes now_ms g).1 ≤ max_nonces
  unfolding verify_and_parse
  verify_and_parse-length bytes now_ms g small =
      elim (Result-cases (authentic serde ed25519 bytes now_ms)) [
        | inl (pkt, e) ↦ ground (arith, length-check_nonce pkt.nonce pkt.ts_ms now_ms g small)
        | inr (f, e) ↦ ground arith
      ]

  -- From a guard with at most 4096 entries, whatever packets arrive, the guard never has more.
  pub length-receive_all :
      (arrivals : List (Bytes × ℕ)) (g : ReplayGuard)
      → length g ≤ max_nonces
      → length (receive_all serde ed25519 arrivals g) ≤ max_nonces
  unfolding receive_all
  length-receive_all [] g small = small
  length-receive_all ((bytes, now_ms) ∷ more) g small =
      length-receive_all more (verify_and_parse serde ed25519 bytes now_ms g).1
        (verify_and_parse-length bytes now_ms g small)
