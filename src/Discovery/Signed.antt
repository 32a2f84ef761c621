-- ===== src/Discovery/Signed.antt =====
-- crates/localtrans-core/src/discovery.rs: a packet that a device sends is accepted by the others.
use localtrans.Base.{
  ℕ, ◌+◌, ◌-◌, ◌≤◌, ◌<◌, ◌≡◌, refl, subst, ltb, inl, inr, Bool, true, none, some, ◌++◌, Bytes,
  Bytes-discrete, arith, length, take, drop, length-append, take-append, drop-append, Option-cases,
  ok,
}
use localtrans.Base.Maps.{get, Distinct, get-retain, length-retain}
use localtrans.Json.{Json}
use localtrans.Discovery.{
  DiscoveryPacket, Signatures, ReplayGuard, max_nonces, live_nonces, record_nonce, seen,
  check_nonce, authentic, encode_and_sign, verify_and_parse, clock_skew_tolerance_ms, skew,
}

take-append_end :
    (xs ys : Bytes) (n : ℕ) → length ys ≡ n → take (length (xs ++ ys) - n) (xs ++ ys) ≡ xs
take-append_end xs ys n h =
    let at : length (xs ++ ys) - n ≡ length xs = omega (arith, length-append xs ys) in
    rw at (take-append xs ys)

drop-append_end :
    (xs ys : Bytes) (n : ℕ) → length ys ≡ n → drop (length (xs ++ ys) - n) (xs ++ ys) ≡ ys
drop-append_end xs ys n h =
    let at : length (xs ++ ys) - n ≡ length xs = omega (arith, length-append xs ys) in
    rw at (drop-append xs ys)

check_nonce-fresh :
    (nonce : Bytes) (ts_ms now_ms : ℕ) (g : ReplayGuard)
    → Distinct Bytes-discrete g
    → get Bytes-discrete nonce g ≡ none
    → length g < max_nonces
    → (check_nonce nonce ts_ms now_ms g).0 ≡ ok tt
unfolding check_nonce seen record_nonce live_nonces
check_nonce-fresh nonce ts_ms now_ms g distinct new room =
    let p : Bytes → ℕ → Bool = λ _ last_ts. ltb (now_ms - clock_skew_tolerance_ms) last_ts in
    ground (arith, get-retain Bytes-discrete p nonce g distinct, length-retain p g)

module _ (serde : Json DiscoveryPacket) (ed25519 : Signatures) where
  authentic-signed :
      (pkt : DiscoveryPacket) (key : ed25519.SigningKey) (json : Bytes) (now_ms : ℕ)
      → serde.from_slice json ≡ some pkt
      → pkt.pubkey ≡ ed25519.verifying_key key
      → now_ms ≤ pkt.ts_ms + clock_skew_tolerance_ms
      → pkt.ts_ms ≤ now_ms + clock_skew_tolerance_ms
      → authentic serde ed25519 (json ++ ed25519.sign key json) now_ms ≡ ok pkt
  unfolding authentic skew
  authentic-signed pkt key json now_ms parsed own late early =
      let sig = ed25519.sign key json in
      let long = ed25519.length-sign key json in
      let front = take-append_end json sig 64 long in
      let back = drop-append_end json sig 64 long in
      let accepted : ed25519.verify pkt.pubkey json sig ≡ true =
        rw own (ed25519.verify-sign key json) in
      rw (front, parsed, front, back) (ground (arith, accepted, length-append json sig))

  authentic-encode_and_sign :
      (pkt : DiscoveryPacket) (key : ed25519.SigningKey) (bytes : Bytes) (now_ms : ℕ)
      → encode_and_sign serde ed25519 pkt key ≡ some bytes
      → pkt.pubkey ≡ ed25519.verifying_key key
      → now_ms ≤ pkt.ts_ms + clock_skew_tolerance_ms
      → pkt.ts_ms ≤ now_ms + clock_skew_tolerance_ms
      → authentic serde ed25519 bytes now_ms ≡ ok pkt
  unfolding encode_and_sign
  authentic-encode_and_sign pkt key bytes now_ms h own late early =
      elim (Option-cases (serde.to_vec pkt)) [
        | inl e ↦ absurd (ground arith)
        | inr (json, e) ↦
            let read = serde.from_slice-to_vec pkt json e in
            let same : json ++ ed25519.sign key json ≡ bytes = ground arith in
            subst (λ b. authentic serde ed25519 b now_ms ≡ ok pkt) same
              (authentic-signed pkt key json now_ms read own late early)
      ]

  -- What a device signs with the key of its packet is accepted by another whose clock is at most
  -- ten minutes off, whose guard has no nonce twice, has not seen the packet's nonce and has room.
  pub verify_and_parse-encode_and_sign :
      (pkt : DiscoveryPacket) (key : ed25519.SigningKey) (bytes : Bytes) (now_ms : ℕ)
      (g : ReplayGuard)
      → encode_and_sign serde ed25519 pkt key ≡ some bytes
      → pkt.pubkey ≡ ed25519.verifying_key key
      → now_ms ≤ pkt.ts_ms + clock_skew_tolerance_ms
      → pkt.ts_ms ≤ now_ms + clock_skew_tolerance_ms
      → Distinct Bytes-discrete g
      → get Bytes-discrete pkt.nonce g ≡ none
      → length g < max_nonces
      → (verify_and_parse serde ed25519 bytes now_ms g).0 ≡ ok pkt
  unfolding verify_and_parse
  verify_and_parse-encode_and_sign pkt key bytes now_ms g h own late early distinct new room =
      let valid = authentic-encode_and_sign pkt key bytes now_ms h own late early in
      let fresh = check_nonce-fresh pkt.nonce pkt.ts_ms now_ms g distinct new room in
      rw (valid, verify_and_parse) (rw fresh refl)
