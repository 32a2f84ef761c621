-- ===== src/Discovery/Replay.antt =====
-- crates/localtrans-core/src/discovery.rs: a packet that was accepted is refused the next time.
use localtrans.Base.{
  ℕ, ◌+◌, ◌-◌, ◌≤◌, ◌<◌, ◌≡◌, ◌≢◌, refl, subst, inl, inr, Bool, some, List, [], ◌∷◌, Bytes,
  Bytes-discrete, arith, length, ltb, ok, err, Result-cases, Option-cases, All, take,
}
use localtrans.Base.Maps.{
  get, retain, Distinct, get-retain, retain-Distinct, insert-Distinct, get-insert,
}
use localtrans.Json.{Json}
use localtrans.Discovery.Bounds.{length-live_nonces}
use localtrans.Discovery.{
  DiscoveryPacket, Signatures, ReplayGuard, max_nonces, live_nonces, record_nonce, seen,
  check_nonce, authentic, verify_and_parse, receive_all, replay, clock_skew_tolerance_ms, skew,
}

-- A nonce is known with its time stamp, and no nonce stands twice.
Known : Bytes → ℕ → ReplayGuard → Type 0
Known n t g = (get Bytes-discrete n g ≡ some t) × Distinct Bytes-discrete g

get-live_nonces :
    (n : Bytes) (t now_ms : ℕ) (g : ReplayGuard)
    → Known n t g
    → now_ms - clock_skew_tolerance_ms < t
    → Known n t (live_nonces now_ms g)
unfolding Known live_nonces
get-live_nonces n t now_ms g (known, distinct) soon =
    let p : Bytes → ℕ → Bool = λ _ last_ts. ltb (now_ms - clock_skew_tolerance_ms) last_ts in
    (
      ground (arith, get-retain Bytes-discrete p n g distinct),
      retain-Distinct Bytes-discrete p g distinct,
    )

check_nonce-Known :
    (n nonce : Bytes) (t ts_ms now_ms : ℕ) (g : ReplayGuard)
    → Known n t g
    → now_ms - clock_skew_tolerance_ms < t
    → (nonce ≡ n → ts_ms ≡ t)
    → Known n t (check_nonce nonce ts_ms now_ms g).1
unfolding check_nonce record_nonce Known
check_nonce-Known n nonce t ts_ms now_ms g known soon same =
    let live = live_nonces now_ms g in
    let again = live_nonces now_ms live in
    let k1 = get-live_nonces n t now_ms g known soon in
    let k2 = get-live_nonces n t now_ms live k1 soon in
    ground (
      arith,
      same,
      k1,
      k2,
      get-insert Bytes-discrete nonce n ts_ms live,
      get-insert Bytes-discrete nonce n ts_ms again,
      insert-Distinct Bytes-discrete nonce ts_ms live k1.1,
      insert-Distinct Bytes-discrete nonce ts_ms again k2.1,
    )

check_nonce-accepted :
    (n : Bytes) (t now_ms : ℕ) (g : ReplayGuard)
    → Distinct Bytes-discrete g
    → (check_nonce n t now_ms g).0 ≡ ok tt
    → Known n t (check_nonce n t now_ms g).1
unfolding check_nonce record_nonce Known live_nonces
check_nonce-accepted n t now_ms g distinct accepted =
    let p : Bytes → ℕ → Bool = λ _ last_ts. ltb (now_ms - clock_skew_tolerance_ms) last_ts in
    let live = retain p g in
    let d1 = retain-Distinct Bytes-discrete p g distinct in
    let d2 = retain-Distinct Bytes-discrete p live d1 in
    ground (
      arith,
      get-insert Bytes-discrete n n t live,
      get-insert Bytes-discrete n n t (retain p live),
      insert-Distinct Bytes-discrete n t live d1,
      insert-Distinct Bytes-discrete n t (retain p live) d2,
    )

check_nonce-replay :
    (n : Bytes) (t now_ms : ℕ) (g : ReplayGuard)
    → Known n t g
    → now_ms - clock_skew_tolerance_ms < t
    → (check_nonce n t now_ms g).0 ≡ err replay
unfolding check_nonce seen Known
check_nonce-replay n t now_ms g known soon = ground (arith, get-live_nonces n t now_ms g known soon)

check_nonce-other :
    (n : Bytes) (t ts_ms now_ms : ℕ) (g : ReplayGuard)
    → Known n t g
    → now_ms - clock_skew_tolerance_ms < t
    → t ≢ ts_ms
    → length g < max_nonces
    → (check_nonce n ts_ms now_ms g).0 ≡ ok tt
unfolding check_nonce seen record_nonce Known
check_nonce-other n t ts_ms now_ms g known soon other room =
    ground (arith, get-live_nonces n t now_ms g known soon, length-live_nonces now_ms g)

module _ (serde : Json DiscoveryPacket) (ed25519 : Signatures) where
  -- The bytes hold no other time stamp for the nonce, and come inside the window of the time stamp.
  unfoldable pub Harmless : Bytes → ℕ → Bytes × ℕ → Type 0
  Harmless n t (bytes, now_ms) =
      (now_ms - clock_skew_tolerance_ms < t)
      × ((p : DiscoveryPacket)
          → authentic serde ed25519 bytes now_ms ≡ ok p
          → p.nonce ≡ n
          → p.ts_ms ≡ t)

  receive_all-Known :
      (n : Bytes) (t : ℕ) (arrivals : List (Bytes × ℕ)) (g : ReplayGuard)
      → All (Harmless n t) arrivals
      → Known n t g
      → Known n t (receive_all serde ed25519 arrivals g)
  unfolding receive_all Harmless verify_and_parse
  receive_all-Known n t [] g harmless known = known
  receive_all-Known n t ((bytes, now_ms) ∷ more) g harmless known =
      let next = (verify_and_parse serde ed25519 bytes now_ms g).1 in
      receive_all-Known n t more next harmless.1
        (elim (Result-cases (authentic serde ed25519 bytes now_ms)) [
          | inl (p, e) ↦
              let kept =
                check_nonce-Known n p.nonce t p.ts_ms now_ms g known harmless.0.0
                  (harmless.0.1 p e) in
              rw (e, verify_and_parse) kept
          | inr (f, e) ↦ rw (e, verify_and_parse) known
        ])

  authentic-later :
      (bytes : Bytes) (now1 now2 : ℕ) (pkt : DiscoveryPacket)
      → authentic serde ed25519 bytes now1 ≡ ok pkt
      → now2 - clock_skew_tolerance_ms < pkt.ts_ms
      → pkt.ts_ms ≤ now2 + clock_skew_tolerance_ms
      → authentic serde ed25519 bytes now2 ≡ ok pkt
  unfolding authentic skew
  authentic-later bytes now1 now2 pkt first soon early =
      let json_bytes = take (length bytes - 64) bytes in
      elim (Option-cases (serde.from_slice json_bytes)) [
        | inl e ↦ ground (arith, first)
        | inr (p, e) ↦ ground (arith, first)
      ]

  accepted-checked :
      (bytes : Bytes) (now_ms : ℕ) (pkt p : DiscoveryPacket) (g : ReplayGuard)
      → Distinct Bytes-discrete g
      → authentic serde ed25519 bytes now_ms ≡ ok p
      → (verify_and_parse serde ed25519 bytes now_ms g).0 ≡ ok pkt
      → (authentic serde ed25519 bytes now_ms ≡ ok pkt)
        × Known pkt.nonce pkt.ts_ms (verify_and_parse serde ed25519 bytes now_ms g).1
  unfolding verify_and_parse
  accepted-checked bytes now_ms pkt p g distinct e h =
      elim (Result-cases (check_nonce p.nonce p.ts_ms now_ms g).0) [
        | inl (tt, c) ↦
            let same : p ≡ pkt = ground arith in
            subst
              (λ q.
                (authentic serde ed25519 bytes now_ms ≡ ok q)
                × Known q.nonce q.ts_ms (verify_and_parse serde ed25519 bytes now_ms g).1)
              same
              (
                e,
                rw (e, verify_and_parse) (check_nonce-accepted p.nonce p.ts_ms now_ms g distinct c),
              )
        | inr (f, c) ↦ absurd (ground arith)
      ]

  accepted-Known :
      (bytes : Bytes) (now_ms : ℕ) (pkt : DiscoveryPacket) (g : ReplayGuard)
      → Distinct Bytes-discrete g
      → (verify_and_parse serde ed25519 bytes now_ms g).0 ≡ ok pkt
      → (authentic serde ed25519 bytes now_ms ≡ ok pkt)
        × Known pkt.nonce pkt.ts_ms (verify_and_parse serde ed25519 bytes now_ms g).1
  unfolding verify_and_parse
  accepted-Known bytes now_ms pkt g distinct h =
      elim (Result-cases (authentic serde ed25519 bytes now_ms)) [
        | inl (p, e) ↦ accepted-checked bytes now_ms pkt p g distinct e h
        | inr (f, e) ↦ absurd (ground arith)
      ]

  refused-again :
      (bytes : Bytes) (now_ms : ℕ) (pkt : DiscoveryPacket) (g : ReplayGuard)
      → authentic serde ed25519 bytes now_ms ≡ ok pkt
      → now_ms - clock_skew_tolerance_ms < pkt.ts_ms
      → Known pkt.nonce pkt.ts_ms g
      → (verify_and_parse serde ed25519 bytes now_ms g).0 ≡ err replay
  unfolding verify_and_parse
  refused-again bytes now_ms pkt g e soon known =
      let refused = check_nonce-replay pkt.nonce pkt.ts_ms now_ms g known soon in
      rw (e, verify_and_parse) (rw refused refl)

  -- A packet that was accepted is refused as a replay when it arrives again less than ten minutes
  -- after its time stamp and at most ten minutes before it, if the guard had no nonce twice and the
  -- packets that arrive in between come less than ten minutes after that time stamp and have, where
  -- they are valid, no other time stamp for its nonce.
  pub verify_and_parse-replay :
      (bytes : Bytes) (now1 now2 : ℕ) (pkt : DiscoveryPacket) (arrivals : List (Bytes × ℕ))
      (g : ReplayGuard)
      → Distinct Bytes-discrete g
      → (verify_and_parse serde ed25519 bytes now1 g).0 ≡ ok pkt
      → All (Harmless pkt.nonce pkt.ts_ms) arrivals
      → now2 - clock_skew_tolerance_ms < pkt.ts_ms
      → pkt.ts_ms ≤ now2 + clock_skew_tolerance_ms
      → (verify_and_parse serde ed25519 bytes now2
          (receive_all serde ed25519 arrivals (verify_and_parse serde ed25519 bytes now1 g).1)).0
        ≡ err replay
  unfolding verify_and_parse
  verify_and_parse-replay bytes now1 now2 pkt arrivals g distinct first harmless soon early =
      let was = accepted-Known bytes now1 pkt g distinct first in
      let after = (verify_and_parse serde ed25519 bytes now1 g).1 in
      refused-again bytes now2 pkt (receive_all serde ed25519 arrivals after)
        (authentic-later bytes now1 now2 pkt was.0 soon early) soon
        (receive_all-Known pkt.nonce pkt.ts_ms arrivals after harmless was.1)

  -- After a packet was accepted, and one with the same nonce and another time stamp after it, the
  -- first is accepted again less than ten minutes after both time stamps and at most ten minutes
  -- before its own, if the guard had no nonce twice and has room.
  pub verify_and_parse-overwritten :
      (bytes bytes2 : Bytes) (now1 now2 now3 : ℕ) (pkt other : DiscoveryPacket) (g : ReplayGuard)
      → Distinct Bytes-discrete g
      → (verify_and_parse serde ed25519 bytes now1 g).0 ≡ ok pkt
      → (verify_and_parse serde ed25519 bytes2 now2
          (verify_and_parse serde ed25519 bytes now1 g).1).0
        ≡ ok other
      → other.nonce ≡ pkt.nonce
      → other.ts_ms ≢ pkt.ts_ms
      → now3 - clock_skew_tolerance_ms < pkt.ts_ms
      → pkt.ts_ms ≤ now3 + clock_skew_tolerance_ms
      → now3 - clock_skew_tolerance_ms < other.ts_ms
      → let after =
          verify_and_parse serde ed25519 bytes2 now2
            (verify_and_parse serde ed25519 bytes now1 g).1 in
        length after.1 < max_nonces → (verify_and_parse serde ed25519 bytes now3 after.1).0 ≡ ok pkt
  unfolding verify_and_parse Known
  verify_and_parse-overwritten bytes bytes2 now1 now2 now3 pkt other g distinct first second
        same_nonce other_time soon early soon2 room =
      let g1 = (verify_and_parse serde ed25519 bytes now1 g).1 in
      let g2 = (verify_and_parse serde ed25519 bytes2 now2 g1).1 in
      let was = accepted-Known bytes now1 pkt g distinct first in
      let now_known = accepted-Known bytes2 now2 other g1 was.1.1 second in
      let again = authentic-later bytes now1 now3 pkt was.0 soon early in
      let known : Known pkt.nonce other.ts_ms g2 = rw same_nonce at now_known.1 in
      let fresh =
        check_nonce-other pkt.nonce other.ts_ms pkt.ts_ms now3 g2 known soon2 other_time room in
      rw (again, verify_and_parse) (rw fresh refl)
