-- ===== src/Tests/Discovery.antt =====
-- Runs of discovery, and its theorems at such data.
use localtrans.Base.{
  ℕ, ◌≤◌, ◌<◌, ◌≡◌, refl, Bool, true, false, ◌&&◌, Option, none, some, [], ◌∷◌, Bytes,
  Bytes-discrete, ℕ_discrete, arith, length, replicate, if◌then◌else◌, ◌==◌, holds, str_eq,
  str_eq→eq, ok, err,
}
use localtrans.Base.Maps.{get}
use localtrans.Json.{Json}
use localtrans.Discovery.{
  DiscoveryPacket, PacketKind, presence, Signatures, verify_and_parse, receive_all, replay,
  encode_and_sign, max_nonces,
}
use localtrans.Discovery.Bounds.{length-receive_all}
use localtrans.Discovery.Replay.{verify_and_parse-replay, verify_and_parse-overwritten}
use localtrans.Discovery.Signed.{verify_and_parse-encode_and_sign}

abbrev packet : ℕ → DiscoveryPacket
packet ts_ms = record {
  v = 1;
  kind = presence;
  name = "n";
  fingerprint = [];
  pubkey = 9 ∷ [];
  quic_port = 4000;
  ts_ms = ts_ms;
  nonce = 1 ∷ [];
}

abbrev is_presence : PacketKind → Bool
is_presence presence = true
is_presence _ = false

-- The packet is one of those above.
abbrev is_plain : DiscoveryPacket → Bool
is_plain p =
    p.v == 1
    && (is_presence p.kind
        && (str_eq p.name "n"
            && (holds (Bytes-discrete p.fingerprint [])
                && (holds (Bytes-discrete p.pubkey (9 ∷ []))
                    && (p.quic_port == 4000 && holds (Bytes-discrete p.nonce (1 ∷ [])))))))

abbrev to_vec : DiscoveryPacket → Option Bytes
to_vec p = if is_plain p then some (p.ts_ms ∷ []) else none

abbrev from_slice : Bytes → Option DiscoveryPacket
from_slice (ts_ms ∷ []) = some (packet ts_ms)
from_slice _ = none

from_slice-to_vec : (p : DiscoveryPacket) (b : Bytes) → to_vec p ≡ some b → from_slice b ≡ some p
from_slice-to_vec p b h = ground (arith, str_eq→eq p.name "n")

abbrev json : Json DiscoveryPacket
json = record { to_vec = to_vec; from_slice = from_slice; from_slice-to_vec = from_slice-to_vec }

abbrev no_signatures : Signatures
no_signatures = record {
  SigningKey = Unit;
  verifying_key = λ _. 9 ∷ [];
  sign = λ _ _. replicate 64 0;
  verify = λ _ _ _. true;
  length-sign = λ _ _. refl;
  verify-sign = λ _ _. refl;
}

abbrev signed : ℕ → Bytes
signed ts_ms = ts_ms ∷ replicate 64 0

length-receive_all_example :
    length (receive_all json no_signatures ((signed 700000, 700000) ∷ (signed 700001, 0) ∷ []) [])
    ≤ max_nonces
length-receive_all_example =
    length-receive_all json no_signatures ((signed 700000, 700000) ∷ (signed 700001, 0) ∷ []) []
      (omega arith)

first_accepted :
    (verify_and_parse json no_signatures (signed 700000) 700000 []).0 ≡ ok (packet 700000)
unfolding verify_and_parse
first_accepted = refl

verify_and_parse-replay_example :
    (verify_and_parse json no_signatures (signed 700000) 1299999 (
      receive_all json no_signatures []
        (verify_and_parse json no_signatures (signed 700000) 700000 []).1)).0
    ≡ err replay
verify_and_parse-replay_example =
    verify_and_parse-replay json no_signatures (signed 700000) 700000 1299999 (packet 700000) [] []
      tt first_accepted tt (omega arith) (omega arith)

second_accepted :
    (verify_and_parse json no_signatures
      (signed 700001)
      700000
      (verify_and_parse json no_signatures (signed 700000) 700000 []).1).0
    ≡ ok (packet 700001)
unfolding verify_and_parse Bytes-discrete ℕ_discrete
second_accepted = refl

guard_has_room :
    length
      (verify_and_parse json no_signatures
        (signed 700001)
        700000
        (verify_and_parse json no_signatures (signed 700000) 700000 []).1).1
    < max_nonces
unfolding verify_and_parse Bytes-discrete ℕ_discrete
guard_has_room = omega arith

verify_and_parse-overwritten_example :
    (verify_and_parse json no_signatures
      (signed 700000)
      700002
      (verify_and_parse json no_signatures
        (signed 700001)
        700000
        (verify_and_parse json no_signatures (signed 700000) 700000 []).1).1).0
    ≡ ok (packet 700000)
verify_and_parse-overwritten_example =
    verify_and_parse-overwritten json no_signatures (signed 700000) (signed 700001) 700000 700000
      700002 (packet 700000) (packet 700001) [] tt first_accepted second_accepted refl
      (λ e. omega (arith, e)) (omega arith) (omega arith) (omega arith) guard_has_room

signs : encode_and_sign json no_signatures (packet 700000) tt ≡ some (signed 700000)
unfolding encode_and_sign Bytes-discrete ℕ_discrete
signs = refl

verify_and_parse-encode_and_sign_example :
    (verify_and_parse json no_signatures (signed 700000) 100000 []).0 ≡ ok (packet 700000)
unfolding get
verify_and_parse-encode_and_sign_example =
    verify_and_parse-encode_and_sign json no_signatures (packet 700000) tt (signed 700000) 100000 []
      signs refl (omega arith) (omega arith) tt refl (omega arith)
