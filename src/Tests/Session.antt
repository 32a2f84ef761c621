-- ===== src/Tests/Session.antt =====
-- Runs of the control stream and of pairing, and their theorems at such data.
use localtrans.Base.{
  ◌≡◌, refl, ap, str_eq, true, false, Option, none, some, List, [], ◌∷◌, String, Bytes,
  Bytes-discrete, ℕ_discrete, arith, length, concat, if◌then◌else◌, leb, holds, is_some, ok, err,
  ◌+◌, All, ◌≢◌,
}
use localtrans.Json.{Json}
use localtrans.Protocol.{
  ControlMsg, pair_code_submit, pair_result, goodbye, consent_deny, encode_control, decode_control,
  message_too_large, frame,
}
use localtrans.Protocol.Frames.{decode_control-encode_control}
use localtrans.Transfer.Manifest.{chunk_size}
use localtrans.Relay.Proto.{Fingerprint}
use localtrans.Identity.{TrustedPeer, default_perms, denied, with_perms, get, is_trusted}
use localtrans.Identity.Trust.{TrustOp, put, drop, perms_of, run_all, run_all-view_all}
use localtrans.Session.Pairing.{
  PairingMachine, Session, SessionManager, Clock, awaiting_consent, granted, session_of,
  verify_code, check_cooldown,
}
use localtrans.Session.Stream.{on_read, on_reads, send_all}
use localtrans.Session.Stream.Pieces.{on_reads-concat}
use localtrans.Session.Stream.Messages.{Fits, on_reads-send_all}
use localtrans.Session.Gate.{handed}
use localtrans.Session.History.{Action, incoming, message, grant, act, act_all}
use localtrans.Session.History.Unpaired.{Unagreed, code_of}
use localtrans.Session.History.Drawn.{Agreement, act_all-trusts}
use localtrans.Session.History.Quiet.{act_all-untrusted}
use localtrans.Session.Control.{Flags, on_message, on_messages}
use localtrans.Session.Control.Trusting.{on_message-pair_result}
use localtrans.Session.Control.Guesses.{Judging, on_messages-three_wrong}

-- A serializer that knows two messages.
abbrev to_vec : ControlMsg → Option Bytes
to_vec goodbye = some (7 ∷ [])
to_vec consent_deny = some (8 ∷ 8 ∷ [])
to_vec _ = none

abbrev from_slice : Bytes → Option ControlMsg
from_slice bytes =
    if holds (Bytes-discrete bytes (7 ∷ []))
    then some goodbye
    else if holds (Bytes-discrete bytes (8 ∷ 8 ∷ []))
    then some consent_deny
    else none

from_slice-to_vec : (m : ControlMsg) (b : Bytes) → to_vec m ≡ some b → from_slice b ≡ some m
from_slice-to_vec m b h = ground arith

abbrev json : Json ControlMsg
json = record { to_vec = to_vec; from_slice = from_slice; from_slice-to_vec = from_slice-to_vec }

abbrev goodbye_frame : Bytes
goodbye_frame = 0 ∷ 0 ∷ 0 ∷ 1 ∷ 7 ∷ []

goodbye_encodes : encode_control json goodbye ≡ some goodbye_frame
unfolding encode_control frame
goodbye_encodes = refl

decode_control-encode_control_example :
    decode_control json goodbye_frame
    ≡ (if leb 5 (chunk_size + 4) then ok goodbye else err (message_too_large 1 1))
decode_control-encode_control_example =
    decode_control-encode_control json goodbye goodbye_frame goodbye_encodes (omega arith)

abbrev pieces : List Bytes
pieces = (0 ∷ 0 ∷ 0 ∷ []) ∷ (1 ∷ 7 ∷ 0 ∷ 0 ∷ []) ∷ (0 ∷ 2 ∷ 8 ∷ []) ∷ (8 ∷ []) ∷ []

on_reads-concat_example : on_reads json [] pieces ≡ on_read json [] (concat pieces)
on_reads-concat_example = on_reads-concat json pieces

goodbye-Fits : Fits json goodbye
unfolding Fits encode_control frame
goodbye-Fits bytes h = ground (arith, ap length {x = goodbye_frame} {y = bytes})

deny-Fits : Fits json consent_deny
unfolding Fits encode_control frame
deny-Fits bytes h = ground (arith, ap length {x = 0 ∷ 0 ∷ 0 ∷ 2 ∷ 8 ∷ 8 ∷ []} {y = bytes})

two_sent : send_all json (goodbye ∷ consent_deny ∷ []) ≡ some (concat pieces)
unfolding send_all encode_control frame
two_sent = refl

on_reads-send_all_example : on_reads json [] pieces ≡ (goodbye ∷ consent_deny ∷ [], some [])
on_reads-send_all_example =
    on_reads-send_all json (goodbye ∷ consent_deny ∷ []) (concat pieces) pieces
      (goodbye-Fits, (deny-Fits, tt)) two_sent refl

abbrev peer : Fingerprint
peer = 1 ∷ 2 ∷ []

abbrev other_peer : Fingerprint
other_peer = 3 ∷ []

abbrev hash_code : String → Bytes
hash_code code = if str_eq code "right" then 1 ∷ [] else 0 ∷ []

abbrev fallback_name : Fingerprint → String
fallback_name fp = "device"

abbrev noon : Clock
noon = record { instant = 1000; unix = 99 }

abbrev flags : Flags
flags = record { failed = false; terminal_result_sent = false }

abbrev waiting : Session
waiting = record {
  conn_id = 5;
  pairing = none;
  peer_name = some "laptop";
  consent = awaiting_consent 2000 none;
  generation = 0;
}

abbrev machine : PairingMachine
machine = record { code_hash = 1 ∷ []; submitted_ok = false; fails = 0 }

abbrev consented : Session
consented = record waiting { pairing = some machine; consent = granted none }

abbrev manager : Session → SessionManager
manager s = record {
  sessions = (peer, s) ∷ [];
  trust = [];
  cooldown = [];
  generation_counter = 1;
  pending_rpcs = [];
}

on_message-pair_result_example :
    is_trusted peer
      (on_message hash_code fallback_name noon peer 5
        (pair_result true)
        flags
        (manager waiting)).sm.trust
    ≡ true
on_message-pair_result_example =
    on_message-pair_result hash_code fallback_name noon peer 5 flags (manager waiting)

nobody_trusted : is_trusted peer [] ≡ false
unfolding is_trusted
nobody_trusted = refl

consented-Judging : Judging hash_code fallback_name peer (1 ∷ []) 0 (manager consented)
unfolding Judging session_of Bytes-discrete ℕ_discrete
consented-Judging = (consented, none, machine, refl, refl, refl, refl, refl)

wrong_is_wrong : verify_code hash_code "wrong" (1 ∷ []) ≡ false
unfolding verify_code Bytes-discrete ℕ_discrete
wrong_is_wrong = refl

on_messages-three_wrong_example :
    let end = on_messages hash_code fallback_name peer 5 flags (manager consented) (
      (noon, pair_code_submit "wrong")
      ∷ (noon, pair_code_submit "wrong")
      ∷ (noon, pair_code_submit "wrong")
      ∷ []) in
    (end.goes_on ≡ false)
    × (end.sm.trust ≡ [])
    × (is_some (check_cooldown 300999 peer end.sm).1 ≡ true)
on_messages-three_wrong_example =
    on_messages-three_wrong hash_code fallback_name noon noon noon 300999 peer 5 "wrong" "wrong"
      "wrong" (1 ∷ []) flags (manager consented) [] consented-Judging wrong_is_wrong wrong_is_wrong
      wrong_is_wrong (omega arith)

abbrev laptop : TrustedPeer
laptop = record {
  fingerprint = peer;
  name = "laptop";
  alias = "";
  paired_at = 99;
  perms = default_perms;
}

abbrev trust_ops : List TrustOp
trust_ops = put laptop ∷ perms_of peer denied ∷ drop other_peer ∷ []

run_all-view_all_example :
    (get peer (run_all trust_ops []) ≡ some (record laptop { perms = denied }))
    × (is_trusted peer (run_all trust_ops []) ≡ true)
unfolding Bytes-discrete ℕ_discrete with_perms
run_all-view_all_example = run_all-view_all trust_ops [] peer tt

abbrev nobody : SessionManager
nobody = record {
  sessions = [];
  trust = [];
  cooldown = [];
  generation_counter = 0;
  pending_rpcs = [];
}

-- A device connects and sends a code; consent is given to another one, which becomes trusted.
abbrev afternoon : List Action
afternoon =
    incoming 100 60000 peer 5 "laptop"
    ∷ message noon peer 5 (pair_code_submit "right") flags
    ∷ incoming 200 60000 other_peer 6 "phone"
    ∷ grant noon other_peer "right" "desk" handed
    ∷ message noon other_peer 6 (pair_code_submit "right") flags
    ∷ message noon peer 5 (pair_code_submit "right") flags
    ∷ []

apart : other_peer ≢ peer
apart e = ground (arith, ap length e)

afternoon-Unagreed : All (Unagreed peer) afternoon
afternoon-Unagreed = (tt, (tt, (tt, (apart, (tt, (tt, tt))))))

other_trusted :
    is_trusted other_peer (act_all hash_code fallback_name afternoon nobody).trust ≡ true
unfolding act_all act is_trusted Bytes-discrete ℕ_discrete
other_trusted = refl

no_code : code_of peer nobody ≡ none
unfolding code_of session_of
no_code = refl

act_all-untrusted_example :
    is_trusted peer (act_all hash_code fallback_name afternoon nobody).trust ≡ false
act_all-untrusted_example =
    act_all-untrusted hash_code fallback_name peer afternoon nobody afternoon-Unagreed
      nobody_trusted no_code

no_session : session_of other_peer nobody ≡ none
unfolding session_of
no_session = refl

stranger : is_trusted other_peer [] ≡ false
unfolding is_trusted
stranger = refl

act_all-trusts_example : Agreement hash_code fallback_name other_peer afternoon
act_all-trusts_example =
    act_all-trusts hash_code fallback_name other_peer afternoon nobody no_session stranger
      other_trusted
