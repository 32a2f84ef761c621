-- ===== src/Session/Pairing.antt =====
-- crates/localtrans-core/src/pairing.rs and the pairing of two devices in session.rs: the gate of
-- consent, the judging of codes, and what a completed pairing writes. The SHA-256 of a code and the
-- name that is made of a fingerprint are parameters; a message that is handed to the task of the
-- control stream is an effect, and whether the task took it is an argument.
use localtrans.Base.{
  ℕ, ◌+◌, ◌-◌, ◌/◌, ◌%◌, Bool, true, false, Option, none, some, String, Bytes, Bytes-discrete,
  if◌then◌else◌, ltb, leb, holds,
}
use localtrans.Base.Maps.{Map, get, insert, remove, retain}
use localtrans.Relay.Proto.{Fingerprint}
use localtrans.Protocol.{ControlMsg}
use localtrans.Identity.{TrustStore}

-- In milliseconds; `COOLDOWN_SECS` is 300.
abbrev pub cooldown_time : ℕ
cooldown_time = 300000

pub record PairingMachine : Type 0 where
  pub code_hash : Bytes
  pub submitted_ok : Bool
  pub fails : ℕ

unfoldable pub new : Bytes → PairingMachine
new code_hash = record { code_hash = code_hash; submitted_ok = false; fails = 0 }

unfoldable pub verify_code : (String → Bytes) → String → Bytes → Bool
verify_code hash_code code hash = holds (Bytes-discrete (hash_code code) hash)

-- The machine after a code, and whether the code was right.
unfoldable pub submit_remote : (String → Bytes) → String → PairingMachine → PairingMachine × Bool
unfolding verify_code
submit_remote hash_code code pm =
    if verify_code hash_code code pm.code_hash
    then (record pm { submitted_ok = true }, true)
    else (record pm { fails = (pm.fails + 1) % 256 }, false)

unfoldable pub failed_out : PairingMachine → Bool
failed_out pm = leb 3 pm.fails

pub data PairOutcome : Type 0 where
  mismatch fails_out matched not_pairing : PairOutcome

pub data ConsentState : Type 0 where
  awaiting_consent : ℕ → Option String → ConsentState
  granted : Option String → ConsentState
  initiator : ConsentState

pub record Session : Type 0 where
  pub conn_id : ℕ
  pub pairing : Option PairingMachine
  pub peer_name : Option String
  pub consent : ConsentState
  pub generation : ℕ

pub data SessionEvent : Type 0 where
  pairing_consent_needed pairing_code_shown pairing_wait_consent pairing_code_entry :
      Fingerprint → String → SessionEvent
  pairing_result : Fingerprint → Bool → Option String → SessionEvent
  session_up : Fingerprint → String → ℕ → SessionEvent
  session_down : Fingerprint → SessionEvent
  trust_lost : Fingerprint → Option String → SessionEvent

-- `SessionError` as far as pairing returns it, with its texts.
pub data SessionError : Type 0 where
  pairing_error : String → SessionError
  cooldown_error : ℕ → SessionError

-- `trust` is in the session context of the source. A request that waits is the number of the channel
-- on which its caller waits.
pub record SessionManager : Type 0 where
  pub sessions : Map Fingerprint Session
  pub trust : TrustStore
  pub cooldown : Map Fingerprint ℕ
  pub generation_counter : ℕ
  pub pending_rpcs : Map ℕ ℕ

-- What is done besides changing the manager: a message for the task of a control stream, a message on
-- this stream, an event for the shell, the end of a connection, a message for one of the three
-- channels of the manager, an answer for a caller. Any of these can be lost if nobody listens.
pub data Effect : Type 0 where
  queue : Fingerprint → ControlMsg → Effect
  send : ControlMsg → Effect
  emit : SessionEvent → Effect
  close : ℕ → String → Effect
  inbound signal notify : Fingerprint → ControlMsg → Effect
  respond : ℕ → Fingerprint → ControlMsg → Effect

-- The monotonic clock in milliseconds and the seconds since 1970.
pub record Clock : Type 0 where
  pub instant : ℕ
  pub unix : ℕ

unfoldable pub session_of : Fingerprint → SessionManager → Option Session
unfolding get
session_of fp sm = get Bytes-discrete fp sm.sessions

unfoldable pub put_session : Fingerprint → Session → SessionManager → SessionManager
unfolding insert
put_session fp s sm = record sm { sessions = insert Bytes-discrete fp s sm.sessions }

unfoldable pub drop_session : Fingerprint → SessionManager → SessionManager
unfolding remove
drop_session fp sm = record sm { sessions = remove Bytes-discrete fp sm.sessions }

unfoldable pub unwrap_or : Option String → String → String
unwrap_or none d = d
unwrap_or (some s) d = s

-- `record_cooldown`
unfoldable pub record_cooldown : ℕ → Fingerprint → SessionManager → SessionManager
unfolding retain insert
record_cooldown now fp sm =
    let live = retain (λ _ e. ltb now e) sm.cooldown in
    record sm { cooldown = insert Bytes-discrete fp (now + cooldown_time) live }

-- The check of the cooldown for a device that connects: the manager and the seconds left.
unfoldable pub check_cooldown : ℕ → Fingerprint → SessionManager → SessionManager × Option ℕ
unfolding retain get
check_cooldown now fp sm =
    let live = retain (λ _ e. ltb now e) sm.cooldown in
    let rest : Option ℕ = elim (get Bytes-discrete fp live) [
      | none ↦ none
      | some expires ↦ if ltb now expires then some ((expires - now) / 1000) else none
    ] in
    (record sm { cooldown = live }, rest)
