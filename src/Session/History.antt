-- ===== src/Session/History.antt =====
-- crates/localtrans-core/src/session.rs: whatever happens to the sessions of a device, one thing after
-- the other.
pub mod Same
pub mod Others
pub mod Unpaired
pub mod Codes
pub mod Judging
pub mod Drawn
pub mod Quiet
use localtrans.Base.{ℕ, Bool, List, [], ◌∷◌, String, Bytes}
use localtrans.Relay.Proto.{Fingerprint}
use localtrans.Protocol.{ControlMsg}
use localtrans.Session.Pairing.{SessionManager, Clock}
use localtrans.Session.Gate.{
  Handed, submit_pair_code, disconnect, consent_timeout, grant_consent, deny_consent, cancel_wait,
}
use localtrans.Session.Incoming.{handle_incoming, establish_control_flow}
use localtrans.Session.Control.{Flags, on_message, end_loop}

-- A device connects, or is connected to; a message of it comes; the user decides; the time for consent
-- is over; the connection ends.
pub data Action : Type 0 where
  incoming : ℕ → ℕ → Fingerprint → ℕ → String → Action
  outgoing : Fingerprint → ℕ → String → Action
  message : Clock → Fingerprint → ℕ → ControlMsg → Flags → Action
  grant : Clock → Fingerprint → String → String → Handed → Action
  deny cancel : Fingerprint → Handed → Action
  submit : Fingerprint → String → Handed → Action
  hang_up : Fingerprint → Action
  time_out : Fingerprint → ℕ → Action
  loop_ends : Fingerprint → ℕ → Flags → Action

module _ (hash_code : String → Bytes) (fallback_name : Fingerprint → String) where
  unfoldable pub act : Action → SessionManager → SessionManager
  unfolding handle_incoming establish_control_flow on_message grant_consent deny_consent cancel_wait
      submit_pair_code disconnect consent_timeout end_loop
  act (incoming now time fp conn name) sm = (handle_incoming now time fp conn name sm).0
  act (outgoing fp conn name) sm = establish_control_flow fp conn name sm
  act (message clock fp conn msg flags) sm =
      (on_message hash_code fallback_name clock fp conn msg flags sm).sm
  act (grant clock fp code name hand) sm =
      (grant_consent hash_code fallback_name clock fp code name hand sm).1
  act (deny fp hand) sm = (deny_consent fp hand sm).1
  act (cancel fp hand) sm = (cancel_wait fp hand sm).1
  act (submit fp code hand) sm = (submit_pair_code fp code hand sm).1
  act (hang_up fp) sm = (disconnect fp sm).0
  act (time_out fp generation) sm = (consent_timeout fp generation sm).0
  act (loop_ends fp conn flags) sm = (end_loop fp conn flags sm).0

  unfoldable pub act_all : List Action → SessionManager → SessionManager
  unfolding act
  act_all [] sm = sm
  act_all (a ∷ later) sm = act_all later (act a sm)
