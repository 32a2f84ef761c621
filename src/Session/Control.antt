-- ===== src/Session/Control.antt =====
-- crates/localtrans-core/src/session.rs: what `ctrl_loop` does with one message of the peer, and the
-- end of the loop.
pub mod Trusting
pub mod Guesses
use localtrans.Base.{
  ℕ, Bool, true, false, not, ◌&&◌, Option, none, some, List, [], ◌∷◌, ◌++◌, String, Bytes,
  if◌then◌else◌, ◌==◌,
}
use localtrans.Relay.Proto.{Fingerprint}
use localtrans.Protocol.{
  ControlMsg, hello, pair_code_submit, pair_result, consent_grant, consent_deny, consent_cancel,
  list_req, list_resp, shares_req, shares_resp, shares_changed, meta_req, meta_resp, fetch_req,
  offer_req, offer_resp, bitmap_req, bitmap_resp, transfer_ctl, job_done, recv_ack, recv_progress,
  job_failed, share_rename, share_delete, share_mkdir, share_op_result, goodbye, trust_broken, ping,
  pong, probe_req, probe_resp,
}
use localtrans.Identity as Identity
use localtrans.Session.Pairing.{
  PairOutcome, mismatch, fails_out, matched, not_pairing, ConsentState, initiator, Session,
  SessionEvent, pairing_code_entry, pairing_result, session_down, trust_lost, SessionManager,
  Effect, send, emit, close, inbound, signal, notify, Clock, session_of, drop_session,
  record_cooldown,
}
use localtrans.Session.Gate.{code_submitted, complete_pairing}
use localtrans.Session.Rpc.{deliver}

-- The loop's own variables.
pub record Flags : Type 0 where
  pub failed : Bool
  pub terminal_result_sent : Bool

-- What a message leads to: the variables, whether the loop goes on, the manager, the effects.
pub record Step : Type 0 where
  pub flags : Flags
  pub goes_on : Bool
  pub sm : SessionManager
  pub effects : List Effect

unfoldable pub go_on : Flags → SessionManager → List Effect → Step
go_on flags sm effects = record { flags = flags; goes_on = true; sm = sm; effects = effects }

unfoldable pub stop : Flags → SessionManager → List Effect → Step
stop flags sm effects = record { flags = flags; goes_on = false; sm = sm; effects = effects }

unfoldable pub with_result : Flags → Flags
with_result f = record f { terminal_result_sent = true }

-- `peer_name` of the session of the peer.
unfoldable pub name_of : Fingerprint → SessionManager → Option String
unfolding session_of
name_of fp sm = elim (session_of fp sm) [ none ↦ none | some s ↦ s.peer_name ]

-- The peer no longer trusts this device.
unfoldable pub on_trust_broken : Fingerprint → Flags → SessionManager → Step
unfolding stop name_of Identity.remove
on_trust_broken fp flags sm =
    let next = record sm { trust = (Identity.remove fp sm.trust).0 } in
    stop flags next (emit (trust_lost fp (name_of fp next)) ∷ [])

module _ (hash_code : String → Bytes) (fallback_name : Fingerprint → String) where
  unfoldable pub on_outcome : Clock → Fingerprint → ℕ → Flags → SessionManager × PairOutcome → Step
  unfolding go_on stop with_result complete_pairing record_cooldown
  on_outcome clock fp conn flags (sm, matched) =
      let done = complete_pairing hash_code fallback_name clock fp conn sm in
      go_on (with_result flags) done.0 (send (pair_result true) ∷ done.1)
  on_outcome clock fp conn flags (sm, fails_out) =
      stop (record { failed = true; terminal_result_sent = true })
        (record_cooldown clock.instant fp sm)
        (send (pair_result false) ∷ emit (pairing_result fp false (some "配对码错误超过 3 次")) ∷ [])
  on_outcome clock fp conn flags (sm, mismatch) = go_on flags sm (send (pair_result false) ∷ [])
  on_outcome clock fp conn flags (sm, not_pairing) = go_on flags sm []

  unfoldable pub on_pair_result : Clock → Fingerprint → ℕ → Bool → Flags → SessionManager → Step
  unfolding go_on with_result complete_pairing
  on_pair_result clock fp conn true flags sm =
      let done = complete_pairing hash_code fallback_name clock fp conn sm in
      go_on (with_result flags) done.0 done.1
  on_pair_result clock fp conn false flags sm =
      go_on (with_result flags) sm (emit (pairing_result fp false (some "配对码不匹配")) ∷ [])

  -- A request or a report of the peer, for the router.
  unfoldable pub on_inbound : Fingerprint → ControlMsg → Flags → SessionManager → Step
  unfolding go_on
  on_inbound fp msg flags sm = go_on flags sm (inbound fp msg ∷ [])

  unfoldable pub on_signal : Fingerprint → ControlMsg → Flags → SessionManager → Step
  unfolding go_on
  on_signal fp msg flags sm = go_on flags sm (signal fp msg ∷ [])

  unfoldable pub on_answer : Fingerprint → ControlMsg → Flags → SessionManager → Step
  unfolding go_on deliver
  on_answer fp msg flags sm = let done = deliver fp msg sm in go_on flags done.0 done.1

  unfoldable pub on_message : Clock → Fingerprint → ℕ → ControlMsg → Flags → SessionManager → Step
  unfolding go_on stop with_result on_outcome on_pair_result on_inbound on_signal on_answer
      on_trust_broken code_submitted
  on_message clock fp conn (hello _ _) flags sm = go_on flags sm []
  on_message clock fp conn (pair_code_submit code) flags sm =
      on_outcome clock fp conn flags (code_submitted hash_code fallback_name fp code sm)
  on_message clock fp conn (pair_result ok) flags sm = on_pair_result clock fp conn ok flags sm
  on_message clock fp conn (consent_grant name) flags sm =
      go_on flags sm (emit (pairing_code_entry fp name) ∷ [])
  on_message clock fp conn consent_deny flags sm =
      stop (with_result flags) sm (emit (pairing_result fp false (some "对方拒绝连接")) ∷ [])
  on_message clock fp conn consent_cancel flags sm =
      stop (with_result flags) sm (emit (pairing_result fp false (some "对方已结束等待")) ∷ [])
  on_message clock fp conn (list_req a b c d) flags sm = on_inbound fp (list_req a b c d) flags sm
  on_message clock fp conn (shares_req a) flags sm = on_inbound fp (shares_req a) flags sm
  on_message clock fp conn (meta_req a b c) flags sm = on_inbound fp (meta_req a b c) flags sm
  on_message clock fp conn (fetch_req a b) flags sm = on_inbound fp (fetch_req a b) flags sm
  on_message clock fp conn (offer_req a b) flags sm = on_inbound fp (offer_req a b) flags sm
  on_message clock fp conn (bitmap_req a) flags sm = on_inbound fp (bitmap_req a) flags sm
  on_message clock fp conn (transfer_ctl a b) flags sm = on_inbound fp (transfer_ctl a b) flags sm
  on_message clock fp conn (recv_progress a b) flags sm = on_inbound fp (recv_progress a b) flags sm
  on_message clock fp conn (recv_ack a) flags sm = on_inbound fp (recv_ack a) flags sm
  on_message clock fp conn (share_rename a b c d) flags sm =
      on_inbound fp (share_rename a b c d) flags sm
  on_message clock fp conn (share_delete a b c) flags sm =
      on_inbound fp (share_delete a b c) flags sm
  on_message clock fp conn (share_mkdir a b c) flags sm = on_inbound fp (share_mkdir a b c) flags sm
  on_message clock fp conn (list_resp a b c) flags sm = on_answer fp (list_resp a b c) flags sm
  on_message clock fp conn (shares_resp a b) flags sm = on_answer fp (shares_resp a b) flags sm
  on_message clock fp conn (meta_resp a b c d e f) flags sm =
      on_answer fp (meta_resp a b c d e f) flags sm
  on_message clock fp conn (share_op_result a b c) flags sm =
      on_answer fp (share_op_result a b c) flags sm
  on_message clock fp conn (offer_resp a b c d) flags sm =
      on_signal fp (offer_resp a b c d) flags sm
  on_message clock fp conn (bitmap_resp a b) flags sm = on_signal fp (bitmap_resp a b) flags sm
  on_message clock fp conn (job_done a b) flags sm = on_signal fp (job_done a b) flags sm
  on_message clock fp conn (job_failed a b) flags sm = on_signal fp (job_failed a b) flags sm
  on_message clock fp conn (shares_changed a) flags sm =
      go_on flags sm (notify fp (shares_changed a) ∷ [])
  on_message clock fp conn goodbye flags sm = stop flags sm []
  on_message clock fp conn trust_broken flags sm = on_trust_broken fp flags sm
  on_message clock fp conn (ping _) flags sm = go_on flags sm []
  on_message clock fp conn (pong _) flags sm = go_on flags sm []
  on_message clock fp conn (probe_req _ _) flags sm = go_on flags sm []
  on_message clock fp conn (probe_resp _) flags sm = go_on flags sm []

  -- The messages of the stream one after the other, each with the time at which it is handled.
  unfoldable pub on_messages :
      Fingerprint → ℕ → Flags → SessionManager → List (Clock × ControlMsg) → Step
  unfolding on_message go_on
  on_messages fp conn flags sm [] = go_on flags sm []
  on_messages fp conn flags sm ((clock, msg) ∷ msgs) =
      let step = on_message clock fp conn msg flags sm in
      let more = on_messages fp conn step.flags step.sm msgs in
      if step.goes_on then record more { effects = step.effects ++ more.effects } else step

-- The end of the loop of a connection.
unfoldable pub superseded : Fingerprint → ℕ → SessionManager → Bool
unfolding session_of
superseded fp conn sm = elim (session_of fp sm) [ none ↦ false | some s ↦ not (s.conn_id == conn) ]

unfoldable pub waits_for_code : Fingerprint → SessionManager → Bool
unfolding session_of Identity.is_trusted
waits_for_code fp sm = elim (session_of fp sm) [
  | none ↦ true
  | some s ↦ elim s.consent [ initiator ↦ not (Identity.is_trusted fp sm.trust) | _ ↦ false ]
]

unfoldable pub end_loop : Fingerprint → ℕ → Flags → SessionManager → SessionManager × List Effect
unfolding superseded waits_for_code drop_session
end_loop fp conn flags sm =
    let closing = if flags.failed then close conn "Pairing failed" ∷ [] else [] in
    let cut_off =
      if waits_for_code fp sm && not flags.terminal_result_sent
      then emit (pairing_result fp false (some "连接已断开")) ∷ []
      else [] in
    if superseded fp conn sm
    then (sm, closing)
    else (drop_session fp sm, emit (session_down fp) ∷ closing ++ cut_off)
