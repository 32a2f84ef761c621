-- ===== src/Session/History/Quiet.antt =====
-- crates/localtrans-core/src/session.rs: what a device cannot bring about by itself, whatever it sends
-- and however often it connects.
use localtrans.Base.{
  ℕ, ◌≡◌, ◌≢◌, sym, subst, inl, inr, true, false, none, some, List, [], ◌∷◌, String, Bytes, arith,
  Option-cases, All,
}
use localtrans.Relay.Proto.{Fingerprint}
use localtrans.Protocol.{ControlMsg, pair_code_submit, pair_result}
use localtrans.Identity.{is_trusted}
use localtrans.Session.Pairing.{
  SessionManager, Clock, initiator, awaiting_consent, PairOutcome, not_pairing, session_of,
  put_session,
}
use localtrans.Session.Gate.{
  disconnect, consent_timeout, judge_session, code_submitted, grant_consent,
}
use localtrans.Session.Incoming.{insert_session, establish_control_flow, handle_incoming}
use localtrans.Session.Rpc.{deliver}
use localtrans.Session.Control.{
  Flags, on_message, on_outcome, on_inbound, on_signal, on_answer, on_pair_result, on_trust_broken,
  go_on, stop, end_loop,
}
use localtrans.Session.Control.Trusting.{consent-cases, completes-cases, on_message-untrusted}
use localtrans.Session.History.{
  Action, incoming, outgoing, message, grant, deny, cancel, submit, hang_up, time_out, loop_ends,
  act, act_all,
}
use localtrans.Session.History.Same.{
  disconnect-Same, consent_timeout-Same, end_loop-Same, session_of-put_session,
}
use localtrans.Session.History.Others.{
  grant_consent-Same, on_message-Same, handle_incoming-Same, insert_session-Same,
}
use localtrans.Session.History.Unpaired.{
  code_of, Quiet, Unagreed, Same-Quiet, insert_session-Quiet, disconnect-Quiet,
  consent_timeout-Quiet, end_loop-Quiet, handle_incoming-Quiet, submit_pair_code-sm,
  deny_consent-sm, cancel_wait-sm, either_device,
}

module _ (hash_code : String → Bytes) (fallback_name : Fingerprint → String) where
  code_submitted-Quiet :
      (fp : Fingerprint) (code : String) (sm : SessionManager)
      → Quiet fp sm
      → ((code_submitted hash_code fallback_name fp code sm).1 ≡ not_pairing)
        × Quiet fp (code_submitted hash_code fallback_name fp code sm).0
  unfolding code_submitted judge_session code_of put_session
  code_submitted-Quiet fp code sm quiet = elim (Option-cases (session_of fp sm)) [
    | inl e ↦ ground arith
    | inr (s, e) ↦ elim (consent-cases s.consent) [
      | inl (d, p, c) ↦
          let next = record s { consent = awaiting_consent d (some code) } in
          ground (arith, session_of-put_session fp fp next sm)
      | inr (inl c) ↦ ground arith
      | inr (inr (hint, c)) ↦ ground arith
    ]
  ]

  on_outcome-Quiet :
      (clock : Clock) (fp : Fingerprint) (conn : ℕ) (flags : Flags)
      (judged : SessionManager × PairOutcome)
      → judged.1 ≡ not_pairing
      → Quiet fp judged.0
      → Quiet fp (on_outcome hash_code fallback_name clock fp conn flags judged).sm
  unfolding on_outcome go_on
  on_outcome-Quiet clock fp conn flags (sm, not_pairing) e quiet = quiet
  on_outcome-Quiet clock fp conn flags (sm, o) e quiet = absurd (ground arith)

  on_code-Quiet :
      (clock : Clock) (fp : Fingerprint) (conn : ℕ) (code : String) (flags : Flags)
      (sm : SessionManager)
      → Quiet fp sm
      → Quiet fp
          (on_message hash_code fallback_name clock fp conn (pair_code_submit code) flags sm).sm
  unfolding on_message
  on_code-Quiet clock fp conn code flags sm quiet =
      let judged = code_submitted hash_code fallback_name fp code sm in
      let waits = code_submitted-Quiet fp code sm quiet in
      on_outcome-Quiet clock fp conn flags judged waits.0 waits.1

  on_message-Quiet :
      (clock : Clock) (fp : Fingerprint) (conn : ℕ) (msg : ControlMsg) (flags : Flags)
      (sm : SessionManager)
      → msg ≢ pair_result true
      → Quiet fp sm
      → Quiet fp (on_message hash_code fallback_name clock fp conn msg flags sm).sm
  unfolding on_message on_outcome on_inbound on_signal on_answer on_pair_result on_trust_broken
      deliver go_on stop code_of session_of
  on_message-Quiet clock fp conn msg flags sm other quiet =
      elim (completes-cases hash_code fallback_name msg) [
        | inl (inl e) ↦ absurd (other e)
        | inl (inr (code, e)) ↦
            let by_code = on_code-Quiet clock fp conn code flags sm quiet in
            let claim : ControlMsg → Type 0 =
              λ m. Quiet fp (on_message hash_code fallback_name clock fp conn m flags sm).sm in
            subst claim (sym e) by_code
        | inr e ↦ (
          ground arith,
          on_message-untrusted hash_code fallback_name clock fp conn msg flags sm e quiet.1,
        )
      ]

  on_any-Quiet :
      (clock : Clock) (fp k : Fingerprint) (conn : ℕ) (msg : ControlMsg) (flags : Flags)
      (sm : SessionManager)
      → msg ≢ pair_result true
      → Quiet fp sm
      → Quiet fp (on_message hash_code fallback_name clock k conn msg flags sm).sm
  on_any-Quiet clock fp k conn msg flags sm other quiet =
      either_device fp k sm (λ j. (on_message hash_code fallback_name clock j conn msg flags sm).sm)
        quiet (on_message-Quiet clock fp conn msg flags sm other quiet)
        (on_message-Same hash_code fallback_name clock k fp conn msg flags sm)

  act-Quiet :
      (fp : Fingerprint) (a : Action) (sm : SessionManager)
      → Unagreed fp a
      → Quiet fp sm
      → Quiet fp (act hash_code fallback_name a sm)
  unfolding act establish_control_flow
  act-Quiet fp (incoming now time k conn name) sm h quiet =
      either_device fp k sm (λ j. (handle_incoming now time j conn name sm).0) quiet
        (handle_incoming-Quiet now time fp conn name sm quiet)
        (handle_incoming-Same hash_code fallback_name now time k fp conn name sm)
  act-Quiet fp (outgoing k conn name) sm h quiet =
      either_device fp k sm (λ j. insert_session j conn name initiator sm) quiet
        (insert_session-Quiet fp conn name initiator sm quiet.1)
        (insert_session-Same hash_code fallback_name k fp conn name initiator sm)
  act-Quiet fp (message clock k conn (pair_result true) flags) sm h quiet =
      let next = (on_message hash_code fallback_name clock k conn (pair_result true) flags sm).sm in
      Same-Quiet fp sm next
        (on_message-Same hash_code fallback_name clock k fp conn (pair_result true) flags sm h)
        quiet
  act-Quiet fp (message clock k conn msg flags) sm h quiet =
      on_any-Quiet clock fp k conn msg flags sm (λ e. ground arith) quiet
  act-Quiet fp (grant clock k code name hand) sm h quiet =
      let next = (grant_consent hash_code fallback_name clock k code name hand sm).1 in
      Same-Quiet fp sm next
        (grant_consent-Same hash_code fallback_name clock k fp code name hand sm h) quiet
  act-Quiet fp (deny k hand) sm h quiet = rw (deny_consent-sm k hand sm) quiet
  act-Quiet fp (cancel k hand) sm h quiet = rw (cancel_wait-sm k hand sm) quiet
  act-Quiet fp (submit k code hand) sm h quiet = rw (submit_pair_code-sm k code hand sm) quiet
  act-Quiet fp (hang_up k) sm h quiet =
      either_device fp k sm (λ j. (disconnect j sm).0) quiet (disconnect-Quiet fp sm quiet)
        (disconnect-Same k fp sm)
  act-Quiet fp (time_out k generation) sm h quiet =
      either_device fp k sm (λ j. (consent_timeout j generation sm).0) quiet
        (consent_timeout-Quiet fp generation sm quiet) (consent_timeout-Same k fp generation sm)
  act-Quiet fp (loop_ends k conn flags) sm h quiet =
      either_device fp k sm (λ j. (end_loop j conn flags sm).0) quiet
        (end_loop-Quiet fp conn flags sm quiet) (end_loop-Same k fp conn flags sm)

  act_all-Quiet :
      (fp : Fingerprint) (actions : List Action) (sm : SessionManager)
      → All (Unagreed fp) actions
      → Quiet fp sm
      → Quiet fp (act_all hash_code fallback_name actions sm)
  unfolding act_all
  act_all-Quiet fp [] sm all quiet = quiet
  act_all-Quiet fp (a ∷ later) sm (h, all) quiet =
      let next = act hash_code fallback_name a sm in
      act_all-Quiet fp later next all (act-Quiet fp a sm h quiet)

  -- Whatever steps come one after the other (devices connect, send and leave, the time for consent
  -- passes, the user decides), a device that is not trusted and has no code to be judged stays
  -- untrusted as long as neither the user consents to a connection of that device nor it sends the
  -- message that its own user's code was right.
  pub act_all-untrusted :
      (fp : Fingerprint) (actions : List Action) (sm : SessionManager)
      → All (Unagreed fp) actions
      → is_trusted fp sm.trust ≡ false
      → code_of fp sm ≡ none
      → is_trusted fp (act_all hash_code fallback_name actions sm).trust ≡ false
  act_all-untrusted fp actions sm all new clear = (act_all-Quiet fp actions sm all (clear, new)).1
