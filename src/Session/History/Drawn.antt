-- ===== src/Session/History/Drawn.antt =====
-- crates/localtrans-core/src/session.rs: by which codes a device becomes trusted.
use localtrans.Base.{
  ℕ, ◌≡◌, ◌≢◌, refl, sym, subst, ◌⊎◌, inl, inr, true, false, none, List, [], ◌∷◌, String, Bytes,
  Bytes-discrete, arith, Bool-cases, All, Any,
}
use localtrans.Relay.Proto.{Fingerprint}
use localtrans.Protocol.{ControlMsg, pair_code_submit, pair_result}
use localtrans.Identity.{is_trusted}
use localtrans.Session.Pairing.{
  SessionManager, Clock, initiator, PairOutcome, matched, mismatch, fails_out, not_pairing,
  session_of, record_cooldown,
}
use localtrans.Session.Gate.{disconnect, consent_timeout, code_submitted, grant_consent}
use localtrans.Session.Incoming.{insert_session, establish_control_flow, handle_incoming}
use localtrans.Session.Rpc.{deliver}
use localtrans.Session.Control.{
  Flags, on_message, on_outcome, on_inbound, on_signal, on_answer, on_pair_result, on_trust_broken,
  go_on, stop, end_loop,
}
use localtrans.Session.Control.Trusting.{completes, on_message-untrusted}
use localtrans.Session.History.{
  Action, incoming, outgoing, message, grant, deny, cancel, submit, hang_up, time_out, loop_ends,
  act, act_all,
}
use localtrans.Session.History.Same.{Same, disconnect-Same, consent_timeout-Same, end_loop-Same}
use localtrans.Session.History.Others.{
  grant_consent-Same, on_message-Same, handle_incoming-Same, insert_session-Same,
}
use localtrans.Session.History.Unpaired.{submit_pair_code-sm, deny_consent-sm, cancel_wait-sm}
use localtrans.Session.History.Codes.{
  SessionOk, Coded, Same-Coded, insert_session-Coded, handle_incoming-Coded, disconnect-Coded,
  consent_timeout-Coded, end_loop-Coded,
}
use localtrans.Session.History.Judging.{
  complete_pairing-Coded, code_submitted-Judged, grant_consent-Coded,
}

-- The device sends a code; a code is drawn when the user consents to its connection; the device says
-- that its own user's code was right.
abbrev pub Sends : Fingerprint → String → Action → Type 0
Sends fp code (message _ k _ (pair_code_submit c) _) = (k ≡ fp) × (c ≡ code)
Sends fp code _ = ⊥

abbrev pub Draws : Fingerprint → String → Action → Type 0
Draws fp code (grant _ k c _ _) = (k ≡ fp) × (c ≡ code)
Draws fp code _ = ⊥

abbrev pub Claims : Fingerprint → Action → Type 0
Claims fp (message _ k _ (pair_result true) _) = k ≡ fp
Claims fp _ = ⊥

module _ (hash_code : String → Bytes) (fallback_name : Fingerprint → String) where
  module _ (fp : Fingerprint) (Sent Drawn : String → Type 0) (Agreed : Type 0)
      (match : (c d : String) → Sent c → Drawn d → hash_code c ≡ hash_code d → Agreed) where
    abbrev Ok : SessionManager → Type 0
    Ok sm = Coded hash_code fallback_name fp Sent Drawn Agreed match sm

    -- What an action adds to the codes.
    abbrev Noted : Action → Type 0
    Noted a =
        ((code : String) → Sends fp code a → Sent code)
        × ((code : String) → Draws fp code a → Drawn code)
        × (Claims fp a → Agreed)

    on_outcome-Coded :
        (clock : Clock) (conn : ℕ) (flags : Flags) (sm : SessionManager) (o : PairOutcome)
        → Ok sm
        → (o ≡ matched → Agreed)
        → Ok (on_outcome hash_code fallback_name clock fp conn flags (sm, o)).sm
    unfolding on_outcome go_on stop record_cooldown session_of
    on_outcome-Coded clock conn flags sm matched ok agreed =
        complete_pairing-Coded hash_code fallback_name fp Sent Drawn Agreed match clock conn sm ok
          (agreed refl)
    on_outcome-Coded clock conn flags sm fails_out ok agreed = ok
    on_outcome-Coded clock conn flags sm mismatch ok agreed = ok
    on_outcome-Coded clock conn flags sm not_pairing ok agreed = ok

    on_other-Coded :
        (clock : Clock) (conn : ℕ) (msg : ControlMsg) (flags : Flags) (sm : SessionManager)
        → completes hash_code fallback_name msg ≡ false
        → Ok sm
        → Ok (on_message hash_code fallback_name clock fp conn msg flags sm).sm
    unfolding on_message on_inbound on_signal on_answer on_pair_result on_trust_broken deliver go_on
        stop session_of
    on_other-Coded clock conn msg flags sm other ok =
        let next = (on_message hash_code fallback_name clock fp conn msg flags sm).sm in
        let same : session_of fp next ≡ session_of fp sm = ground arith in
        (
          subst (SessionOk hash_code fallback_name fp Sent Drawn Agreed match) (sym same) ok.0,
          λ now. elim (Bool-cases (is_trusted fp sm.trust)) [
            | inl before ↦ ok.1 before
            | inr before ↦
                let still =
                  on_message-untrusted hash_code fallback_name clock fp conn msg flags sm other
                    before in
                absurd (ground arith)
          ],
        )

    on_message-Coded :
        (clock : Clock) (conn : ℕ) (msg : ControlMsg) (flags : Flags) (sm : SessionManager)
        → Noted (message clock fp conn msg flags)
        → Ok sm
        → Ok (on_message hash_code fallback_name clock fp conn msg flags sm).sm
    unfolding on_message on_pair_result go_on
    on_message-Coded clock conn (pair_code_submit code) flags sm noted ok =
        let judged = code_submitted hash_code fallback_name fp code sm in
        let (next, agreed) =
          code_submitted-Judged hash_code fallback_name fp Sent Drawn Agreed match code sm
            (noted.0 code (refl, refl)) ok in
        on_outcome-Coded clock conn flags judged.0 judged.1 next agreed
    on_message-Coded clock conn (pair_result true) flags sm noted ok =
        complete_pairing-Coded hash_code fallback_name fp Sent Drawn Agreed match clock conn sm ok
          (noted.2 refl)
    on_message-Coded clock conn msg flags sm noted ok =
        on_other-Coded clock conn msg flags sm refl ok

    -- The device itself, or another one that leaves it as it is.
    for_device :
        (k : Fingerprint) (sm : SessionManager) (next : Fingerprint → SessionManager)
        → Ok sm
        → (k ≡ fp → Ok (next fp))
        → (k ≢ fp → Same fp sm (next k))
        → Ok (next k)
    for_device k sm next ok own other = elim (Bytes-discrete k fp) [
      | yes e ↦ subst (λ j. Ok (next j)) (sym e) (own e)
      | no apart ↦
          Same-Coded hash_code fallback_name fp Sent Drawn Agreed match sm (next k) (other apart) ok
    ]

    act-Coded :
        (a : Action) (sm : SessionManager) → Noted a → Ok sm → Ok (act hash_code fallback_name a sm)
    unfolding act establish_control_flow
    act-Coded (incoming now time k conn name) sm noted ok =
        for_device k sm (λ j. (handle_incoming now time j conn name sm).0) ok
          (λ e.
            handle_incoming-Coded hash_code fallback_name fp Sent Drawn Agreed match now time conn
              name sm ok)
          (handle_incoming-Same hash_code fallback_name now time k fp conn name sm)
    act-Coded (outgoing k conn name) sm noted ok =
        for_device k sm (λ j. insert_session j conn name initiator sm) ok
          (λ e.
            insert_session-Coded hash_code fallback_name fp Sent Drawn Agreed match conn name
              initiator sm tt ok.1)
          (insert_session-Same hash_code fallback_name k fp conn name initiator sm)
    act-Coded (message clock k conn msg flags) sm noted ok =
        for_device k sm (λ j. (on_message hash_code fallback_name clock j conn msg flags sm).sm) ok
          (λ e.
            on_message-Coded clock conn msg flags sm
              (subst (λ j. Noted (message clock j conn msg flags)) e noted) ok)
          (on_message-Same hash_code fallback_name clock k fp conn msg flags sm)
    act-Coded (grant clock k code name hand) sm noted ok =
        for_device k sm (λ j. (grant_consent hash_code fallback_name clock j code name hand sm).1)
          ok
          (λ e.
            grant_consent-Coded hash_code fallback_name fp Sent Drawn Agreed match clock code name
              hand sm (noted.1 code (e, refl)) ok)
          (grant_consent-Same hash_code fallback_name clock k fp code name hand sm)
    act-Coded (deny k hand) sm noted ok = rw (deny_consent-sm k hand sm) ok
    act-Coded (cancel k hand) sm noted ok = rw (cancel_wait-sm k hand sm) ok
    act-Coded (submit k code hand) sm noted ok = rw (submit_pair_code-sm k code hand sm) ok
    act-Coded (hang_up k) sm noted ok =
        for_device k sm (λ j. (disconnect j sm).0) ok
          (λ e. disconnect-Coded hash_code fallback_name fp Sent Drawn Agreed match sm ok)
          (disconnect-Same k fp sm)
    act-Coded (time_out k generation) sm noted ok =
        for_device k sm (λ j. (consent_timeout j generation sm).0) ok
          (λ e.
            consent_timeout-Coded hash_code fallback_name fp Sent Drawn Agreed match generation sm
              ok)
          (consent_timeout-Same k fp generation sm)
    act-Coded (loop_ends k conn flags) sm noted ok =
        for_device k sm (λ j. (end_loop j conn flags sm).0) ok
          (λ e. end_loop-Coded hash_code fallback_name fp Sent Drawn Agreed match conn flags sm ok)
          (end_loop-Same k fp conn flags sm)

    act_all-Coded :
        (actions : List Action) (sm : SessionManager)
        → All Noted actions
        → Ok sm
        → Ok (act_all hash_code fallback_name actions sm)
    unfolding act_all
    act_all-Coded [] sm noted ok = ok
    act_all-Coded (a ∷ later) sm (now, noted) ok =
        let next = act hash_code fallback_name a sm in
        act_all-Coded later next noted (act-Coded a sm now ok)

  -- Its word that its own user's code was right, or a code it sent that has the hash of one drawn when
  -- consent was given to its connection.
  abbrev pub Agreement : Fingerprint → List Action → Type 0
  Agreement fp actions =
      Any (Claims fp) actions
      ⊎ ((sent drawn : String) × Any (Sends fp sent) actions
          × Any (Draws fp drawn) actions
          × (hash_code sent ≡ hash_code drawn))

  All-members :
      (P : Action → Type 0) (whole xs : List Action)
      → ((Q : Action → Type 0) → Any Q xs → Any Q whole)
      → ((a : Action) → ((Q : Action → Type 0) → Q a → Any Q whole) → P a)
      → All P xs
  All-members P whole [] part f = tt
  All-members P whole (a ∷ xs) part f =
      (f a (λ Q here. part Q (inl here)), All-members P whole xs (λ Q there. part Q (inr there)) f)

  -- Whatever steps come one after the other (devices connect, send and leave, the time for consent
  -- passes, the user decides), a device that began untrusted and without a session and ends up
  -- trusted has, among these steps, either sent the message that its own user's code was right, or
  -- sent a code with the hash of a code that was drawn when consent was given to a connection of
  -- this very device.
  pub act_all-trusts :
      (fp : Fingerprint) (actions : List Action) (sm : SessionManager)
      → session_of fp sm ≡ none
      → is_trusted fp sm.trust ≡ false
      → is_trusted fp (act_all hash_code fallback_name actions sm).trust ≡ true
      → Agreement fp actions
  act_all-trusts fp actions sm fresh new now =
      let sent : String → Type 0 = λ code. Any (Sends fp code) actions in
      let drawn : String → Type 0 = λ code. Any (Draws fp code) actions in
      let match : (c d : String)
          → sent c
          → drawn d
          → hash_code c ≡ hash_code d
          → Agreement fp actions =
        λ c d in_sent in_drawn same. inr (c, d, in_sent, in_drawn, same) in
      let noted =
        All-members (Noted fp sent drawn (Agreement fp actions) match) actions actions (λ Q h. h)
          (λ a member. (
            λ code. member (Sends fp code),
            λ code. member (Draws fp code),
            λ claims. inl (member (Claims fp) claims),
          )) in
      let start : Ok fp sent drawn (Agreement fp actions) match sm = (
        subst (SessionOk hash_code fallback_name fp sent drawn (Agreement fp actions) match)
            (sym fresh) tt,
        λ trusted. absurd (ground arith),
      ) in
      (act_all-Coded fp sent drawn (Agreement fp actions) match actions sm noted start).1 now
