-- ===== src/Session/History/Others.antt =====
-- crates/localtrans-core/src/session.rs: a connection, a message or a consent of one device leaves the
-- session and the trust of every other device as they are.
use localtrans.Base.{
  ℕ, ◌+◌, ◌≢◌, refl, ◌∙◌, inl, inr, true, none, some, List, ◌∷◌, String, Bytes, Bytes-discrete,
  arith, Option-cases, Bool-cases,
}
use localtrans.Base.Maps.{get-insert}
use localtrans.Relay.Proto.{Fingerprint}
use localtrans.Protocol.{ControlMsg, pair_code_submit, pair_result, consent_grant}
use localtrans.Identity.{is_trusted}
use localtrans.Session.Pairing.{
  new, PairOutcome, matched, fails_out, mismatch, not_pairing, ConsentState, awaiting_consent,
  granted, initiator, Session, Effect, queue, emit, pairing_code_shown, check_cooldown,
  SessionManager, Clock, session_of, put_session, record_cooldown, submit_remote,
}
use localtrans.Session.Gate.{
  judge_with, judge_session, judge_code, code_submitted, end_pairing, complete_pairing, on_release,
  try_release_pending, grant_consent, Handed, handed, timed_out, closed, after_hand,
}
use localtrans.Session.Incoming.{insert_session, handle_incoming}
use localtrans.Session.Rpc.{deliver}
use localtrans.Session.Control.{
  on_message, Flags, on_outcome, on_pair_result, on_inbound, on_signal, on_answer, on_trust_broken,
  go_on, stop,
}
use localtrans.Session.Control.Trusting.{
  paired, consent-cases, complete_pairing-known, complete_pairing-new,
}
use localtrans.Session.History.Same.{
  is_trusted-upsert_other, is_trusted-remove_other, Same, Same-trans, put_session-Same,
  disconnect-Same,
}

module _ (hash_code : String → Bytes) (fallback_name : Fingerprint → String) where
  end_pairing-Same :
      (k fp : Fingerprint) (sm : SessionManager)
      → k ≢ fp
      → Same fp sm (end_pairing hash_code fallback_name k sm).0
  unfolding end_pairing
  end_pairing-Same k fp sm apart = elim (Option-cases (session_of k sm)) [
    | inl e ↦ ground arith
    | inr (s, e) ↦ ground (arith, put_session-Same k fp (record s { pairing = none }) sm apart)
  ]

  complete_pairing-Same :
      (clock : Clock) (k fp : Fingerprint) (conn : ℕ) (sm : SessionManager)
      → k ≢ fp
      → Same fp sm (complete_pairing hash_code fallback_name clock k conn sm).0
  unfolding paired session_of
  complete_pairing-Same clock k fp conn sm apart = elim (Bool-cases (is_trusted k sm.trust)) [
    | inl known ↦
        rw (complete_pairing-known hash_code fallback_name clock k conn sm known) (refl, refl)
    | inr new ↦
        let ended = (end_pairing hash_code fallback_name k sm).0 in
        let p = paired hash_code fallback_name clock k sm in
        let same = end_pairing-Same k fp sm apart in
        rw (complete_pairing-new hash_code fallback_name clock k conn sm new)
          (same.0, is_trusted-upsert_other fp p ended.trust apart ∙ same.1)
  ]

  judge_session-Same :
      (k fp : Fingerprint) (code : String) (s : Session) (sm : SessionManager)
      → k ≢ fp
      → Same fp sm (judge_session hash_code fallback_name k code s sm).0
  unfolding judge_session judge_with
  judge_session-Same k fp code s sm apart = elim (Option-cases s.pairing) [
    | inl e ↦ ground arith
    | inr (pm, e) ↦
        let judged = submit_remote hash_code code pm in
        ground (arith, put_session-Same k fp (record s { pairing = some judged.0 }) sm apart)
  ]

  judge_code-Same :
      (k fp : Fingerprint) (code : String) (sm : SessionManager)
      → k ≢ fp
      → Same fp sm (judge_code hash_code fallback_name k code sm).0
  unfolding judge_code
  judge_code-Same k fp code sm apart = elim (Option-cases (session_of k sm)) [
    | inl e ↦ ground arith
    | inr (s, e) ↦ ground (arith, judge_session-Same k fp code s sm apart)
  ]

  code_submitted-Same :
      (k fp : Fingerprint) (code : String) (sm : SessionManager)
      → k ≢ fp
      → Same fp sm (code_submitted hash_code fallback_name k code sm).0
  unfolding code_submitted
  code_submitted-Same k fp code sm apart = elim (Option-cases (session_of k sm)) [
    | inl e ↦ ground arith
    | inr (s, e) ↦ elim (consent-cases s.consent) [
      | inl (d, p, c) ↦ ground (
        arith,
        put_session-Same k fp (record s { consent = awaiting_consent d (some code) }) sm apart,
      )
      | inr (inl c) ↦ ground arith
      | inr (inr (hint, c)) ↦ ground (arith, judge_session-Same k fp code s sm apart)
    ]
  ]

  on_release-Same :
      (clock : Clock) (k fp : Fingerprint) (conn : ℕ) (sm : SessionManager) (o : PairOutcome)
      → k ≢ fp
      → Same fp sm (on_release hash_code fallback_name clock k conn (sm, o)).0
  unfolding on_release record_cooldown session_of
  on_release-Same clock k fp conn sm matched apart = complete_pairing-Same clock k fp conn sm apart
  on_release-Same clock k fp conn sm fails_out apart =
      disconnect-Same k fp (record_cooldown clock.instant k sm) apart
  on_release-Same clock k fp conn sm mismatch apart = (refl, refl)
  on_release-Same clock k fp conn sm not_pairing apart = (refl, refl)

  try_release_pending-Same :
      (clock : Clock) (k fp : Fingerprint) (conn : ℕ) (sm : SessionManager)
      → k ≢ fp
      → Same fp sm (try_release_pending hash_code fallback_name clock k conn sm).0
  unfolding try_release_pending
  try_release_pending-Same clock k fp conn sm apart = elim (Option-cases (session_of k sm)) [
    | inl e ↦ ground arith
    | inr (s, e) ↦ elim (consent-cases s.consent) [
      | inl (d, p, c) ↦ ground arith
      | inr (inl c) ↦ ground arith
      | inr (inr (none, c)) ↦
          ground (arith, put_session-Same k fp (record s { consent = granted none }) sm apart)
      | inr (inr (some code, c)) ↦
          let taken = put_session k (record s { consent = granted none }) sm in
          let judged = judge_code hash_code fallback_name k code taken in
          let a = put_session-Same k fp (record s { consent = granted none }) sm apart in
          let b = judge_code-Same k fp code taken apart in
          let d = on_release-Same clock k fp conn judged.0 judged.1 apart in
          let whole = Same-trans fp sm taken judged.0 a b in ground (arith, whole, d)
    ]
  ]

  after_hand-Same {ℓ} :
      {A : Type ℓ} (fp : Fingerprint) (a : A) (h : Handed) (sm : SessionManager)
      (one : SessionManager × List Effect) (other : SessionManager)
      → Same fp sm one.0
      → Same fp sm other
      → Same fp sm (after_hand a h one other).1
  unfolding after_hand
  after_hand-Same fp a handed sm one other x y = x
  after_hand-Same fp a timed_out sm one other x y = y
  after_hand-Same fp a closed sm one other x y = y

  pub grant_consent-Same :
      (clock : Clock) (k fp : Fingerprint) (code name : String) (hand : Handed)
      (sm : SessionManager)
      → k ≢ fp
      → Same fp sm (grant_consent hash_code fallback_name clock k code name hand sm).1
  unfolding grant_consent
  grant_consent-Same clock k fp code name hand sm apart = elim (Option-cases (session_of k sm)) [
    | inl e ↦ ground arith
    | inr (s, e) ↦ elim (consent-cases s.consent) [
      | inr (inl c) ↦ ground arith
      | inr (inr (hint, c)) ↦ ground arith
      | inl (d, p, c) ↦
          let next = record s { pairing = some (new (hash_code code)); consent = granted p } in
          let opened = put_session k next sm in
          let released = try_release_pending hash_code fallback_name clock k s.conn_id opened in
          let a = put_session-Same k fp next sm apart in
          let b = try_release_pending-Same clock k fp s.conn_id opened apart in
          let whole = Same-trans fp sm opened released.0 a b in
          ground (
            arith,
            after_hand-Same fp code hand sm
                (
                  released.0,
                  queue k (consent_grant name) ∷ emit (pairing_code_shown k code) ∷ released.1,
                )
                opened whole a,
          )
    ]
  ]

  on_outcome-Same :
      (clock : Clock) (k fp : Fingerprint) (conn : ℕ) (flags : Flags) (sm : SessionManager)
      (o : PairOutcome)
      → k ≢ fp
      → Same fp sm (on_outcome hash_code fallback_name clock k conn flags (sm, o)).sm
  unfolding on_outcome go_on stop record_cooldown session_of
  on_outcome-Same clock k fp conn flags sm matched apart =
      complete_pairing-Same clock k fp conn sm apart
  on_outcome-Same clock k fp conn flags sm fails_out apart = (refl, refl)
  on_outcome-Same clock k fp conn flags sm mismatch apart = (refl, refl)
  on_outcome-Same clock k fp conn flags sm not_pairing apart = (refl, refl)

  pub on_message-Same :
      (clock : Clock) (k fp : Fingerprint) (conn : ℕ) (msg : ControlMsg) (flags : Flags)
      (sm : SessionManager)
      → k ≢ fp
      → Same fp sm (on_message hash_code fallback_name clock k conn msg flags sm).sm
  unfolding on_message on_inbound on_signal on_answer on_pair_result on_trust_broken deliver go_on
      stop session_of
  on_message-Same clock k fp conn (pair_code_submit code) flags sm apart =
      let judged = code_submitted hash_code fallback_name k code sm in
      let a = code_submitted-Same k fp code sm apart in
      let step = on_outcome hash_code fallback_name clock k conn flags judged in
      let b : Same fp judged.0 step.sm =
        on_outcome-Same clock k fp conn flags judged.0 judged.1 apart in
      Same-trans fp sm judged.0 step.sm a b
  on_message-Same clock k fp conn (pair_result true) flags sm apart =
      complete_pairing-Same clock k fp conn sm apart
  on_message-Same clock k fp conn msg flags sm apart =
      ground (arith, is_trusted-remove_other k fp sm.trust apart)

  pub insert_session-Same :
      (k fp : Fingerprint) (conn : ℕ) (name : String) (consent : ConsentState) (sm : SessionManager)
      → k ≢ fp
      → Same fp sm (insert_session k conn name consent sm)
  unfolding insert_session put_session session_of
  insert_session-Same k fp conn name consent sm apart = (
    ground (
      arith,
      get-insert Bytes-discrete k fp
          (record {
            conn_id = conn;
            pairing = none;
            peer_name = some name;
            consent = consent;
            generation = sm.generation_counter;
          })
          sm.sessions,
    ),
    refl,
  )

  pub handle_incoming-Same :
      (now time : ℕ) (k fp : Fingerprint) (conn : ℕ) (name : String) (sm : SessionManager)
      → k ≢ fp
      → Same fp sm (handle_incoming now time k conn name sm).0
  unfolding handle_incoming check_cooldown session_of
  handle_incoming-Same now time k fp conn name sm apart =
      let live = (check_cooldown now k sm).0 in
      let met = insert_session-Same k fp conn name initiator live apart in
      let asked =
        insert_session-Same k fp conn name (awaiting_consent (now + time) none) live apart in
      ground (arith, met, asked)
