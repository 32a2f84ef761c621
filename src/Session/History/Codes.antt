-- ===== src/Session/History/Codes.antt =====
-- crates/localtrans-core/src/session.rs: the codes that a device has sent and those that were drawn for
-- it, as the sessions keep them.
use localtrans.Base.{
  ℕ, ◌+◌, ◌≡◌, sym, subst, ◌∙◌, ◌⊎◌, inl, inr, true, Option, none, some, String, Bytes, arith,
  Option-cases,
}
use localtrans.Relay.Proto.{Fingerprint}
use localtrans.Identity.{is_trusted}
use localtrans.Session.Pairing.{
  PairingMachine, Session, SessionManager, ConsentState, initiator, awaiting_consent, granted,
  session_of, put_session, drop_session, check_cooldown,
}
use localtrans.Session.Gate.{disconnect, consent_timeout}
use localtrans.Session.Incoming.{insert_session, handle_incoming}
use localtrans.Session.Control.{Flags, end_loop}
use localtrans.Session.History.Same.{Same, session_of-put_session, session_of-drop_session}

-- For one device: `Sent` of the codes it sent, `Drawn` of those drawn for it, and a consequence `Agreed`
-- of a match between the two.
module _ (hash_code : String → Bytes) (fallback_name : Fingerprint → String) (fp : Fingerprint)
    (Sent Drawn : String → Type 0) (Agreed : Type 0)
    (match : (c d : String) → Sent c → Drawn d → hash_code c ≡ hash_code d → Agreed) where
  abbrev pub PendingOk : ConsentState → Type 0
  PendingOk (awaiting_consent _ (some code)) = Sent code
  PendingOk (granted (some code)) = Sent code
  PendingOk _ = Unit

  abbrev pub MachineOk : Option PairingMachine → Type 0
  MachineOk none = Unit
  MachineOk (some pm) = (d : String) × Drawn d × (pm.code_hash ≡ hash_code d)

  abbrev pub SessionOk : Option Session → Type 0
  SessionOk none = Unit
  SessionOk (some s) = PendingOk s.consent × MachineOk s.pairing

  -- The codes that the session keeps are such, and trust has the consequence.
  abbrev pub Coded : SessionManager → Type 0
  Coded sm = SessionOk (session_of fp sm) × (is_trusted fp sm.trust ≡ true → Agreed)

  pub Same-Coded : (sm next : SessionManager) → Same fp sm next → Coded sm → Coded next
  Same-Coded sm next same ok = (subst SessionOk (sym same.0) ok.0, λ now. ok.1 (sym same.1 ∙ now))

  pub put_session-Coded :
      (s : Session) (sm : SessionManager)
      → SessionOk (some s)
      → (is_trusted fp sm.trust ≡ true → Agreed)
      → Coded (put_session fp s sm)
  unfolding put_session
  put_session-Coded s sm ok agreed =
      let there : session_of fp (put_session fp s sm) ≡ some s =
        ground (arith, session_of-put_session fp fp s sm) in
      (subst SessionOk (sym there) ok, agreed)

  drop_session-Coded : (sm : SessionManager) → Coded sm → Coded (drop_session fp sm)
  unfolding drop_session
  drop_session-Coded sm ok =
      let gone : session_of fp (drop_session fp sm) ≡ none =
        ground (arith, session_of-drop_session fp fp sm) in
      (subst SessionOk (sym gone) tt, ok.1)

  pub kept :
      (s : Session) (sm : SessionManager)
      → session_of fp sm ≡ some s
      → Coded sm
      → SessionOk (some s)
  kept s sm e ok = subst SessionOk e ok.0

  pub insert_session-Coded :
      (conn : ℕ) (name : String) (consent : ConsentState) (sm : SessionManager)
      → PendingOk consent
      → (is_trusted fp sm.trust ≡ true → Agreed)
      → Coded (insert_session fp conn name consent sm)
  unfolding insert_session
  insert_session-Coded conn name consent sm ok agreed = put_session-Coded _ _ (ok, tt) agreed

  pub handle_incoming-Coded :
      (now time conn : ℕ) (name : String) (sm : SessionManager)
      → Coded sm
      → Coded (handle_incoming now time fp conn name sm).0
  unfolding handle_incoming check_cooldown session_of
  handle_incoming-Coded now time conn name sm ok =
      let live = (check_cooldown now fp sm).0 in
      let met = insert_session-Coded conn name initiator live tt ok.1 in
      let asked =
        insert_session-Coded conn name (awaiting_consent (now + time) none) live tt ok.1 in
      ground (arith, met, asked)

  pub disconnect-Coded : (sm : SessionManager) → Coded sm → Coded (disconnect fp sm).0
  unfolding disconnect
  disconnect-Coded sm ok = elim (Option-cases (session_of fp sm)) [
    | inl e ↦ rw (e, disconnect) ok
    | inr (s, e) ↦ rw (e, disconnect) (drop_session-Coded sm ok)
  ]

  consent_timeout-either :
      (generation : ℕ) (sm : SessionManager)
      → let next = (consent_timeout fp generation sm).0 in (next ≡ sm) ⊎ (next ≡ drop_session fp sm)
  unfolding consent_timeout
  consent_timeout-either generation sm = ground arith

  end_loop-either :
      (conn : ℕ) (flags : Flags) (sm : SessionManager)
      → let next = (end_loop fp conn flags sm).0 in (next ≡ sm) ⊎ (next ≡ drop_session fp sm)
  unfolding end_loop
  end_loop-either conn flags sm = ground arith

  pub consent_timeout-Coded :
      (generation : ℕ) (sm : SessionManager) → Coded sm → Coded (consent_timeout fp generation sm).0
  unfolding consent_timeout
  consent_timeout-Coded generation sm ok =
      let gone = drop_session-Coded sm ok in
      elim (consent_timeout-either generation sm) [
        | inl e ↦ subst Coded (sym e) ok
        | inr e ↦ subst Coded (sym e) gone
      ]

  pub end_loop-Coded :
      (conn : ℕ) (flags : Flags) (sm : SessionManager)
      → Coded sm
      → Coded (end_loop fp conn flags sm).0
  unfolding end_loop
  end_loop-Coded conn flags sm ok = elim (end_loop-either conn flags sm) [
    | inl e ↦ subst Coded (sym e) ok
    | inr e ↦ subst Coded (sym e) (drop_session-Coded sm ok)
  ]
