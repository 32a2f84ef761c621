-- ===== src/Session/History/Judging.antt =====
-- crates/localtrans-core/src/session.rs: the codes that a session keeps are those that were sent and
-- drawn, also when they are judged and when consent is given.
use localtrans.Base.{
  ℕ, ◌≡◌, refl, subst, ◌∙◌, inl, inr, true, Option, none, some, List, String, Bytes, Bytes-discrete,
  arith, Option-cases, Bool-cases,
}
use localtrans.Relay.Proto.{Fingerprint}
use localtrans.Identity.{is_trusted}
use localtrans.Session.Pairing.{
  PairingMachine, new, Session, SessionManager, Clock, Effect, awaiting_consent, granted,
  PairOutcome, matched, mismatch, fails_out, not_pairing, session_of, put_session, record_cooldown,
  submit_remote,
}
use localtrans.Session.Gate.{
  Handed, handed, timed_out, closed, after_hand, judge_with, judge_session, judge_code,
  code_submitted, end_pairing, complete_pairing, on_release, try_release_pending, grant_consent,
}
use localtrans.Session.Control.Trusting.{
  consent-cases, complete_pairing-known, complete_pairing-new,
}
use localtrans.Session.History.Codes as Codes
use localtrans.Session.History.Codes.{put_session-Coded, kept, disconnect-Coded}

module _ (hash_code : String → Bytes) (fallback_name : Fingerprint → String) (fp : Fingerprint)
    (Sent Drawn : String → Type 0) (Agreed : Type 0)
    (match : (c d : String) → Sent c → Drawn d → hash_code c ≡ hash_code d → Agreed) where
  abbrev pub Ok : SessionManager → Type 0
  Ok sm = Codes.Coded hash_code fallback_name fp Sent Drawn Agreed match sm

  end_pairing-Coded :
      (sm : SessionManager) → Ok sm → Ok (end_pairing hash_code fallback_name fp sm).0
  unfolding end_pairing
  end_pairing-Coded sm ok = elim (Option-cases (session_of fp sm)) [
    | inl e ↦ rw (e, end_pairing) ok
    | inr (s, e) ↦
        rw (e, end_pairing)
          (put_session-Coded hash_code fallback_name fp Sent Drawn Agreed match _ sm
            ((kept hash_code fallback_name fp Sent Drawn Agreed match s sm e ok).0, tt) ok.1)
  ]

  pub complete_pairing-Coded :
      (clock : Clock) (conn : ℕ) (sm : SessionManager)
      → Ok sm
      → Agreed
      → Ok (complete_pairing hash_code fallback_name clock fp conn sm).0
  unfolding session_of
  complete_pairing-Coded clock conn sm ok agreed = elim (Bool-cases (is_trusted fp sm.trust)) [
    | inl known ↦ rw (complete_pairing-known hash_code fallback_name clock fp conn sm known) ok
    | inr unknown ↦
        rw (complete_pairing-new hash_code fallback_name clock fp conn sm unknown)
          ((end_pairing-Coded sm ok).0, λ now. agreed)
  ]

  -- A code that was judged, and what follows if it was right.
  abbrev pub Judged : SessionManager × PairOutcome → Type 0
  Judged r = Ok r.0 × (r.1 ≡ matched → Agreed)

  judge_with-Judged :
      (code : String) (s : Session) (pm : PairingMachine) (sm : SessionManager)
      → Sent code
      → (Codes.PendingOk hash_code fallback_name fp Sent Drawn Agreed match) s.consent
      → (Codes.MachineOk hash_code fallback_name fp Sent Drawn Agreed match) (some pm)
      → (is_trusted fp sm.trust ≡ true → Agreed)
      → Judged (judge_with hash_code fallback_name fp code s pm sm)
  unfolding judge_with
  judge_with-Judged code s pm sm sent pending (d, drawn, hash) agreed =
      let judged = submit_remote hash_code code pm in
      let same : judged.0.code_hash ≡ pm.code_hash = ground arith in
      (
        put_session-Coded hash_code fallback_name fp Sent Drawn Agreed match _ sm
            (pending, (d, drawn, same ∙ hash)) agreed,
        λ right. elim (Bytes-discrete (hash_code code) pm.code_hash) [
          | yes e ↦ match code d sent drawn (e ∙ hash)
          | no ne ↦ absurd (ground arith)
        ],
      )

  judge_session-Judged :
      (code : String) (s : Session) (sm : SessionManager)
      → Sent code
      → (Codes.SessionOk hash_code fallback_name fp Sent Drawn Agreed match) (some s)
      → Ok sm
      → Judged (judge_session hash_code fallback_name fp code s sm)
  unfolding judge_session
  judge_session-Judged code s sm sent fine ok = elim (Option-cases s.pairing) [
    | inl e ↦ rw (e, judge_session) (ok, λ right. absurd (ground arith))
    | inr (pm, e) ↦
        rw (e, judge_session)
          (judge_with-Judged code s pm sm sent fine.0
            (subst (Codes.MachineOk hash_code fallback_name fp Sent Drawn Agreed match) e fine.1)
            ok.1)
  ]

  judge_code-Judged :
      (code : String) (sm : SessionManager)
      → Sent code
      → Ok sm
      → Judged (judge_code hash_code fallback_name fp code sm)
  unfolding judge_code
  judge_code-Judged code sm sent ok = elim (Option-cases (session_of fp sm)) [
    | inl e ↦ rw (e, judge_code) (ok, λ right. absurd (ground arith))
    | inr (s, e) ↦
        rw (e, judge_code)
          (judge_session-Judged code s sm sent
            (kept hash_code fallback_name fp Sent Drawn Agreed match s sm e ok) ok)
  ]

  pub code_submitted-Judged :
      (code : String) (sm : SessionManager)
      → Sent code
      → Ok sm
      → Judged (code_submitted hash_code fallback_name fp code sm)
  unfolding code_submitted
  code_submitted-Judged code sm sent ok = elim (Option-cases (session_of fp sm)) [
    | inl e ↦ rw (e, code_submitted) (ok, λ right. absurd (ground arith))
    | inr (s, e) ↦
        let fine = kept hash_code fallback_name fp Sent Drawn Agreed match s sm e ok in
        elim (consent-cases s.consent) [
          | inl (d, p, c) ↦
              rw (e, c, code_submitted)
                (
                  put_session-Coded hash_code fallback_name fp Sent Drawn Agreed match _ sm
                      (sent, fine.1) ok.1,
                  λ right. absurd (ground arith),
                )
          | inr (inl c) ↦ rw (e, c, code_submitted) (ok, λ right. absurd (ground arith))
          | inr (inr (hint, c)) ↦
              rw (e, c, code_submitted) (judge_session-Judged code s sm sent fine ok)
        ]
  ]

  on_release-Coded :
      (clock : Clock) (conn : ℕ) (sm : SessionManager) (o : PairOutcome)
      → Judged (sm, o)
      → Ok (on_release hash_code fallback_name clock fp conn (sm, o)).0
  unfolding on_release record_cooldown session_of
  on_release-Coded clock conn sm matched ok = complete_pairing-Coded clock conn sm ok.0 (ok.1 refl)
  on_release-Coded clock conn sm fails_out ok =
      disconnect-Coded hash_code fallback_name fp Sent Drawn Agreed match
        (record_cooldown clock.instant fp sm) ok.0
  on_release-Coded clock conn sm mismatch ok = ok.0
  on_release-Coded clock conn sm not_pairing ok = ok.0

  try_release_pending-Coded :
      (clock : Clock) (conn : ℕ) (sm : SessionManager)
      → Ok sm
      → Ok (try_release_pending hash_code fallback_name clock fp conn sm).0
  unfolding try_release_pending
  try_release_pending-Coded clock conn sm ok = elim (Option-cases (session_of fp sm)) [
    | inl e ↦ rw (e, try_release_pending) ok
    | inr (s, e) ↦
        let fine = kept hash_code fallback_name fp Sent Drawn Agreed match s sm e ok in
        let taken = put_session fp (record s { consent = granted none }) sm in
        let held =
          put_session-Coded hash_code fallback_name fp Sent Drawn Agreed match
            (record s { consent = granted none }) sm (tt, fine.1) ok.1 in
        elim (consent-cases s.consent) [
          | inl (d, p, c) ↦ rw (e, c, try_release_pending) ok
          | inr (inl c) ↦ rw (e, c, try_release_pending) ok
          | inr (inr (none, c)) ↦ rw (e, c, try_release_pending) held
          | inr (inr (some code, c)) ↦
              let sent : Sent code =
                subst (Codes.PendingOk hash_code fallback_name fp Sent Drawn Agreed match) c
                  fine.0 in
              let judged = judge_code hash_code fallback_name fp code taken in
              rw (e, c, try_release_pending)
                (on_release-Coded clock conn judged.0 judged.1
                  (judge_code-Judged code taken sent held))
        ]
  ]

  after_hand-Coded {ℓ} :
      {A : Type ℓ} (a : A) (h : Handed) (one : SessionManager × List Effect)
      (other : SessionManager)
      → Ok one.0
      → Ok other
      → Ok (after_hand a h one other).1
  unfolding after_hand
  after_hand-Coded a handed one other x y = x
  after_hand-Coded a timed_out one other x y = y
  after_hand-Coded a closed one other x y = y

  pub grant_consent-Coded :
      (clock : Clock) (code name : String) (hand : Handed) (sm : SessionManager)
      → Drawn code
      → Ok sm
      → Ok (grant_consent hash_code fallback_name clock fp code name hand sm).1
  unfolding grant_consent new
  grant_consent-Coded clock code name hand sm drawn ok = elim (Option-cases (session_of fp sm)) [
    | inl e ↦ rw (e, grant_consent) ok
    | inr (s, e) ↦
        let fine = kept hash_code fallback_name fp Sent Drawn Agreed match s sm e ok in
        elim (consent-cases s.consent) [
          | inr (inl c) ↦ rw (e, c, grant_consent) ok
          | inr (inr (hint, c)) ↦ rw (e, c, grant_consent) ok
          | inl (d, p, c) ↦
              let next = record s { pairing = some (new (hash_code code)); consent = granted p } in
              let opened = put_session fp next sm in
              let held =
                put_session-Coded hash_code fallback_name fp Sent Drawn Agreed match next sm
                  (
                    pending d p (
                        subst (Codes.PendingOk hash_code fallback_name fp Sent Drawn Agreed match) c
                          fine.0),
                    (code, drawn, refl),
                  )
                  ok.1 in
              rw (e, c, grant_consent)
                (after_hand-Coded code hand _ opened
                  (try_release_pending-Coded clock s.conn_id opened held) held)
        ]
  ]
    where
      pending :
          (d : ℕ) (p : Option String)
          → (Codes.PendingOk hash_code fallback_name fp Sent Drawn Agreed match)
              (awaiting_consent d p)
          → (Codes.PendingOk hash_code fallback_name fp Sent Drawn Agreed match) (granted p)
      pending d none h = tt
      pending d (some code) h = h
