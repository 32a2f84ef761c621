-- ===== src/Session/Control/Trusting.antt =====
-- crates/localtrans-core/src/session.rs: by which messages a device becomes trusted.
use localtrans.Base.{
  ℕ, ◌≡◌, refl, sym, ap, subst, ◌⊎◌, inl, inr, Bool, true, false, Option, none, some, [], ◌∷◌,
  String, Bytes, arith, Option-cases, Bool-cases,
}
use localtrans.Relay.Proto.{Fingerprint}
use localtrans.Protocol.{ControlMsg, pair_code_submit, pair_result}
use localtrans.Identity as Identity
use localtrans.Identity.{TrustedPeer, TrustStore, default_perms, is_trusted, upsert}
use localtrans.Session.Pairing.{
  ConsentState, awaiting_consent, granted, initiator, PairingMachine, Session, SessionManager,
  Clock, session_of, put_session, submit_remote, verify_code, failed_out, record_cooldown,
}
use localtrans.Session.Gate.{
  judge_with, judge_session, code_submitted, end_pairing, complete_pairing_core, complete_pairing,
}
use localtrans.Session.Rpc.{deliver}
use localtrans.Session.Control.{
  Flags, go_on, stop, on_trust_broken, on_outcome, on_pair_result, on_inbound, on_signal, on_answer,
  on_message,
}

is_trusted-upsert :
    (p : TrustedPeer) (s : TrustStore) → is_trusted p.fingerprint (upsert p s) ≡ true
unfolding is_trusted upsert
is_trusted-upsert p [] = ground arith
is_trusted-upsert p (q ∷ s) = ground (arith, is_trusted-upsert p s)

is_trusted-remove :
    (fp : Fingerprint) (s : TrustStore)
    → is_trusted fp s ≡ false
    → is_trusted fp (Identity.remove fp s).0 ≡ false
unfolding is_trusted Identity.remove
is_trusted-remove fp [] h = refl
is_trusted-remove fp (q ∷ s) h = ground (arith, is_trusted-remove fp s)

pub consent-cases :
    (c : ConsentState)
    → ((d : ℕ) × (p : Option String) × (c ≡ awaiting_consent d p))
      ⊎ ((c ≡ initiator) ⊎ ((hint : Option String) × (c ≡ granted hint)))
consent-cases (granted hint) = inr (inr (hint, refl))
consent-cases (awaiting_consent d p) = inl (d, p, refl)
consent-cases initiator = inr (inl refl)

module _ (hash_code : String → Bytes) (fallback_name : Fingerprint → String) where
  -- The entry of a device that is paired.
  unfoldable pub paired : Clock → Fingerprint → SessionManager → TrustedPeer
  paired clock fp sm = record {
    fingerprint = fp;
    name = (end_pairing hash_code fallback_name fp sm).1;
    alias = "";
    paired_at = clock.unix;
    perms = default_perms;
  }

  pub complete_pairing-known :
      (clock : Clock) (fp : Fingerprint) (conn : ℕ) (sm : SessionManager)
      → is_trusted fp sm.trust ≡ true
      → complete_pairing hash_code fallback_name clock fp conn sm ≡ (sm, [])
  unfolding complete_pairing complete_pairing_core
  complete_pairing-known clock fp conn sm known =
      let core : complete_pairing_core hash_code fallback_name clock fp sm ≡ (sm, none) =
        rw known refl in
      rw (core, complete_pairing) (ap (λ r. (r.0, [])) core)

  pub complete_pairing-new :
      (clock : Clock) (fp : Fingerprint) (conn : ℕ) (sm : SessionManager)
      → is_trusted fp sm.trust ≡ false
      → (complete_pairing hash_code fallback_name clock fp conn sm).0
        ≡ record (end_pairing hash_code fallback_name fp sm).0 {
          trust = upsert (paired clock fp sm) (end_pairing hash_code fallback_name fp sm).0.trust;
        }
  unfolding complete_pairing complete_pairing_core paired
  complete_pairing-new clock fp conn sm new =
      let ended = end_pairing hash_code fallback_name fp sm in
      let core : complete_pairing_core hash_code fallback_name clock fp sm
          ≡ (record ended.0 { trust = upsert (paired clock fp sm) ended.0.trust }, some ended.1) =
        rw new refl in
      rw (core, complete_pairing) (ap (λ r. r.0) core)

  complete_pairing-trusts :
      (clock : Clock) (fp : Fingerprint) (conn : ℕ) (sm : SessionManager)
      → is_trusted fp (complete_pairing hash_code fallback_name clock fp conn sm).0.trust ≡ true
  unfolding paired
  complete_pairing-trusts clock fp conn sm = elim (Bool-cases (is_trusted fp sm.trust)) [
    | inl known ↦ rw (complete_pairing-known clock fp conn sm known) known
    | inr new ↦
        let peers = (end_pairing hash_code fallback_name fp sm).0.trust in
        rw (complete_pairing-new clock fp conn sm new)
          (is_trusted-upsert (paired clock fp sm) peers)
  ]

  -- Whatever the state of its session, and whether or not the user has agreed to anything, a device
  -- that sends the message that its own user's code was right is trusted from then on.
  pub on_message-pair_result :
      (clock : Clock) (fp : Fingerprint) (conn : ℕ) (flags : Flags) (sm : SessionManager)
      → is_trusted fp
          (on_message hash_code fallback_name clock fp conn (pair_result true) flags sm).sm.trust
        ≡ true
  unfolding on_message on_pair_result go_on
  on_message-pair_result clock fp conn flags sm = complete_pairing-trusts clock fp conn sm

  -- The two messages that can complete a pairing.
  abbrev pub completes : ControlMsg → Bool
  completes (pair_code_submit _) = true
  completes (pair_result true) = true
  completes _ = false

  pub completes-cases :
      (msg : ControlMsg)
      → ((msg ≡ pair_result true) ⊎ ((code : String) × (msg ≡ pair_code_submit code)))
        ⊎ (completes msg ≡ false)
  completes-cases (pair_result true) = inl (inl refl)
  completes-cases (pair_code_submit code) = inl (inr (code, refl))
  completes-cases msg = inr refl

  pub on_message-untrusted :
      (clock : Clock) (fp : Fingerprint) (conn : ℕ) (msg : ControlMsg) (flags : Flags)
      (sm : SessionManager)
      → completes msg ≡ false
      → is_trusted fp sm.trust ≡ false
      → is_trusted fp (on_message hash_code fallback_name clock fp conn msg flags sm).sm.trust
        ≡ false
  unfolding on_message on_inbound on_signal on_answer on_pair_result on_trust_broken deliver go_on
      stop
  on_message-untrusted clock fp conn msg flags sm other new =
      ground (arith, is_trusted-remove fp sm.trust new)

  -- A consent was given for the session of a device, and the message has a code with the hash that the
  -- session keeps.
  unfoldable RightCode : Fingerprint → ControlMsg → SessionManager → Type 0
  RightCode fp msg sm =
      (code : String) × (s : Session) × (hint : Option String) × (pm : PairingMachine) × (msg
        ≡ pair_code_submit code)
      × (session_of fp sm ≡ some s)
      × (s.consent ≡ granted hint)
      × (s.pairing ≡ some pm)
      × (verify_code hash_code code pm.code_hash ≡ true)

  judge_with-trusts :
      (clock : Clock) (fp : Fingerprint) (conn : ℕ) (code : String) (s : Session)
      (pm : PairingMachine) (flags : Flags) (sm : SessionManager)
      → is_trusted fp sm.trust ≡ false
      → is_trusted fp
          (on_outcome hash_code fallback_name clock fp conn flags
            (judge_with hash_code fallback_name fp code s pm sm)).sm.trust
        ≡ true
      → verify_code hash_code code pm.code_hash ≡ true
  unfolding on_outcome judge_with submit_remote put_session go_on stop record_cooldown failed_out
  judge_with-trusts clock fp conn code s pm flags sm new now =
      elim (Bool-cases (verify_code hash_code code pm.code_hash)) [
        | inl right ↦ right
        | inr wrong ↦ ground arith
      ]

  code_submitted-trusts :
      (clock : Clock) (fp : Fingerprint) (conn : ℕ) (code : String) (flags : Flags)
      (sm : SessionManager)
      → is_trusted fp sm.trust ≡ false
      → is_trusted fp
          (on_outcome hash_code fallback_name clock fp conn flags
            (code_submitted hash_code fallback_name fp code sm)).sm.trust
        ≡ true
      → RightCode fp (pair_code_submit code) sm
  unfolding code_submitted judge_session RightCode on_outcome go_on put_session
  code_submitted-trusts clock fp conn code flags sm new now =
      elim (Option-cases (session_of fp sm)) [
        | inl e ↦ absurd (ground arith)
        | inr (s, e) ↦ elim (consent-cases s.consent) [
          | inl (d, p, c) ↦ absurd (ground arith)
          | inr (inl c) ↦ absurd (ground arith)
          | inr (inr (hint, c)) ↦ elim (Option-cases s.pairing) [
            | inl p ↦ absurd (ground arith)
            | inr (pm, p) ↦
                let judged : code_submitted hash_code fallback_name fp code sm
                    ≡ judge_with hash_code fallback_name fp code s pm sm =
                  ground arith in
                (
                  code,
                  s,
                  hint,
                  pm,
                  refl,
                  e,
                  c,
                  p,
                  judge_with-trusts clock fp conn code s pm flags sm new (rw judged at now),
                )
          ]
        ]
      ]

  -- A message by which a device becomes trusted that was not before is either its word that its own
  -- user entered the right code, or a code with the hash that its session keeps, after consent.
  on_message-trusts :
      (clock : Clock) (fp : Fingerprint) (conn : ℕ) (msg : ControlMsg) (flags : Flags)
      (sm : SessionManager)
      → is_trusted fp sm.trust ≡ false
      → is_trusted fp (on_message hash_code fallback_name clock fp conn msg flags sm).sm.trust
        ≡ true
      → (msg ≡ pair_result true) ⊎ RightCode fp msg sm
  unfolding on_message
  on_message-trusts clock fp conn msg flags sm new now = elim (completes-cases msg) [
    | inl (inl e) ↦ inl e
    | inl (inr (code, e)) ↦
        let by_code = code_submitted-trusts clock fp conn code flags sm new in
        let claim : ControlMsg → Type 0 = λ m.
          is_trusted fp (on_message hash_code fallback_name clock fp conn m flags sm).sm.trust
            ≡ true
          → RightCode fp m sm in
        inr (subst claim (sym e) by_code now)
    | inr other ↦ absurd (ground (arith, on_message-untrusted clock fp conn msg flags sm other new))
  ]
