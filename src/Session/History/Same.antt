-- ===== src/Session/History/Same.antt =====
-- crates/localtrans-core/src/session.rs: the end of a session, for one device, leaves the session and
-- the trust of every other device as they are.
use localtrans.Base.{
  ℕ, ◌≡◌, ◌≢◌, refl, ◌∙◌, inl, inr, none, some, [], ◌∷◌, Bytes-discrete, arith, Option-cases, ite,
}
use localtrans.Base.Maps.{get-insert, get-remove}
use localtrans.Relay.Proto.{Fingerprint}
use localtrans.Identity as Identity
use localtrans.Identity.{TrustedPeer, TrustStore, is_trusted, upsert}
use localtrans.Session.Pairing.{Session, SessionManager, session_of, put_session, drop_session}
use localtrans.Session.Gate.{disconnect, consent_timeout}
use localtrans.Session.Control.{Flags, end_loop}

pub session_of-put_session :
    (k j : Fingerprint) (s : Session) (sm : SessionManager)
    → session_of j (put_session k s sm) ≡ ite (Bytes-discrete k j) (some s) (session_of j sm)
unfolding session_of put_session
session_of-put_session k j s sm = get-insert Bytes-discrete k j s sm.sessions

pub session_of-drop_session :
    (k j : Fingerprint) (sm : SessionManager)
    → session_of j (drop_session k sm) ≡ ite (Bytes-discrete k j) none (session_of j sm)
unfolding session_of drop_session
session_of-drop_session k j sm = get-remove Bytes-discrete k j sm.sessions

pub is_trusted-upsert_other :
    (fp : Fingerprint) (p : TrustedPeer) (s : TrustStore)
    → p.fingerprint ≢ fp
    → is_trusted fp (upsert p s) ≡ is_trusted fp s
unfolding is_trusted upsert
is_trusted-upsert_other fp p [] apart = ground arith
is_trusted-upsert_other fp p (q ∷ s) apart = ground (arith, is_trusted-upsert_other fp p s apart)

pub is_trusted-remove_other :
    (k fp : Fingerprint) (s : TrustStore)
    → k ≢ fp
    → is_trusted fp (Identity.remove k s).0 ≡ is_trusted fp s
unfolding is_trusted Identity.remove
is_trusted-remove_other k fp [] apart = refl
is_trusted-remove_other k fp (q ∷ s) apart = ground (arith, is_trusted-remove_other k fp s apart)

-- The session and the trust of a device are the same.
abbrev pub Same : Fingerprint → SessionManager → SessionManager → Type 0
Same fp sm next =
    (session_of fp next ≡ session_of fp sm) × (is_trusted fp next.trust ≡ is_trusted fp sm.trust)

pub Same-trans :
    (fp : Fingerprint) (a b c : SessionManager) → Same fp a b → Same fp b c → Same fp a c
Same-trans fp a b c first second = (second.0 ∙ first.0, second.1 ∙ first.1)

pub put_session-Same :
    (k fp : Fingerprint) (s : Session) (sm : SessionManager)
    → k ≢ fp
    → Same fp sm (put_session k s sm)
unfolding put_session
put_session-Same k fp s sm apart = (ground (arith, session_of-put_session k fp s sm), refl)

drop_session-Same :
    (k fp : Fingerprint) (sm : SessionManager) → k ≢ fp → Same fp sm (drop_session k sm)
unfolding drop_session
drop_session-Same k fp sm apart = (ground (arith, session_of-drop_session k fp sm), refl)

pub disconnect-Same :
    (k fp : Fingerprint) (sm : SessionManager) → k ≢ fp → Same fp sm (disconnect k sm).0
unfolding disconnect
disconnect-Same k fp sm apart = elim (Option-cases (session_of k sm)) [
  | inl e ↦ ground arith
  | inr (s, e) ↦ ground (arith, drop_session-Same k fp sm apart)
]

pub consent_timeout-Same :
    (k fp : Fingerprint) (generation : ℕ) (sm : SessionManager)
    → k ≢ fp
    → Same fp sm (consent_timeout k generation sm).0
unfolding consent_timeout
consent_timeout-Same k fp generation sm apart = elim (Option-cases (session_of k sm)) [
  | inl e ↦ ground arith
  | inr (s, e) ↦ ground (arith, drop_session-Same k fp sm apart)
]

pub end_loop-Same :
    (k fp : Fingerprint) (conn : ℕ) (flags : Flags) (sm : SessionManager)
    → k ≢ fp
    → Same fp sm (end_loop k conn flags sm).0
unfolding end_loop
end_loop-Same k fp conn flags sm apart = ground (arith, drop_session-Same k fp sm apart)
