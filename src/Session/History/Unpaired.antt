-- ===== src/Session/History/Unpaired.antt =====
-- crates/localtrans-core/src/session.rs: a device that is not trusted, and for which no code was shown,
-- when it connects and when its session ends.
use localtrans.Base.{
  ℕ, ◌+◌, ◌≡◌, ◌≢◌, refl, sym, subst, ◌∙◌, inl, inr, true, false, Option, none, some, List, String,
  Bytes-discrete, arith, Option-cases,
}
use localtrans.Base.Maps.{get-insert}
use localtrans.Relay.Proto.{Fingerprint}
use localtrans.Protocol.{pair_result}
use localtrans.Identity.{is_trusted}
use localtrans.Session.Pairing.{
  PairingMachine, SessionManager, Effect, ConsentState, awaiting_consent, session_of, put_session,
  check_cooldown, drop_session,
}
use localtrans.Session.Gate.{
  Handed, handed, timed_out, closed, submit_pair_code, deny_consent, cancel_wait, after_hand,
  disconnect, consent_timeout,
}
use localtrans.Session.Incoming.{insert_session, handle_incoming}
use localtrans.Session.Control.{Flags, end_loop}
use localtrans.Session.History.{Action, message, grant}
use localtrans.Session.History.Same.{Same, session_of-drop_session}

-- What is judged when a code of the device comes.
unfoldable pub code_of : Fingerprint → SessionManager → Option PairingMachine
unfolding session_of
code_of fp sm = elim (session_of fp sm) [ none ↦ none | some s ↦ s.pairing ]

-- The device is not trusted, and no code was shown for it.
abbrev pub Quiet : Fingerprint → SessionManager → Type 0
Quiet fp sm = (code_of fp sm ≡ none) × (is_trusted fp sm.trust ≡ false)

-- Neither the consent of the user to a connection of the device nor its word that the code was right.
abbrev pub Unagreed : Fingerprint → Action → Type 0
Unagreed fp (grant _ k _ _ _) = k ≢ fp
Unagreed fp (message _ k _ (pair_result true) _) = k ≢ fp
Unagreed fp _ = Unit

pub Same-Quiet :
    (fp : Fingerprint) (sm next : SessionManager) → Same fp sm next → Quiet fp sm → Quiet fp next
unfolding code_of
Same-Quiet fp sm next same quiet = (ground (arith, same.0, quiet.0), same.1 ∙ quiet.1)

drop_session-Quiet :
    (fp : Fingerprint) (sm : SessionManager) → Quiet fp sm → Quiet fp (drop_session fp sm)
unfolding drop_session code_of
drop_session-Quiet fp sm quiet = (ground (arith, session_of-drop_session fp fp sm), quiet.1)

pub insert_session-Quiet :
    (fp : Fingerprint) (conn : ℕ) (name : String) (consent : ConsentState) (sm : SessionManager)
    → is_trusted fp sm.trust ≡ false
    → Quiet fp (insert_session fp conn name consent sm)
unfolding insert_session put_session code_of session_of
insert_session-Quiet fp conn name consent sm new = (
  ground (
    arith,
    get-insert Bytes-discrete fp fp
        (record {
          conn_id = conn;
          pairing = none;
          peer_name = some name;
          consent = consent;
          generation = sm.generation_counter;
        })
        sm.sessions,
  ),
  new,
)

pub disconnect-Quiet :
    (fp : Fingerprint) (sm : SessionManager) → Quiet fp sm → Quiet fp (disconnect fp sm).0
unfolding disconnect
disconnect-Quiet fp sm quiet = elim (Option-cases (session_of fp sm)) [
  | inl e ↦ ground arith
  | inr (s, e) ↦ ground (arith, drop_session-Quiet fp sm quiet)
]

pub consent_timeout-Quiet :
    (fp : Fingerprint) (generation : ℕ) (sm : SessionManager)
    → Quiet fp sm
    → Quiet fp (consent_timeout fp generation sm).0
unfolding consent_timeout
consent_timeout-Quiet fp generation sm quiet = elim (Option-cases (session_of fp sm)) [
  | inl e ↦ ground arith
  | inr (s, e) ↦ ground (arith, drop_session-Quiet fp sm quiet)
]

pub end_loop-Quiet :
    (fp : Fingerprint) (conn : ℕ) (flags : Flags) (sm : SessionManager)
    → Quiet fp sm
    → Quiet fp (end_loop fp conn flags sm).0
unfolding end_loop
end_loop-Quiet fp conn flags sm quiet = ground (arith, drop_session-Quiet fp sm quiet)

pub handle_incoming-Quiet :
    (now time : ℕ) (fp : Fingerprint) (conn : ℕ) (name : String) (sm : SessionManager)
    → Quiet fp sm
    → Quiet fp (handle_incoming now time fp conn name sm).0
unfolding handle_incoming check_cooldown code_of session_of
handle_incoming-Quiet now time fp conn name sm quiet =
    let live = (check_cooldown now fp sm).0 in
    let asked =
      insert_session-Quiet fp conn name (awaiting_consent (now + time) none) live quiet.1 in
    ground (arith, asked)

after_hand-sm {ℓ} :
    {A : Type ℓ} (a : A) (h : Handed) (effects : List Effect) (sm : SessionManager)
    → (after_hand a h (sm, effects) sm).1 ≡ sm
unfolding after_hand
after_hand-sm a handed effects sm = refl
after_hand-sm a timed_out effects sm = refl
after_hand-sm a closed effects sm = refl

pub submit_pair_code-sm :
    (fp : Fingerprint) (code : String) (h : Handed) (sm : SessionManager)
    → (submit_pair_code fp code h sm).1 ≡ sm
unfolding submit_pair_code after_hand
submit_pair_code-sm fp code h sm = ground arith

pub deny_consent-sm :
    (fp : Fingerprint) (h : Handed) (sm : SessionManager) → (deny_consent fp h sm).1 ≡ sm
unfolding deny_consent after_hand
deny_consent-sm fp h sm = ground arith

pub cancel_wait-sm :
    (fp : Fingerprint) (h : Handed) (sm : SessionManager) → (cancel_wait fp h sm).1 ≡ sm
unfolding cancel_wait after_hand
cancel_wait-sm fp h sm = ground arith

-- The device itself, or another one that leaves it as it is.
pub either_device :
    (fp k : Fingerprint) (sm : SessionManager) (next : Fingerprint → SessionManager)
    → Quiet fp sm
    → Quiet fp (next fp)
    → (k ≢ fp → Same fp sm (next k))
    → Quiet fp (next k)
either_device fp k sm next quiet own other = elim (Bytes-discrete k fp) [
  | yes e ↦ subst (λ j. Quiet fp (next j)) (sym e) own
  | no apart ↦ Same-Quiet fp sm (next k) (other apart) quiet
]
