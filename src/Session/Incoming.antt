-- ===== src/Session/Incoming.antt =====
-- crates/localtrans-core/src/session.rs: the session that a connection leads to, on both its sides.
use localtrans.Base.{◌^◌, ◌%◌, ◌+◌, ℕ, none, some, List, [], ◌∷◌, String, if◌then◌else◌}
use localtrans.Relay.Proto.{Fingerprint}
use localtrans.Identity.{is_trusted}
use localtrans.Session.Pairing.{
  awaiting_consent, initiator, ConsentState, session_up, pairing_consent_needed, check_cooldown,
  SessionManager, Effect, emit, close, put_session,
}

-- A session that replaces the one the device may have had.
unfoldable pub insert_session :
    Fingerprint → ℕ → String → ConsentState → SessionManager → SessionManager
unfolding put_session
insert_session fp conn name consent sm =
    put_session fp
      (record {
        conn_id = conn;
        pairing = none;
        peer_name = some name;
        consent = consent;
        generation = sm.generation_counter;
      })
      (record sm { generation_counter = (sm.generation_counter + 1) % 2 ^ 64 })

-- `handle_incoming` for a device whose certificate is known and which has sent its name: refused in its
-- cooldown, and otherwise a session, which waits for consent if the device is not trusted.
unfoldable pub handle_incoming :
    ℕ → ℕ → Fingerprint → ℕ → String → SessionManager → SessionManager × List Effect
unfolding check_cooldown insert_session is_trusted
handle_incoming now consent_time fp conn name sm =
    let checked = check_cooldown now fp sm in
    elim checked.1 [
      | some _ ↦ (checked.0, close conn "cooldown" ∷ [])
      | none ↦
          if is_trusted fp sm.trust
          then (
            insert_session fp conn name initiator checked.0,
            emit (session_up fp name conn) ∷ [],
          )
          else (
            insert_session fp conn name (awaiting_consent (now + consent_time) none) checked.0,
            emit (pairing_consent_needed fp name) ∷ [],
          )
    ]

-- `establish_control_flow`, on the side that connects.
unfoldable pub establish_control_flow : Fingerprint → ℕ → String → SessionManager → SessionManager
unfolding insert_session
establish_control_flow fp conn name sm = insert_session fp conn name initiator sm
