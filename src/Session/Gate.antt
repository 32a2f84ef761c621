-- ===== src/Session/Gate.antt =====
-- crates/localtrans-core/src/session.rs: what the user of a device that is connected to decides on a
-- pairing, and what happens to a code. The code that `grant_consent` draws is an argument.
use localtrans.Base.{
  ℕ, Bool, true, false, Option, none, some, List, [], ◌∷◌, String, Bytes, if◌then◌else◌, ◌==◌,
  Result, ok, err,
}
use localtrans.Relay.Proto.{Fingerprint}
use localtrans.Protocol.{consent_grant, consent_deny, consent_cancel, pair_code_submit, goodbye}
use localtrans.Identity.{TrustedPeer, default_perms, is_trusted, upsert}
use localtrans.Session.Pairing.{
  PairingMachine, new, submit_remote, failed_out, PairOutcome, mismatch, fails_out, matched,
  not_pairing, awaiting_consent, granted, initiator, Session, pairing_code_shown, pairing_result,
  session_up, SessionError, pairing_error, SessionManager, Effect, queue, emit, close, Clock,
  session_of, put_session, drop_session, unwrap_or, record_cooldown,
}

-- How `ctrl_send.send`, with its limit of five seconds, can end.
pub data Handed : Type 0 where
  handed timed_out closed : Handed

unfoldable pub no_session : SessionError
no_session = pairing_error "会话不存在"

-- The rest of an operation after its message is handed over.
unfoldable pub after_hand {ℓ} :
    {A : Type ℓ}
    → A
    → Handed
    → SessionManager × List Effect
    → SessionManager
    → Result SessionError A × SessionManager × List Effect
after_hand a handed (next, effects) sm = (ok a, next, effects)
after_hand a timed_out next sm = (err (pairing_error "控制流发送超时"), sm, [])
after_hand a closed next sm = (err (pairing_error "控制流已关闭"), sm, [])

-- `submit_pair_code`
unfoldable pub submit_pair_code :
    Fingerprint
    → String
    → Handed
    → SessionManager
    → Result SessionError Bool × SessionManager × List Effect
unfolding session_of no_session after_hand
submit_pair_code fp code hand sm = elim (session_of fp sm) [
  | none ↦ (err no_session, sm, [])
  | some s ↦ elim s.consent [
    | initiator ↦ after_hand true hand (sm, queue fp (pair_code_submit code) ∷ []) sm
    | awaiting_consent _ _ ↦ (err (pairing_error "本机为接受方,无输码入口"), sm, [])
    | granted _ ↦ (err (pairing_error "本机为接受方,无输码入口"), sm, [])
  ]
]

-- `disconnect`
unfoldable pub disconnect : Fingerprint → SessionManager → SessionManager × List Effect
unfolding session_of drop_session
disconnect fp sm = elim (session_of fp sm) [
  | none ↦ (sm, [])
  | some s ↦ (drop_session fp sm, queue fp goodbye ∷ close s.conn_id "Goodbye" ∷ [])
]

-- The end of the time for consent, for the session of a generation.
unfoldable pub consent_timeout : Fingerprint → ℕ → SessionManager → SessionManager × List Effect
unfolding session_of drop_session
consent_timeout fp generation sm = elim (session_of fp sm) [
  | none ↦ (sm, [])
  | some s ↦ elim s.consent [
    | awaiting_consent _ _ ↦
        if s.generation == generation
        then (
          drop_session fp sm,
          close s.conn_id "consent timeout" ∷ emit (pairing_result fp false (some "同意超时")) ∷ [],
        )
        else (sm, [])
    | granted _ ↦ (sm, [])
    | initiator ↦ (sm, [])
  ]
]

module _ (hash_code : String → Bytes) (fallback_name : Fingerprint → String) where
  unfoldable pub judge_with :
      Fingerprint
      → String
      → Session
      → PairingMachine
      → SessionManager
      → SessionManager × PairOutcome
  unfolding submit_remote failed_out put_session
  judge_with fp code s pm sm =
      let judged = submit_remote hash_code code pm in
      (
        put_session fp (record s { pairing = some judged.0 }) sm,
        if judged.1 then matched else if failed_out judged.0 then fails_out else mismatch,
      )

  unfoldable pub judge_session :
      Fingerprint → String → Session → SessionManager → SessionManager × PairOutcome
  unfolding judge_with
  judge_session fp code s sm = elim s.pairing [
    | none ↦ (sm, not_pairing)
    | some pm ↦ judge_with fp code s pm sm
  ]

  unfoldable pub judge_code : Fingerprint → String → SessionManager → SessionManager × PairOutcome
  unfolding judge_session session_of
  judge_code fp code sm = elim (session_of fp sm) [
    | none ↦ (sm, not_pairing)
    | some s ↦ judge_session fp code s sm
  ]

  -- A code that comes from the peer: it waits for consent, or is judged.
  unfoldable pub code_submitted :
      Fingerprint → String → SessionManager → SessionManager × PairOutcome
  unfolding judge_session session_of put_session
  code_submitted fp code sm = elim (session_of fp sm) [
    | none ↦ (sm, not_pairing)
    | some s ↦ elim s.consent [
      | initiator ↦ (sm, not_pairing)
      | awaiting_consent deadline _ ↦ (
        put_session fp (record s { consent = awaiting_consent deadline (some code) }) sm,
        not_pairing,
      )
      | granted _ ↦ judge_session fp code s sm
    ]
  ]

  -- The name of the peer, taken from its session, whose pairing ends.
  unfoldable pub end_pairing : Fingerprint → SessionManager → SessionManager × String
  unfolding session_of put_session unwrap_or
  end_pairing fp sm = elim (session_of fp sm) [
    | none ↦ (sm, fallback_name fp)
    | some s ↦ (put_session fp (record s { pairing = none }) sm, unwrap_or s.peer_name "")
  ]

  unfoldable pub complete_pairing_core :
      Clock → Fingerprint → SessionManager → SessionManager × Option String
  unfolding end_pairing is_trusted upsert
  complete_pairing_core clock fp sm =
      let ended = end_pairing fp sm in
      let peer : TrustedPeer = record {
        fingerprint = fp;
        name = ended.1;
        alias = "";
        paired_at = clock.unix;
        perms = default_perms;
      } in
      if is_trusted fp sm.trust
      then (sm, none)
      else (record ended.0 { trust = upsert peer ended.0.trust }, some ended.1)

  -- What a completed pairing does, with its events; nothing the second time.
  unfoldable pub complete_pairing :
      Clock → Fingerprint → ℕ → SessionManager → SessionManager × List Effect
  unfolding complete_pairing_core
  complete_pairing clock fp conn sm =
      let done = complete_pairing_core clock fp sm in
      elim done.1 [
        | none ↦ (done.0, [])
        | some name ↦
            (done.0, emit (session_up fp name conn) ∷ emit (pairing_result fp true none) ∷ [])
      ]

  unfoldable pub on_release :
      Clock → Fingerprint → ℕ → SessionManager × PairOutcome → SessionManager × List Effect
  unfolding complete_pairing record_cooldown disconnect
  on_release clock fp conn (sm, matched) = complete_pairing clock fp conn sm
  on_release clock fp conn (sm, fails_out) =
      let gone = disconnect fp (record_cooldown clock.instant fp sm) in
      (gone.0, emit (pairing_result fp false (some "配对码错误超过 3 次")) ∷ gone.1)
  on_release clock fp conn (sm, mismatch) =
      (sm, emit (pairing_result fp false (some "配对码不匹配")) ∷ [])
  on_release clock fp conn (sm, not_pairing) = (sm, [])

  -- A code that has come before the consent is judged, once.
  unfoldable pub try_release_pending :
      Clock → Fingerprint → ℕ → SessionManager → SessionManager × List Effect
  unfolding session_of put_session judge_code on_release
  try_release_pending clock fp conn sm = elim (session_of fp sm) [
    | none ↦ (sm, [])
    | some s ↦ elim s.consent [
      | granted pending ↦
          let taken = put_session fp (record s { consent = granted none }) sm in
          elim pending [
            | none ↦ (taken, [])
            | some code ↦ on_release clock fp conn (judge_code fp code taken)
          ]
      | awaiting_consent _ _ ↦ (sm, [])
      | initiator ↦ (sm, [])
    ]
  ]

  -- `grant_consent` with the code it draws and the name of this device.
  unfoldable pub grant_consent :
      Clock
      → Fingerprint
      → String
      → String
      → Handed
      → SessionManager
      → Result SessionError String × SessionManager × List Effect
  unfolding session_of put_session new try_release_pending after_hand no_session
  grant_consent clock fp code name hand sm = elim (session_of fp sm) [
    | none ↦ (err no_session, sm, [])
    | some s ↦ elim s.consent [
      | awaiting_consent _ pending ↦
          let opened =
            put_session fp
              (record s { pairing = some (new (hash_code code)); consent = granted pending }) sm in
          let released = try_release_pending clock fp s.conn_id opened in
          after_hand code hand
            (
              released.0,
              queue fp (consent_grant name) ∷ emit (pairing_code_shown fp code) ∷ released.1,
            )
            opened
      | granted _ ↦ (err (pairing_error "会话不处于待同意状态"), sm, [])
      | initiator ↦ (err (pairing_error "会话不处于待同意状态"), sm, [])
    ]
  ]

-- `deny_consent`
unfoldable pub deny_consent :
    Fingerprint
    → Handed
    → SessionManager
    → Result SessionError (Unit {0}) × SessionManager × List Effect
unfolding session_of after_hand no_session
deny_consent fp hand sm = elim (session_of fp sm) [
  | none ↦ (err no_session, sm, [])
  | some s ↦ elim s.consent [
    | awaiting_consent _ _ ↦
        let told = emit (pairing_result fp false (some "已拒绝对方连接")) in
        after_hand tt hand (sm, queue fp consent_deny ∷ told ∷ []) sm
    | granted _ ↦ (err (pairing_error "会话不处于待同意状态"), sm, [])
    | initiator ↦ (err (pairing_error "会话不处于待同意状态"), sm, [])
  ]
]

-- `cancel_wait`
unfoldable pub cancel_wait :
    Fingerprint
    → Handed
    → SessionManager
    → Result SessionError (Unit {0}) × SessionManager × List Effect
unfolding session_of after_hand no_session
cancel_wait fp hand sm = elim (session_of fp sm) [
  | none ↦ (err no_session, sm, [])
  | some s ↦ elim s.consent [
    | granted _ ↦
        let told = emit (pairing_result fp false (some "已结束等待")) in
        after_hand tt hand (sm, queue fp consent_cancel ∷ told ∷ []) sm
    | awaiting_consent _ _ ↦ (err (pairing_error "会话不处于已同意状态"), sm, [])
    | initiator ↦ (err (pairing_error "会话不处于已同意状态"), sm, [])
  ]
]
