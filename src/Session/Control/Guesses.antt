-- ===== src/Session/Control/Guesses.antt =====
-- crates/localtrans-core/src/session.rs and pairing.rs: how many codes a device may try.
use localtrans.Base.{
  ℕ, ◌+◌, ◌%◌, ◌<◌, ◌≡◌, refl, ap, ◌∙◌, Bool, true, false, Option, some, List, [], ◌∷◌, String,
  Bytes, if◌then◌else◌, leb, Bytes-discrete, arith, is_some,
}
use localtrans.Base.Maps.{get, insert, retain, get-insert}
use localtrans.Relay.Proto.{Fingerprint}
use localtrans.Protocol.{ControlMsg, pair_code_submit, pair_result}
use localtrans.Session.Pairing.{
  mismatch, fails_out, granted, PairingMachine, Session, SessionManager, Clock, session_of,
  put_session, submit_remote, verify_code, failed_out, Effect, send, emit, pairing_result,
  record_cooldown, check_cooldown, cooldown_time,
}
use localtrans.Session.Gate.{judge_with, judge_session, code_submitted}
use localtrans.Session.Control.{Flags, go_on, stop, on_outcome, on_message, on_messages}

module _ (hash_code : String → Bytes) (fallback_name : Fingerprint → String) where
  -- A code was judged for the session: it has a machine with a number of failures.
  unfoldable pub Judging : Fingerprint → Bytes → ℕ → SessionManager → Type 0
  Judging fp code_hash fails sm =
      (s : Session) × (hint : Option String) × (pm : PairingMachine) × (session_of fp sm ≡ some s)
      × (s.consent ≡ granted hint)
      × (s.pairing ≡ some pm)
      × (pm.code_hash ≡ code_hash)
      × (pm.fails ≡ fails)

  missed : Session → PairingMachine → Session
  missed s pm = record s { pairing = some (record pm { fails = (pm.fails + 1) % 256 }) }

  submit_remote-wrong :
      (code : String) (pm : PairingMachine)
      → verify_code hash_code code pm.code_hash ≡ false
      → submit_remote hash_code code pm ≡ (record pm { fails = (pm.fails + 1) % 256 }, false)
  unfolding submit_remote
  submit_remote-wrong code pm wrong = rw wrong refl

  code_submitted-wrong :
      (fp : Fingerprint) (code : String) (s : Session) (hint : Option String) (pm : PairingMachine)
      (sm : SessionManager)
      → session_of fp sm ≡ some s
      → s.consent ≡ granted hint
      → s.pairing ≡ some pm
      → verify_code hash_code code pm.code_hash ≡ false
      → code_submitted hash_code fallback_name fp code sm ≡ (
        put_session fp (missed s pm) sm,
        if leb 3 ((pm.fails + 1) % 256) then fails_out else mismatch,
      )
  unfolding code_submitted judge_session judge_with missed failed_out
  code_submitted-wrong fp code s hint pm sm e c p wrong =
      let tried = submit_remote-wrong code pm wrong in
      ground (arith, tried, ap (λ r. r.0) tried, ap (λ r. r.1) tried)

  Judging-missed :
      (fp code_hash : Bytes) (fails : ℕ) (s : Session) (hint : Option String) (pm : PairingMachine)
      (sm : SessionManager)
      → s.consent ≡ granted hint
      → pm.code_hash ≡ code_hash
      → pm.fails ≡ fails
      → fails < 3
      → Judging fp code_hash (fails + 1) (put_session fp (missed s pm) sm)
  unfolding Judging missed put_session session_of
  Judging-missed fp code_hash fails s hint pm sm c h f few = (
    missed s pm,
    hint,
    record pm { fails = (pm.fails + 1) % 256 },
    ground (arith, get-insert Bytes-discrete fp fp (missed s pm) sm.sessions),
    c,
    refl,
    h,
    omega arith,
  )

  on_messages-go_on :
      (clock : Clock) (fp : Fingerprint) (conn : ℕ) (msg : ControlMsg) (flags next : Flags)
      (sm sm2 : SessionManager) (effects : List Effect) (msgs : List (Clock × ControlMsg))
      → on_message hash_code fallback_name clock fp conn msg flags sm ≡ go_on next sm2 effects
      → ((on_messages hash_code fallback_name fp conn flags sm ((clock, msg) ∷ msgs)).goes_on
          ≡ (on_messages hash_code fallback_name fp conn next sm2 msgs).goes_on)
        × ((on_messages hash_code fallback_name fp conn flags sm ((clock, msg) ∷ msgs)).sm
            ≡ (on_messages hash_code fallback_name fp conn next sm2 msgs).sm)
  unfolding on_messages go_on
  on_messages-go_on clock fp conn msg flags next sm sm2 effects msgs e =
      (rw (e, on_messages) refl, rw (e, on_messages) refl)

  on_messages-stop :
      (clock : Clock) (fp : Fingerprint) (conn : ℕ) (msg : ControlMsg) (flags next : Flags)
      (sm sm2 : SessionManager) (effects : List Effect) (msgs : List (Clock × ControlMsg))
      → on_message hash_code fallback_name clock fp conn msg flags sm ≡ stop next sm2 effects
      → on_messages hash_code fallback_name fp conn flags sm ((clock, msg) ∷ msgs)
        ≡ stop next sm2 effects
  unfolding on_messages stop
  on_messages-stop clock fp conn msg flags next sm sm2 effects msgs e = rw (e, on_messages) refl

  check_cooldown-record_cooldown :
      (t now : ℕ) (fp : Fingerprint) (sm : SessionManager)
      → now < t + cooldown_time
      → is_some (check_cooldown now fp (record_cooldown t fp sm)).1 ≡ true
  unfolding check_cooldown record_cooldown retain get insert
  check_cooldown-record_cooldown t now fp sm soon = ground arith

  tried :
      Fingerprint → ℕ → Flags → SessionManager → List (Clock × ControlMsg) → Bool × SessionManager
  tried fp conn flags sm msgs =
      let end = on_messages hash_code fallback_name fp conn flags sm msgs in (end.goes_on, end.sm)

  wrong_code :
      (clock : Clock) (fp : Fingerprint) (conn : ℕ) (code : String) (code_hash : Bytes) (fails : ℕ)
      (flags : Flags) (sm : SessionManager) (msgs : List (Clock × ControlMsg))
      → Judging fp code_hash fails sm
      → fails < 2
      → verify_code hash_code code code_hash ≡ false
      → (sm2 : SessionManager) × Judging fp code_hash (fails + 1) sm2
        × (sm2.trust ≡ sm.trust)
        × (tried fp conn flags sm ((clock, pair_code_submit code) ∷ msgs)
            ≡ tried fp conn flags sm2 msgs)
  unfolding Judging tried on_message on_outcome put_session
  wrong_code clock fp conn code code_hash fails flags sm msgs (s, hint, pm, e, c, p, h, f) few
        wrong =
      let wrong2 : verify_code hash_code code pm.code_hash ≡ false = rw h wrong in
      let judged = code_submitted-wrong fp code s hint pm sm e c p wrong2 in
      let next = put_session fp (missed s pm) sm in
      let missed_it : code_submitted hash_code fallback_name fp code sm ≡ (next, mismatch) =
        ground (arith, judged) in
      let run =
        on_messages-go_on clock fp conn (pair_code_submit code) flags flags sm next
          (send (pair_result false) ∷ []) msgs
          (ap (on_outcome hash_code fallback_name clock fp conn flags) missed_it) in
      (
        next,
        Judging-missed fp code_hash fails s hint pm sm c h f (omega (arith, few)),
        refl,
        λ i. (run.0 i, run.1 i),
      )

  last_wrong_code :
      (clock : Clock) (fp : Fingerprint) (conn : ℕ) (code : String) (code_hash : Bytes)
      (flags : Flags) (sm : SessionManager) (msgs : List (Clock × ControlMsg))
      → Judging fp code_hash 2 sm
      → verify_code hash_code code code_hash ≡ false
      → (sm2 : SessionManager) × (sm2.trust ≡ sm.trust)
        × (tried fp conn flags sm ((clock, pair_code_submit code) ∷ msgs)
            ≡ (false, record_cooldown clock.instant fp sm2))
  unfolding Judging tried on_message on_outcome put_session stop
  last_wrong_code clock fp conn code code_hash flags sm msgs (s, hint, pm, e, c, p, h, f) wrong =
      let wrong2 : verify_code hash_code code pm.code_hash ≡ false = rw h wrong in
      let judged = code_submitted-wrong fp code s hint pm sm e c p wrong2 in
      let next = put_session fp (missed s pm) sm in
      let out : code_submitted hash_code fallback_name fp code sm ≡ (next, fails_out) =
        ground (arith, judged) in
      let run =
        on_messages-stop clock fp conn (pair_code_submit code) flags
          (record { failed = true; terminal_result_sent = true }) sm
          (record_cooldown clock.instant fp next)
          (send (pair_result false) ∷ emit (pairing_result fp false (some "配对码错误超过 3 次")) ∷ []) msgs
          (ap (on_outcome hash_code fallback_name clock fp conn flags) out) in
      (next, refl, ap (λ r. (r.goes_on, r.sm)) run)

  -- After consent, three wrong codes of a device, whatever it sends next, end its control stream
  -- without making anybody trusted, and its attempts to connect are refused for five minutes from
  -- the last code.
  pub on_messages-three_wrong :
      (t1 t2 t3 : Clock) (now : ℕ) (fp : Fingerprint) (conn : ℕ) (c1 c2 c3 : String)
      (code_hash : Bytes) (flags : Flags) (sm : SessionManager) (msgs : List (Clock × ControlMsg))
      → Judging fp code_hash 0 sm
      → verify_code hash_code c1 code_hash ≡ false
      → verify_code hash_code c2 code_hash ≡ false
      → verify_code hash_code c3 code_hash ≡ false
      → now < t3.instant + cooldown_time
      → let end = on_messages hash_code fallback_name fp conn flags sm (
          (t1, pair_code_submit c1)
          ∷ (t2, pair_code_submit c2)
          ∷ (t3, pair_code_submit c3)
          ∷ msgs) in
        (end.goes_on ≡ false)
        × (end.sm.trust ≡ sm.trust)
        × (is_some (check_cooldown now fp end.sm).1 ≡ true)
  unfolding tried record_cooldown
  on_messages-three_wrong t1 t2 t3 now fp conn c1 c2 c3 code_hash flags sm msgs start w1 w2 w3
        soon =
      let m3 = (t3, pair_code_submit c3) ∷ msgs in
      let first =
        wrong_code t1 fp conn c1 code_hash 0 flags sm ((t2, pair_code_submit c2) ∷ m3) start
          (omega arith) w1 in
      let second = wrong_code t2 fp conn c2 code_hash 1 flags first.0 m3 first.1 (omega arith) w2 in
      let third = last_wrong_code t3 fp conn c3 code_hash flags second.0 msgs second.1 w3 in
      let run = first.3 ∙ second.3 ∙ third.2 in
      let refused = check_cooldown-record_cooldown t3.instant now fp third.0 soon in
      (
        ap (λ r. r.0) run,
        ap (λ r. r.1.trust) run ∙ third.1 ∙ second.2 ∙ first.2,
        rw (ap (λ r. r.1) run) refused,
      )
