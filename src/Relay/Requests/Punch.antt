-- ===== src/Relay/Requests/Punch.antt =====
-- crates/localtrans-relay/src/control.rs: what the two sides of a punch learn.
use localtrans.Base.{
  ℕ, ◌≤◌, ◌<◌, ◌≡◌, ◌⊎◌, ◌||◌, true, false, none, some, List, [], ◌∷◌, String, arith, inl, inr,
  is_some, length, Bytes-discrete, if◌then◌else◌,
}
use localtrans.Base.Maps.{get}
use localtrans.Relay.Proto.{Fingerprint, RelayMsg}
use localtrans.Relay.Lease.{is_hidden, session_members_of, is_session_port, port_owner}
use localtrans.Relay.Control.{
  RelayServer, CtrlConn, Effect, pushes, closes, Reaches, push_guarded, find_conn, within, times_of,
}
use localtrans.Relay.Control.Pushes.{conn_of}
use localtrans.Relay.Requests.{Outside, handle_punch}

module _ (out : Outside) (reaches : Reaches) (s : RelayServer) (conn_id : ℕ)
    (from target : Fingerprint) (cc : CtrlConn) (now : ℕ) where
  -- A punch to a device that hides itself has the same outcome, answer and state, as a punch to one
  -- that is not connected.
  handle_punch-unreachable :
      find_conn conn_id s.conns ≡ some (from, cc)
      → get Bytes-discrete from s.conns ≡ some cc
      → (is_hidden s.leases target ≡ true) ⊎ (get Bytes-discrete target s.conns ≡ none)
      → handle_punch out reaches s conn_id target now
        ≡ push_guarded reaches s from cc (RelayMsg.punch_resp false (some "对方当前不可达") none)
  unfolding handle_punch
  handle_punch-unreachable known there (inl h) = ground arith
  handle_punch-unreachable known there (inr h) = ground arith

  -- How a push ends.
  abbrev pub told : CtrlConn → RelayMsg → Effect
  told c msg = if reaches.arrives c.conn_id msg then pushes c.conn_id msg else closes c.conn_id

  -- Why two devices are not brought together.
  abbrev pub Unmet : Type 0
  Unmet =
      (is_hidden s.leases target ≡ true)
      ⊎ ((conn_of s target ≡ none)
          ⊎ ((10 ≤ length (within now 60000 (times_of s from)))
              ⊎ ((p : ℕ)
                  → s.leases.port_start ≤ p
                  → p < s.leases.port_end
                  → (is_some (port_owner s.leases p) || is_session_port s.leases p) ≡ true)))

  abbrev pub Refusal : RelayServer → List Effect → Type 0
  Refusal s' effects =
      Unmet
      × (s'.leases.session_members ≡ s.leases.session_members)
      × (reason : String) × (effects ≡ told cc (RelayMsg.punch_resp false (some reason) none) ∷ [])

  abbrev pub Introduction : RelayServer → List Effect → Type 0
  Introduction s' effects =
      (callee : CtrlConn) × (p : ℕ) × (is_hidden s.leases target ≡ false)
      × (conn_of s target ≡ some callee)
      × (length (within now 60000 (times_of s from)) < 10)
      × (port_owner s.leases p ≡ none)
      × (is_session_port s.leases p ≡ false)
      × (is_session_port s'.leases p ≡ true)
      × (session_members_of s'.leases p ≡ some (from, target))
      × (effects
          ≡ told callee (RelayMsg.punch_notif from (record { ip = s.config.public_ip; port = p }))
            ∷ told cc (
                RelayMsg.punch_resp true none
                  (some (out.to_string (record { ip = s.config.public_ip; port = p }))))
            ∷ [])

  abbrev Answered : RelayServer × List Effect → Type 0
  Answered r = Refusal r.0 r.1 ⊎ Introduction r.0 r.1
