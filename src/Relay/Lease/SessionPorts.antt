-- ===== src/Relay/Lease/SessionPorts.antt =====
-- crates/localtrans-relay/src/lease.rs: how session ports are given out, and to whom they are open.
use localtrans.Base.{
  ℕ, ◌≤◌, ◌<◌, ◌+◌, ◌-◌, ◌%◌, ◌^◌, ◌≡◌, ◌≢◌, ◌↔◌, ◌⊎◌, refl, sym, ◌∙◌, ap, inl, inr, Bool, true,
  false, none, some, [], String, ℕ_discrete, arith, is_some, Option-cases, if◌then◌else◌, ◌||◌,
}
use mathlib.Core.Path.{fun_ext}
use localtrans.Base.Maps.{get, get-insert}
use localtrans.Relay.Proto.{Fingerprint, Token}
use localtrans.Relay.Lease.Ports.{find_port, find_port-some, find_port-none}
use localtrans.Relay.Lease.{
  LeaseTable, lease_of, port_owner, grant_lease, free_port, alloc, free_session_port,
  alloc_session_port, session_members_of, session_member_ok_inner, session_member_ok,
  is_session_port,
}

free_session_port-eq : (t : LeaseTable) → t.session_ports ≡ [] → free_session_port t ≡ free_port t
unfolding free_session_port free_port get
free_session_port-eq t empty =
    ap (λ used. find_port used (t.port_end - t.port_start) t.port_start)
      (fun_ext (λ p. rw empty (or_false (is_some (port_owner t p)))))
  where
    or_false : (b : Bool) → (b || false) ≡ b
    or_false true = refl
    or_false false = refl

module _ (t : LeaseTable) (a b : Fingerprint) (now : ℕ) where
  -- A session port that is given out lies in the range, was neither a lease's nor a session's, and
  -- is open to exactly the two devices; all other ports keep their members.
  pub alloc_session_port-some :
      (p : ℕ)
      → (alloc_session_port t a b now).1 ≡ some p
      → let u = (alloc_session_port t a b now).0 in
        (t.port_start ≤ p)
        × (p < t.port_end)
        × (port_owner t p ≡ none)
        × (is_session_port t p ≡ false)
        × (is_session_port u p ≡ true)
        × (session_members_of u p ≡ some (a, b))
        × ((q : ℕ) → q ≢ p → session_members_of u q ≡ session_members_of t q)
  unfolding alloc_session_port free_session_port is_session_port session_members_of
  alloc_session_port-some p h =
      let free : free_session_port t ≡ some p = ground arith in
      let (lo, hi, unused, _) = find_port-some _ _ _ _ free in
      (
        lo,
        omega arith,
        ground arith,
        ground arith,
        ground (arith, get-insert ℕ_discrete p p tt t.session_ports),
        ground (arith, get-insert ℕ_discrete p p (a, b) t.session_members),
        λ q ne. ground (arith, get-insert ℕ_discrete p q (a, b) t.session_members),
      )

  -- It is refused exactly when every port of the range belongs to a lease or to a session.
  pub alloc_session_port-none_iff : ((alloc_session_port t a b now).1 ≡ none) ↔ (
      (p : ℕ)
      → t.port_start ≤ p
      → p < t.port_end
      → (is_some (port_owner t p) || is_session_port t p) ≡ true)
  unfolding alloc_session_port free_session_port is_session_port
  alloc_session_port-none_iff = (
    λ h p lo hi.
        let full : free_session_port t ≡ none = ground arith in
        find_port-none _ _ _ full p lo (omega arith),
    λ used. elim (Option-cases (free_session_port t)) [
      | inl full ↦ ground arith
      | inr (p, free) ↦
          let (lo, hi, unused, _) = find_port-some _ _ _ _ free in
          absurd (ground (arith, used p lo (omega arith)))
    ],
  )

  -- With no other session port in use, an unregistered device that registers right after a session
  -- port was given out is given that same port as its lease.
  pub alloc_takes_session_port :
      (p : ℕ) (fp : Fingerprint) (name : String) (hidden : Bool) (later : ℕ) (token : Token)
      → t.session_ports ≡ []
      → lease_of t fp ≡ none
      → (alloc_session_port t a b now).1 ≡ some p
      → let u = (alloc_session_port t a b now).0 in
        ((alloc u fp name hidden later token).1 ≡ some (record { port = p; token = token }))
        × (is_session_port (alloc u fp name hidden later token).0 p ≡ true)
  unfolding alloc_session_port alloc free_port grant_lease is_session_port
  alloc_takes_session_port p fp name hidden later token empty absent h =
      let open_port : free_session_port t ≡ some p = ground arith in
      let free : free_port t ≡ some p = sym (free_session_port-eq t empty) ∙ open_port in
      rw (open_port, alloc_session_port)
        (rw (absent, free, alloc)
          (refl, ground (arith, get-insert ℕ_discrete p p tt t.session_ports)))

-- `session_member_ok` holds exactly for the two members of the port.
pub session_member_ok_iff :
    (t : LeaseTable) (port : ℕ) (fp : Fingerprint)
    → ((session_member_ok t port fp).1 ≡ true) ↔ (
        (a : Fingerprint) × (b : Fingerprint) × (session_members_of t port ≡ some (a, b))
        × ((a ≡ fp) ⊎ (b ≡ fp)))
unfolding session_member_ok session_member_ok_inner
session_member_ok_iff t port fp = (
  λ h. elim (Option-cases (session_members_of t port)) [
    | inl e ↦ absurd (ground arith)
    | inr (m, e) ↦ (m.0, m.1, e, ground arith)
  ],
  λ (a, b, e, side). ground arith,
)

pub session_member_ok_counts :
    (t : LeaseTable) (port : ℕ) (fp : Fingerprint)
    → (session_member_ok t port fp).0 ≡ (
        if (session_member_ok t port fp).1
        then t
        else record t { nonmember_reject_count = (t.nonmember_reject_count + 1) % 2 ^ 64 })
unfolding session_member_ok
session_member_ok_counts t port fp = ground arith
