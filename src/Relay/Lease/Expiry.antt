-- ===== src/Relay/Lease/Expiry.antt =====
-- crates/localtrans-relay/src/lease.rs: `reap_expired` takes back what is idle, and nothing else.
use localtrans.Base.{
  ℕ, ◌-◌, ◌*◌, ◌≡◌, refl, ◌∙◌, sym, ap, Bool, true, false, ◌||◌, ◌&&◌, none, some, List, [], ◌∷◌,
  map, Bytes-discrete, ℕ_discrete, arith, is_some, if◌then◌else◌, holds, ltb,
}
use localtrans.Base.Maps.{Map, get, retain, get-remove, get-retain}
use localtrans.Relay.Proto.{Fingerprint}
use localtrans.Relay.Lease.Sessions.{remove_all-activity}
use localtrans.Relay.Lease.Reach.{Inv, Reach-Inv, reaps, here, next}
use localtrans.Relay.Lease.{
  LeaseTable, lease_of, remove_lease, remove_all, remove_session_port, remove_session_ports,
  is_expired, expired_leases, idle_ports, reap_expired, is_session_port,
}

abbrev member : {K : Type 0} → Discrete K → K → List K → Bool
member dec k [] = false
member dec k (j ∷ js) = holds (dec j k) || member dec k js

module _ {K V : Type 0} (dec : Discrete K) where
  -- The keys of a map, as a list.
  member-keys : (k : K) (m : Map K V) → member dec k (map (λ kv. kv.0) m) ≡ is_some (get dec k m)
  unfolding get
  member-keys k [] = refl
  member-keys k ((j, v) ∷ m) = ground (arith, member-keys k m)

pub lease_of-remove_lease :
    (t : LeaseTable) (fp q : Fingerprint)
    → lease_of (remove_lease t fp).0 q
      ≡ (if holds (Bytes-discrete fp q) then none else lease_of t q)
unfolding remove_lease
lease_of-remove_lease t fp q =
    ground (arith, get-remove Bytes-discrete fp q t.leases, ap (λ a. lease_of t a) {x = fp} {y = q})

lease_of-remove_all :
    (t : LeaseTable) (fps : List Fingerprint) (q : Fingerprint)
    → lease_of (remove_all t fps) q ≡ (if member Bytes-discrete q fps then none else lease_of t q)
unfolding remove_all
lease_of-remove_all t [] q = refl
lease_of-remove_all t (fp ∷ fps) q =
    ground (arith, lease_of-remove_all (remove_lease t fp).0 fps q, lease_of-remove_lease t fp q)

lease_of-remove_session_ports :
    (t : LeaseTable) (ps : List ℕ) → (remove_session_ports t ps).leases ≡ t.leases
unfolding remove_session_ports remove_session_port
lease_of-remove_session_ports t [] = refl
lease_of-remove_session_ports t (p ∷ ps) =
    lease_of-remove_session_ports (remove_session_port t p) ps

session-remove_session_ports :
    (t : LeaseTable) (ps : List ℕ) (p : ℕ)
    → get ℕ_discrete p (remove_session_ports t ps).session_activity
      ≡ (if member ℕ_discrete p ps then none else get ℕ_discrete p t.session_activity)
unfolding remove_session_ports remove_session_port
session-remove_session_ports t [] p = refl
session-remove_session_ports t (q ∷ ps) p = ground (
  arith,
  session-remove_session_ports (remove_session_port t q) ps p,
  get-remove ℕ_discrete q p t.session_activity,
)

-- In a well-formed table, `reap_expired` takes back exactly the leases without a packet and without
-- a ping for more than the time to live, and leaves all others as they are.
pub lease_of-reap_expired :
    (t : LeaseTable) (ttl now : ℕ) (fp : Fingerprint)
    → Inv t
    → lease_of (reap_expired t ttl now).0 fp ≡ elim (lease_of t fp) [
      | none ↦ none
      | some e ↦
          if ltb ttl (now - e.last_active) && ltb ttl (now - e.last_ping) then none else some e
    ]
unfolding reap_expired expired_leases is_expired
lease_of-reap_expired t ttl now fp v =
    ap (get Bytes-discrete fp) (lease_of-remove_session_ports _ _)
    ∙ lease_of-remove_all t _ fp
    ∙ ground (
      arith,
      member-keys Bytes-discrete fp (retain (λ _ e. is_expired ttl now e) t.leases),
      get-retain Bytes-discrete (λ _ e. is_expired ttl now e) fp t.leases v.leases.distinct,
    )

activity-reap_expired :
    (t : LeaseTable) (ttl now p : ℕ)
    → Inv t
    → get ℕ_discrete p (reap_expired t ttl now).0.session_activity
      ≡ elim (get ℕ_discrete p t.session_activity) [
        | none ↦ none
        | some last ↦ if ltb (ttl * 2) (now - last) then none else some last
      ]
unfolding reap_expired idle_ports
activity-reap_expired t ttl now p v =
    let t' = remove_all t (expired_leases ttl now t.leases) in
    let same : t'.session_activity ≡ t.session_activity = remove_all-activity t _ in
    session-remove_session_ports t' _ p
    ∙ rw same (
        ground (
          arith,
          member-keys ℕ_discrete p
              (retain (λ _ last. ltb (ttl * 2) (now - last)) t.session_activity),
          get-retain ℕ_discrete (λ _ last. ltb (ttl * 2) (now - last)) p t.session_activity
              v.activity,
        ))

-- In a well-formed table, `reap_expired` takes back exactly the session ports without a packet for
-- more than twice the time to live.
pub session-reap_expired :
    (t : LeaseTable) (ttl now p : ℕ)
    → Inv t
    → is_session_port (reap_expired t ttl now).0 p ≡ elim (get ℕ_discrete p t.session_activity) [
      | none ↦ false
      | some last ↦ if ltb (ttl * 2) (now - last) then false else true
    ]
unfolding is_session_port
session-reap_expired t ttl now p v =
    let u = (reap_expired t ttl now).0 in
    let v' : Inv u = Reach-Inv v (next here (reaps ttl now)) in
    sym (v'.sessions p).1 ∙ ap is_some (activity-reap_expired t ttl now p v) ∙ ground arith
