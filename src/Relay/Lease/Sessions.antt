-- ===== src/Relay/Lease/Sessions.antt =====
-- crates/localtrans-relay/src/lease.rs: the maps of the session ports keep in step.
use localtrans.Base.{
  ◌∙◌, refl, ℕ, ◌≡◌, inl, inr, Bool, List, [], ◌∷◌, String, ℕ_discrete, arith, is_some,
  Option-cases,
}
use localtrans.Base.Maps.{
  Distinct, insert-Distinct, remove-Distinct, get, get-insert, get-remove, get-modify,
}
use localtrans.Relay.Proto.{Fingerprint, Token}
use localtrans.Relay.Lease.{
  LeaseTable, renew_lease, grant_lease, alloc, get_by_token, remove_lease, remove_all,
  remove_session_port, remove_session_ports, free_session_port, alloc_session_port, touch_session,
  session_member_ok,
}

-- A session port has members and a time of last activity, and nothing else has.
abbrev pub SessionsInv : LeaseTable → Type 0
SessionsInv t =
    (p : ℕ)
    → (is_some (get ℕ_discrete p t.session_members) ≡ is_some (get ℕ_discrete p t.session_ports))
      × (is_some (get ℕ_discrete p t.session_activity) ≡ is_some (get ℕ_discrete p t.session_ports))

pub remove_session_port-SessionsInv :
    (t : LeaseTable) (q : ℕ) → SessionsInv t → SessionsInv (remove_session_port t q)
unfolding remove_session_port
remove_session_port-SessionsInv t q v p = ground (
  arith,
  v p,
  get-remove ℕ_discrete q p t.session_ports,
  get-remove ℕ_discrete q p t.session_members,
  get-remove ℕ_discrete q p t.session_activity,
)

pub remove_session_ports-SessionsInv :
    (t : LeaseTable) (ps : List ℕ) → SessionsInv t → SessionsInv (remove_session_ports t ps)
unfolding remove_session_ports
remove_session_ports-SessionsInv t [] v = v
remove_session_ports-SessionsInv t (p ∷ ps) v =
    remove_session_ports-SessionsInv (remove_session_port t p) ps
      (remove_session_port-SessionsInv t p v)

pub alloc_session_port-SessionsInv :
    (t : LeaseTable) (a b : Fingerprint) (now : ℕ)
    → SessionsInv t
    → SessionsInv (alloc_session_port t a b now).0
unfolding alloc_session_port
alloc_session_port-SessionsInv t a b now v p = elim (Option-cases (free_session_port t)) [
  | inl full ↦ rw (full, alloc_session_port) (v p)
  | inr (q, free) ↦ ground (
    arith,
    v p,
    get-insert ℕ_discrete q p tt t.session_ports,
    get-insert ℕ_discrete q p (a, b) t.session_members,
    get-insert ℕ_discrete q p now t.session_activity,
  )
]

pub touch_session-SessionsInv :
    (t : LeaseTable) (q now : ℕ) → SessionsInv t → SessionsInv (touch_session t q now)
unfolding touch_session
touch_session-SessionsInv t q now v p =
    ground (arith, v p, get-modify ℕ_discrete q p (λ _. now) t.session_activity)

-- `alloc` and the methods below it do not touch the sessions.
pub alloc-SessionsInv :
    (t : LeaseTable) (fp : Fingerprint) (name : String) (hidden : Bool) (now : ℕ) (token : Token)
    → SessionsInv t
    → SessionsInv (alloc t fp name hidden now token).0
unfolding alloc renew_lease grant_lease
alloc-SessionsInv t fp name hidden now token v p = ground (arith, v p)

pub get_by_token-SessionsInv :
    (t : LeaseTable) (token : Token) (now : ℕ)
    → SessionsInv t
    → SessionsInv (get_by_token t token now).0
unfolding get_by_token
get_by_token-SessionsInv t token now v p = ground (arith, v p)

pub remove_lease-SessionsInv :
    (t : LeaseTable) (fp : Fingerprint) → SessionsInv t → SessionsInv (remove_lease t fp).0
unfolding remove_lease
remove_lease-SessionsInv t fp v p = ground (arith, v p)

pub remove_all-SessionsInv :
    (t : LeaseTable) (fps : List Fingerprint) → SessionsInv t → SessionsInv (remove_all t fps)
unfolding remove_all
remove_all-SessionsInv t [] v = v
remove_all-SessionsInv t (fp ∷ fps) v =
    remove_all-SessionsInv (remove_lease t fp).0 fps (remove_lease-SessionsInv t fp v)

pub session_member_ok-SessionsInv :
    (t : LeaseTable) (port : ℕ) (fp : Fingerprint)
    → SessionsInv t
    → SessionsInv (session_member_ok t port fp).0
unfolding session_member_ok
session_member_ok-SessionsInv t port fp v p = ground (arith, v p)

-- The methods on leases leave the activity of the sessions alone.
module _ (t : LeaseTable) (fp : Fingerprint) where
  pub alloc-activity :
      (name : String) (hidden : Bool) (now : ℕ) (token : Token)
      → (alloc t fp name hidden now token).0.session_activity ≡ t.session_activity
  unfolding alloc renew_lease grant_lease
  alloc-activity name hidden now token = ground arith

  pub remove_lease-activity : (remove_lease t fp).0.session_activity ≡ t.session_activity
  unfolding remove_lease
  remove_lease-activity = ground arith

pub get_by_token-activity :
    (t : LeaseTable) (token : Token) (now : ℕ)
    → (get_by_token t token now).0.session_activity ≡ t.session_activity
unfolding get_by_token
get_by_token-activity t token now = ground arith

pub remove_all-activity :
    (t : LeaseTable) (fps : List Fingerprint)
    → (remove_all t fps).session_activity ≡ t.session_activity
unfolding remove_all
remove_all-activity t [] = refl
remove_all-activity t (fp ∷ fps) =
    remove_all-activity (remove_lease t fp).0 fps ∙ remove_lease-activity t fp

pub remove_session_ports-Distinct :
    (t : LeaseTable) (ps : List ℕ)
    → Distinct ℕ_discrete t.session_activity
    → Distinct ℕ_discrete (remove_session_ports t ps).session_activity
unfolding remove_session_ports remove_session_port
remove_session_ports-Distinct t [] d = d
remove_session_ports-Distinct t (p ∷ ps) d =
    remove_session_ports-Distinct (remove_session_port t p) ps (remove-Distinct _ p _ d)

pub alloc_session_port-Distinct :
    (t : LeaseTable) (a b : Fingerprint) (now : ℕ)
    → Distinct ℕ_discrete t.session_activity
    → Distinct ℕ_discrete (alloc_session_port t a b now).0.session_activity
unfolding alloc_session_port
alloc_session_port-Distinct t a b now d = elim (Option-cases (free_session_port t)) [
  | inl full ↦ rw (full, alloc_session_port) d
  | inr (q, free) ↦ rw (free, alloc_session_port) (insert-Distinct _ q now _ d)
]

pub session_member_ok-activity :
    (t : LeaseTable) (port : ℕ) (fp : Fingerprint)
    → (session_member_ok t port fp).0.session_activity ≡ t.session_activity
unfolding session_member_ok
session_member_ok-activity t port fp = ground arith
