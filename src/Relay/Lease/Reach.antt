-- ===== src/Relay/Lease/Reach.antt =====
-- crates/localtrans-relay/src/lease.rs: the tables that the server can come to.
use localtrans.Base.{ℕ, ℕ_discrete, ◌≡◌, refl, Bool, none, String, arith}
use localtrans.Base.Indexes.{empty-Indexes}
use localtrans.Base.Maps.{get}
use localtrans.Base.Maps.{Distinct, remove-Distinct, modify-Distinct}
use localtrans.Net.{SocketAddr}
use localtrans.Relay.Proto.{Fingerprint, Token}
use localtrans.Relay.Lease.{
  LeaseTable, token_owner, new, alloc, get_by_token, remove_lease, punch_seen, heartbeat,
  remove_session_port, reap_expired, alloc_session_port, touch_session, session_member_ok,
}
use localtrans.Relay.Lease.Invariant.{
  LeasesInv, alloc-LeasesInv, get_by_token-LeasesInv, remove_lease-LeasesInv, modify-LeasesInv,
  remove_all-LeasesInv, remove_session_ports-LeasesInv, alloc_session_port-LeasesInv,
  session_member_ok-LeasesInv,
}
use localtrans.Relay.Lease.Sessions.{
  SessionsInv, alloc-activity, get_by_token-activity, remove_lease-activity, remove_all-activity,
  session_member_ok-activity, remove_session_ports-Distinct, alloc_session_port-Distinct,
  alloc-SessionsInv, get_by_token-SessionsInv, remove_lease-SessionsInv, remove_all-SessionsInv,
  remove_session_ports-SessionsInv, remove_session_port-SessionsInv, alloc_session_port-SessionsInv,
  touch_session-SessionsInv, session_member_ok-SessionsInv,
}

pub record Inv (t : LeaseTable) : Type 0 where
  pub leases : LeasesInv t
  pub sessions : SessionsInv t
  pub activity : Distinct ℕ_discrete t.session_activity

pub new-Inv : (start end' : ℕ) → Inv (new start end')
unfolding new get
new-Inv start end' = record {
  leases = record {
    distinct = tt;
    named = λ fp e h. absurd (ground arith);
    ports = empty-Indexes _ _ _;
    tokens = empty-Indexes _ _ _;
    in_range = λ p fp h. absurd (ground arith);
  };
  sessions = λ p. (refl, refl);
  activity = tt;
}

-- One call of a method of the table. A token that `alloc` draws is not in use.
pub data Step (t : LeaseTable) : LeaseTable → Type 0 where
  allocates :
      (fp : Fingerprint) (name : String) (hidden : Bool) (now : ℕ) (token : Token)
      → token_owner t token ≡ none
      → Step t (alloc t fp name hidden now token).0
  looks_up : (token : Token) (now : ℕ) → Step t (get_by_token t token now).0
  removes : (fp : Fingerprint) → Step t (remove_lease t fp).0
  sees_punch : (fp : Fingerprint) (from : SocketAddr) → Step t (punch_seen t fp from).0
  beats : (fp : Fingerprint) (now : ℕ) → Step t (heartbeat t fp now)
  reaps : (ttl now : ℕ) → Step t (reap_expired t ttl now).0
  pairs : (a b : Fingerprint) (now : ℕ) → Step t (alloc_session_port t a b now).0
  unpairs : (port : ℕ) → Step t (remove_session_port t port)
  touches : (port now : ℕ) → Step t (touch_session t port now)
  admits : (port : ℕ) (fp : Fingerprint) → Step t (session_member_ok t port fp).0

-- What a table that `new` made can become.
pub data Reach (t : LeaseTable) : LeaseTable → Type 0 where
  here : Reach t t
  next : {u w : LeaseTable} → Reach t u → Step u w → Reach t w

pub Step-Inv : {t u : LeaseTable} → Step t u → Inv t → Inv u
unfolding punch_seen heartbeat reap_expired remove_session_port touch_session
Step-Inv {t} (allocates fp name hidden now token fresh) v = record {
  leases = alloc-LeasesInv t fp v.leases name hidden now token fresh;
  sessions = alloc-SessionsInv t fp name hidden now token v.sessions;
  activity = rw alloc-activity v.activity;
}
Step-Inv {t} (looks_up token now) v = record {
  leases = get_by_token-LeasesInv t v.leases token now;
  sessions = get_by_token-SessionsInv t token now v.sessions;
  activity = rw get_by_token-activity v.activity;
}
Step-Inv {t} (removes fp) v = record {
  leases = remove_lease-LeasesInv t fp v.leases;
  sessions = remove_lease-SessionsInv t fp v.sessions;
  activity = rw remove_lease-activity v.activity;
}
Step-Inv {t} (sees_punch fp from) v = record {
  leases = modify-LeasesInv t fp v.leases _ (λ _. refl) (λ _. refl) (λ _. refl);
  sessions = v.sessions;
  activity = v.activity;
}
Step-Inv {t} (beats fp now) v = record {
  leases = modify-LeasesInv t fp v.leases _ (λ _. refl) (λ _. refl) (λ _. refl);
  sessions = v.sessions;
  activity = v.activity;
}
Step-Inv {t} (reaps ttl now) v = record {
  leases = remove_session_ports-LeasesInv _ _ (remove_all-LeasesInv t _ v.leases);
  sessions = remove_session_ports-SessionsInv _ _ (remove_all-SessionsInv t _ v.sessions);
  activity = remove_session_ports-Distinct _ _ (rw remove_all-activity v.activity);
}
Step-Inv {t} (pairs a b now) v = record {
  leases = alloc_session_port-LeasesInv t a b now v.leases;
  sessions = alloc_session_port-SessionsInv t a b now v.sessions;
  activity = alloc_session_port-Distinct t a b now v.activity;
}
Step-Inv {t} (unpairs port) v = record {
  leases = v.leases;
  sessions = remove_session_port-SessionsInv t port v.sessions;
  activity = remove-Distinct _ port _ v.activity;
}
Step-Inv {t} (touches port now) v = record {
  leases = v.leases;
  sessions = touch_session-SessionsInv t port now v.sessions;
  activity = modify-Distinct _ port _ _ v.activity;
}
Step-Inv {t} (admits port fp) v = record {
  leases = session_member_ok-LeasesInv t port fp v.leases;
  sessions = session_member_ok-SessionsInv t port fp v.sessions;
  activity = rw session_member_ok-activity v.activity;
}

-- From a well-formed lease table, every sequence of calls, in which `alloc` draws unused tokens,
-- leads to a well-formed one: ports and tokens lead back to the devices that hold them, and the
-- three session maps have the same ports.
pub Reach-Inv : {t u : LeaseTable} → Inv t → Reach t u → Inv u
Reach-Inv v here = v
Reach-Inv v (next r s) = Step-Inv s (Reach-Inv v r)
