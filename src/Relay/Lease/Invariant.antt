-- ===== src/Relay/Lease/Invariant.antt =====
-- crates/localtrans-relay/src/lease.rs: what every method of the lease table keeps.
use localtrans.Base.{
  ℕ, ◌≤◌, ◌<◌, ◌≡◌, refl, inl, inr, Bool, none, some, List, [], ◌∷◌, String, Bytes-discrete,
  ℕ_discrete, arith, Option-cases, Bool-cases,
}
use localtrans.Base.Indexes.{
  Indexes, insert-Indexes, remove-Indexes, replace-Indexes, rekey-Indexes, modify-Indexes,
}
use localtrans.Base.Maps.{
  Map, Distinct, get, insert, modify, get-insert, get-remove, get-modify, insert-Distinct,
  remove-Distinct, modify-Distinct,
}
use localtrans.Relay.Proto.{Fingerprint, Token}
use localtrans.Relay.Lease.Ports.{find_port-some}
use localtrans.Relay.Lease.{
  LeaseTable, LeaseEntry, lease_of, token_owner, renew_lease, grant_lease, free_port, alloc,
  get_by_token, remove_lease, remove_all, remove_session_port, remove_session_ports,
  free_session_port, alloc_session_port, session_member_ok, session_member_ok_inner,
}

-- Every entry stands under its own fingerprint.
abbrev Named : Map Fingerprint LeaseEntry → Type 0
Named m =
    (fp : Fingerprint) (e : LeaseEntry) → get Bytes-discrete fp m ≡ some e → e.fingerprint ≡ fp

insert-Named :
    (fp : Fingerprint) (e : LeaseEntry) (m : Map Fingerprint LeaseEntry)
    → e.fingerprint ≡ fp
    → Named m
    → Named (insert Bytes-discrete fp e m)
insert-Named fp e m own v q f h = ground (arith, get-insert Bytes-discrete fp q e m, v q f)

-- The entries, and the two reverse indices by port and by token.
pub record Consistent (start end' : ℕ) (leases : Map Fingerprint LeaseEntry)
    (port_map : Map ℕ Fingerprint) (token_map : Map Token Fingerprint) : Type 0 where
  pub distinct : Distinct Bytes-discrete leases
  pub named : Named leases
  pub ports : Indexes Bytes-discrete ℕ_discrete (λ e. e.port) leases port_map
  pub tokens : Indexes Bytes-discrete Bytes-discrete (λ e. e.token) leases token_map
  pub in_range :
      (p : ℕ) (fp : Fingerprint) → get ℕ_discrete p port_map ≡ some fp → (start ≤ p) × (p < end')

abbrev pub LeasesInv : LeaseTable → Type 0
LeasesInv t = Consistent t.port_start t.port_end t.leases t.port_map t.token_map

module _ (t : LeaseTable) (fp : Fingerprint) (v : LeasesInv t) where
  module _ (name : String) (hidden : Bool) (now : ℕ) (token : Token) where
    renew_lease-LeasesInv :
        (e : LeaseEntry)
        → lease_of t fp ≡ some e
        → token_owner t token ≡ none
        → LeasesInv (renew_lease t fp e name hidden now token).0
    unfolding renew_lease
    renew_lease-LeasesInv e found fresh = record {
      distinct = insert-Distinct _ _ _ _ v.distinct;
      named = insert-Named fp _ t.leases (v.named fp e found) v.named;
      ports = replace-Indexes _ _ _ _ _ fp v.ports e _ found refl;
      tokens = rekey-Indexes _ _ _ _ _ fp v.tokens e _ found fresh;
      in_range = v.in_range;
    }

    grant_lease-LeasesInv :
        (port : ℕ)
        → lease_of t fp ≡ none
        → token_owner t token ≡ none
        → free_port t ≡ some port
        → LeasesInv (grant_lease t fp port name hidden now token).0
    unfolding grant_lease free_port
    grant_lease-LeasesInv port absent fresh free =
        let (lo, hi, unused, _) = find_port-some _ _ _ _ free in
        record {
          distinct = insert-Distinct _ _ _ _ v.distinct;
          named = insert-Named fp _ t.leases refl v.named;
          ports = insert-Indexes _ _ _ _ _ fp v.ports _ absent (ground arith);
          tokens = insert-Indexes _ _ _ _ _ fp v.tokens _ absent fresh;
          in_range =
              λ p q h. ground (arith, get-insert ℕ_discrete port p fp t.port_map, v.in_range p q);
        }

    pub alloc-LeasesInv :
        token_owner t token ≡ none → LeasesInv (alloc t fp name hidden now token).0
    unfolding alloc
    alloc-LeasesInv fresh = elim (Option-cases (lease_of t fp)) [
      | inr (e, found) ↦ rw (found, alloc) (renew_lease-LeasesInv e found fresh)
      | inl absent ↦ elim (Option-cases (free_port t)) [
        | inl full ↦ rw (absent, full, alloc) v
        | inr (port, free) ↦ rw (absent, free, alloc) (grant_lease-LeasesInv port absent fresh free)
      ]
    ]

  pub remove_lease-LeasesInv : LeasesInv (remove_lease t fp).0
  unfolding remove_lease
  remove_lease-LeasesInv = elim (Option-cases (lease_of t fp)) [
    | inl absent ↦ rw (absent, remove_lease) v
    | inr (e, found) ↦
        rw (found, remove_lease)
          (record {
            distinct = remove-Distinct _ _ _ v.distinct;
            named = λ q f h. ground (arith, get-remove Bytes-discrete fp q t.leases, v.named q f);
            ports = remove-Indexes _ _ _ _ _ fp v.ports e found;
            tokens = remove-Indexes _ _ _ _ _ fp v.tokens e found;
            in_range =
                λ p q h. ground (arith, get-remove ℕ_discrete e.port p t.port_map, v.in_range p q);
          })
  ]

  -- A change of an entry that keeps its fingerprint, its port and its token.
  pub modify-LeasesInv :
      (f : LeaseEntry → LeaseEntry)
      → ((e : LeaseEntry) → (f e).fingerprint ≡ e.fingerprint)
      → ((e : LeaseEntry) → (f e).port ≡ e.port)
      → ((e : LeaseEntry) → (f e).token ≡ e.token)
      → LeasesInv (record t { leases = modify Bytes-discrete fp f t.leases })
  modify-LeasesInv f same_fp same_port same_token = record {
    distinct = modify-Distinct _ _ _ _ v.distinct;
    named = λ q e h. elim (Option-cases (lease_of t fp)) [
      | inl absent ↦ ground (arith, get-modify Bytes-discrete fp q f t.leases, v.named q e)
      | inr (x, found) ↦ ground (
        arith,
        get-modify Bytes-discrete fp q f t.leases,
        v.named q e,
        v.named fp x found,
        same_fp x,
      )
    ];
    ports = modify-Indexes _ _ _ _ _ fp v.ports f same_port;
    tokens = modify-Indexes _ _ _ _ _ fp v.tokens f same_token;
    in_range = v.in_range;
  }

module _ (t : LeaseTable) (v : LeasesInv t) where
  pub get_by_token-LeasesInv : (token : Token) (now : ℕ) → LeasesInv (get_by_token t token now).0
  unfolding get_by_token
  get_by_token-LeasesInv token now = elim (Option-cases (token_owner t token)) [
    | inl unknown ↦ rw (unknown, get_by_token) v
    | inr (fp, known) ↦
        rw (known, get_by_token)
          (modify-LeasesInv t fp v (λ e. record e { last_active = now }) (λ _. refl) (λ _. refl)
            (λ _. refl))
  ]

pub remove_all-LeasesInv :
    (t : LeaseTable) (fps : List Fingerprint) → LeasesInv t → LeasesInv (remove_all t fps)
unfolding remove_all
remove_all-LeasesInv t [] v = v
remove_all-LeasesInv t (fp ∷ fps) v =
    remove_all-LeasesInv (remove_lease t fp).0 fps (remove_lease-LeasesInv t fp v)

pub remove_session_ports-LeasesInv :
    (t : LeaseTable) (ps : List ℕ) → LeasesInv t → LeasesInv (remove_session_ports t ps)
unfolding remove_session_ports remove_session_port
remove_session_ports-LeasesInv t [] v = v
remove_session_ports-LeasesInv t (p ∷ ps) v =
    remove_session_ports-LeasesInv (remove_session_port t p) ps v

pub alloc_session_port-LeasesInv :
    (t : LeaseTable) (a b : Fingerprint) (now : ℕ)
    → LeasesInv t
    → LeasesInv (alloc_session_port t a b now).0
unfolding alloc_session_port
alloc_session_port-LeasesInv t a b now v = elim (Option-cases (free_session_port t)) [
  | inl full ↦ rw (full, alloc_session_port) v
  | inr (q, free) ↦ rw (free, alloc_session_port) v
]

pub session_member_ok-LeasesInv :
    (t : LeaseTable) (port : ℕ) (fp : Fingerprint)
    → LeasesInv t
    → LeasesInv (session_member_ok t port fp).0
unfolding session_member_ok
session_member_ok-LeasesInv t port fp v = elim (Bool-cases (session_member_ok_inner t port fp)) [
  | inl member ↦ rw (member, session_member_ok) v
  | inr stranger ↦ rw (stranger, session_member_ok) v
]
