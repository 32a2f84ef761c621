-- ===== src/Relay/Lease/Methods.antt =====
-- crates/localtrans-relay/src/lease.rs: what the methods on leases do, on every branch.
use localtrans.Base.{
  ℕ, ◌≤◌, ◌<◌, ◌≡◌, ◌≢◌, ◌↔◌, ap, inl, inr, Bool, true, none, some, String, Bytes-discrete,
  ℕ_discrete, arith, is_some, Option-cases,
}
use localtrans.Base.Indexes.{key_unique}
use localtrans.Base.Maps.{remove, get-insert, get-remove}
use localtrans.Relay.Proto.{Fingerprint, Token}
use localtrans.Relay.Lease.Invariant.{LeasesInv}
use localtrans.Relay.Lease.Ports.{find_port-some, find_port-none}
use localtrans.Relay.Lease.{
  LeaseTable, LeaseEntry, AllocatedLease, lease_of, port_owner, token_owner, renew_lease,
  grant_lease, free_port, alloc, get_by_port, get_by_token, remove_lease, lease_info, is_hidden,
}

-- No two devices hold one port.
pub ports_unique :
    (t : LeaseTable) (a b : Fingerprint) (e f : LeaseEntry)
    → LeasesInv t
    → lease_of t a ≡ some e
    → lease_of t b ≡ some f
    → e.port ≡ f.port
    → a ≡ b
ports_unique t a b e f v = key_unique _ _ _ t.leases t.port_map a b e f v.ports

module _ (t : LeaseTable) (fp : Fingerprint) (name : String) (hidden : Bool) (now : ℕ)
    (token : Token) where
  -- `alloc` refuses exactly an unregistered device when every port of the range has an owner.
  pub alloc-none_iff : ((alloc t fp name hidden now token).1 ≡ none) ↔ (
      (lease_of t fp ≡ none)
      × ((p : ℕ) → t.port_start ≤ p → p < t.port_end → is_some (port_owner t p) ≡ true))
  unfolding alloc renew_lease grant_lease free_port
  alloc-none_iff = (
    λ h. elim (Option-cases (lease_of t fp)) [
      | inr (e, found) ↦ absurd (ground arith)
      | inl absent ↦
          let full : free_port t ≡ none = ground arith in
          (absent, λ p lo hi. find_port-none _ _ _ full p lo (omega arith))
    ],
    λ h. elim (Option-cases (free_port t)) [
      | inl full ↦ ground arith
      | inr (p, free) ↦ absurd (taken h.1 p free)
    ],
  )
    where
      taken :
          ((p : ℕ) → t.port_start ≤ p → p < t.port_end → is_some (port_owner t p) ≡ true)
          → (p : ℕ) → free_port t ≡ some p
          → ⊥
      taken full p free =
          let (lo, hi, unused, _) = find_port-some _ _ _ _ free in
          ground (arith, full p lo (omega arith))

  -- In a well-formed table and for an unused token, the lease that `alloc` returns is the device's
  -- lease in the table, hidden as asked for, and its port and its token lead back to the device.
  pub alloc_registers :
      (l : AllocatedLease)
      → LeasesInv t
      → token_owner t token ≡ none
      → (alloc t fp name hidden now token).1 ≡ some l
      → let u = (alloc t fp name hidden now token).0 in
        (lease_info u fp ≡ some (record { data_port = l.port; token = l.token }))
        × (is_hidden u fp ≡ hidden)
        × (get_by_port u l.port ≡ some fp)
        × ((get_by_token u l.token now).1 ≡ some fp)
  unfolding alloc get_by_port get_by_token renew_lease grant_lease lease_info is_hidden
  alloc_registers l v fresh h = elim (Option-cases (lease_of t fp)) [
    | inr (e, found) ↦
        let e' = record e {
          name = name;
          token = token;
          last_active = now;
          last_ping = now;
          hidden = hidden;
        } in
        let at_fp = get-insert Bytes-discrete fp fp e' t.leases in
        let at_token =
          get-insert Bytes-discrete token token fp (remove Bytes-discrete e.token t.token_map) in
        (
          ground (arith, at_fp),
          ground (arith, at_fp),
          ground (arith, v.ports.leads_back fp e found),
          ground (arith, at_token),
        )
    | inl absent ↦ elim (Option-cases (free_port t)) [
      | inl full ↦ absurd (ground arith)
      | inr (p, free) ↦
          let e' = new_entry p in
          let at_fp = get-insert Bytes-discrete fp fp e' t.leases in
          (
            ground (arith, at_fp),
            ground (arith, at_fp),
            ground (arith, get-insert ℕ_discrete p p fp t.port_map),
            ground (arith, get-insert Bytes-discrete token token fp t.token_map),
          )
    ]
  ]
    where
      new_entry : ℕ → LeaseEntry
      new_entry p = record {
        fingerprint = fp;
        name = name;
        port = p;
        token = token;
        last_active = now;
        punch_from = none;
        last_ping = now;
        hidden = hidden;
      }

  -- A device that registers again keeps its port, and its old token is refused from then on, given
  -- a well-formed table and an unused token.
  pub alloc_renews :
      (e : LeaseEntry) (later : ℕ)
      → LeasesInv t
      → token_owner t token ≡ none
      → lease_of t fp ≡ some e
      → ((alloc t fp name hidden now token).1 ≡ some (record { port = e.port; token = token }))
        × ((get_by_token (alloc t fp name hidden now token).0 e.token later).1 ≡ none)
  unfolding alloc renew_lease get_by_token
  alloc_renews e later v fresh found = ground (
    arith,
    v.tokens.leads_back fp e found,
    get-insert Bytes-discrete token e.token fp (remove Bytes-discrete e.token t.token_map),
    get-remove Bytes-discrete e.token e.token t.token_map,
    ap (λ k. token_owner t k) {x = token} {y = e.token},
  )

-- A device that is removed leaves neither its port nor its token behind, and no other device is
-- touched.
pub remove_lease_forgets :
    (t : LeaseTable) (fp : Fingerprint) (e : LeaseEntry)
    → lease_of t fp ≡ some e
    → let u = (remove_lease t fp).0 in
      ((remove_lease t fp).1 ≡ true)
      × (lease_of u fp ≡ none)
      × (get_by_port u e.port ≡ none)
      × ((now : ℕ) → (get_by_token u e.token now).1 ≡ none)
      × ((q : Fingerprint) → q ≢ fp → lease_of u q ≡ lease_of t q)
unfolding remove_lease get_by_port get_by_token
remove_lease_forgets t fp e found = (
  ground arith,
  ground (arith, get-remove Bytes-discrete fp fp t.leases),
  ground (arith, get-remove ℕ_discrete e.port e.port t.port_map),
  λ now. ground (arith, get-remove Bytes-discrete e.token e.token t.token_map),
  λ q ne. ground (arith, get-remove Bytes-discrete fp q t.leases),
)
