-- ===== src/Relay/Lease/Roster.antt =====
-- crates/localtrans-relay/src/lease.rs: which devices `snapshot_roster` shows to whom.
use localtrans.Base.{
  ◌≡◌, ◌≢◌, refl, ap, inl, inr, Bool, true, false, not, ◌&&◌, some, [], ◌∷◌, map, Bytes-discrete,
  arith, All, Any, holds, Bool-cases,
}
use localtrans.Base.Maps.{Map, Distinct, get, retain}
use localtrans.Net.{IpAddr}
use localtrans.Relay.Proto.{Fingerprint, RemoteDevice}
use localtrans.Relay.Lease.Invariant.{LeasesInv}
use localtrans.Relay.Lease.{LeaseTable, LeaseEntry, lease_of, snapshot_roster}

-- A device as the roster shows it to `exclude_fp`.
abbrev pub Shows : LeaseTable → Fingerprint → IpAddr → RemoteDevice → Type 0
Shows t exclude_fp ip d =
    (e : LeaseEntry) × (lease_of t d.fingerprint ≡ some e)
    × (e.hidden ≡ false)
    × (d.fingerprint ≢ exclude_fp)
    × (d.name ≡ e.name)
    × (d.lease_addr ≡ record { ip = ip; port = e.port })

module _ (exclude_fp : Fingerprint) (ip : IpAddr) where
  abbrev device : Fingerprint × LeaseEntry → RemoteDevice
  device kv = record {
    fingerprint = kv.0;
    name = kv.1.name;
    lease_addr = record { ip = ip; port = kv.1.port };
    relayed_ephemeral = false;
  }

  abbrev visible : Fingerprint → LeaseEntry → Bool
  visible fp e = not (holds (Bytes-discrete fp exclude_fp)) && not e.hidden

  module _ (t : LeaseTable) where
    -- The pairs of a part of the table.
    abbrev In : Map Fingerprint LeaseEntry → Type 0
    In m =
        (fp : Fingerprint) (e : LeaseEntry)
        → get Bytes-discrete fp m ≡ some e
        → lease_of t fp ≡ some e

    shown_lem :
        (m : Map Fingerprint LeaseEntry)
        → Distinct Bytes-discrete m
        → In m
        → All (Shows t exclude_fp ip) (map device (retain visible m))
    unfolding retain get
    shown_lem [] d h = tt
    shown_lem ((fp, e) ∷ m) d h =
        let rest =
          shown_lem m d.1
            (λ q f g. h q f (ground (arith, ap (λ k. get Bytes-discrete k m) {x = fp} {y = q}))) in
        let found : lease_of t fp ≡ some e = h fp e (ground arith) in
        elim (Bool-cases (visible fp e)) [
          | inl shown ↦
              rw shown ((e, found, ground arith, (λ same. ground arith), refl, refl), rest)
          | inr unseen ↦ rw unseen rest
        ]

  visible_lem :
      (m : Map Fingerprint LeaseEntry) (fp : Fingerprint) (e : LeaseEntry)
      → get Bytes-discrete fp m ≡ some e
      → visible fp e ≡ true
      → Any (λ x. x ≡ device (fp, e)) (map device (retain visible m))
  unfolding retain get
  visible_lem [] fp e h v = absurd (ground arith)
  visible_lem ((q, f) ∷ m) fp e h v = elim (Bytes-discrete q fp) [
    | yes same ↦
        let shown : visible q f ≡ true = ground (arith, ap (λ k. visible k f) same) in
        rw shown (inl (ground arith))
    | no other ↦ elim (Bool-cases (visible q f)) [
      | inl shown ↦ rw shown (inr (visible_lem m fp e (ground arith) v))
      | inr unseen ↦ rw unseen (visible_lem m fp e (ground arith) v)
    ]
  ]

-- In a well-formed table, a roster shows only registered devices that are not hidden and not the
-- asking one, each under its name and the port of its lease.
pub snapshot_roster_sound :
    (t : LeaseTable) (exclude_fp : Fingerprint) (ip : IpAddr)
    → LeasesInv t
    → All (Shows t exclude_fp ip) (snapshot_roster t exclude_fp ip)
unfolding snapshot_roster
snapshot_roster_sound t exclude_fp ip v =
    shown_lem exclude_fp ip t t.leases v.distinct (λ fp e h. h)

-- A roster shows every registered device that is not hidden and not the asking one.
pub snapshot_roster_complete :
    (t : LeaseTable) (exclude_fp fp : Fingerprint) (ip : IpAddr) (e : LeaseEntry)
    → lease_of t fp ≡ some e
    → e.hidden ≡ false
    → fp ≢ exclude_fp
    → Any
        (λ d. d ≡ record {
          fingerprint = fp;
          name = e.name;
          lease_addr = record { ip = ip; port = e.port };
          relayed_ephemeral = false;
        })
        (snapshot_roster t exclude_fp ip)
unfolding snapshot_roster
snapshot_roster_complete t exclude_fp fp ip e found shown other =
    visible_lem exclude_fp ip t.leases fp e found (ground arith)
