-- ===== src/Identity.antt =====
-- crates/localtrans-core/src/identity.rs: the devices this one trusts and what each may do. The store
-- is its list of peers; that it is written to a file is left out.
pub mod Trust
use localtrans.Base.{
  ℕ, Bool, true, false, Option, none, some, List, [], ◌∷◌, String, Bytes, Bytes-discrete, ite,
  is_some,
}
use localtrans.Relay.Proto.{Fingerprint}

pub data PushPolicy : Type 0 where
  ask auto deny : PushPolicy

pub record Perms : Type 0 where
  pub browse : Bool
  pub download : Bool
  pub push : PushPolicy

-- `Perms::default`
abbrev pub default_perms : Perms
default_perms = record { browse = true; download = true; push = ask }

-- `Perms::denied`
abbrev pub denied : Perms
denied = record { browse = false; download = false; push = deny }

pub record TrustedPeer : Type 0 where
  pub fingerprint : Fingerprint
  pub name : String
  pub alias : String
  pub paired_at : ℕ
  pub perms : Perms

abbrev pub TrustStore : Type 0
TrustStore = List TrustedPeer

-- The first peer with a fingerprint.
unfoldable pub get : Fingerprint → TrustStore → Option TrustedPeer
get fp [] = none
get fp (p ∷ peers) = ite (Bytes-discrete p.fingerprint fp) (some p) (get fp peers)

unfoldable pub is_trusted : Fingerprint → TrustStore → Bool
is_trusted fp [] = false
is_trusted fp (p ∷ peers) = ite (Bytes-discrete p.fingerprint fp) true (is_trusted fp peers)

unfoldable pub upsert : TrustedPeer → TrustStore → TrustStore
upsert peer [] = peer ∷ []
upsert peer (p ∷ peers) =
    let rest = upsert peer peers in
    ite (Bytes-discrete p.fingerprint peer.fingerprint) (peer ∷ peers) (p ∷ rest)

-- The store without the first peer that has the fingerprint, and whether there was one.
unfoldable pub remove : Fingerprint → TrustStore → TrustStore × Bool
remove fp [] = ([], false)
remove fp (p ∷ peers) =
    let rest = remove fp peers in
    ite (Bytes-discrete p.fingerprint fp) (peers, true) (p ∷ rest.0, rest.1)

-- `peers.iter_mut().find(..)`, then a change of the peer, and whether there was one.
unfoldable pub change : (TrustedPeer → TrustedPeer) → Fingerprint → TrustStore → TrustStore × Bool
change f fp [] = ([], false)
change f fp (p ∷ peers) =
    let rest = change f fp peers in
    ite (Bytes-discrete p.fingerprint fp) (f p ∷ peers, true) (p ∷ rest.0, rest.1)

unfoldable pub with_perms : Perms → TrustedPeer → TrustedPeer
with_perms perms p = record p { perms = perms }

unfoldable pub with_alias : String → TrustedPeer → TrustedPeer
with_alias alias p = record p { alias = alias }

unfoldable pub set_perms : Fingerprint → Perms → TrustStore → TrustStore × Bool
unfolding change with_perms
set_perms fp perms peers = change (with_perms perms) fp peers

unfoldable pub set_alias : Fingerprint → String → TrustStore → TrustStore × Bool
unfolding change with_alias
set_alias fp alias peers = change (with_alias alias) fp peers
