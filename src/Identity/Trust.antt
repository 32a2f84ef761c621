-- ===== src/Identity/Trust.antt =====
-- crates/localtrans-core/src/identity.rs: the trust store as a map from fingerprints to peers.
use localtrans.Base.{
  ◌≡◌, refl, ap, ◌∙◌, Option, none, some, List, [], ◌∷◌, String, Bytes-discrete, ite, arith,
  is_some,
}
use localtrans.Relay.Proto.{Fingerprint}
use localtrans.Identity.{
  Perms, TrustedPeer, TrustStore, get, is_trusted, upsert, remove, change, with_perms, with_alias,
  set_perms, set_alias,
}

-- What is done to a trust store.
pub data TrustOp : Type 0 where
  put : TrustedPeer → TrustOp
  drop : Fingerprint → TrustOp
  perms_of : Fingerprint → Perms → TrustOp
  alias_of : Fingerprint → String → TrustOp

unfoldable pub run_op : TrustOp → TrustStore → TrustStore
unfolding upsert remove set_perms set_alias
run_op (put p) s = upsert p s
run_op (drop fp) s = (remove fp s).0
run_op (perms_of fp perms) s = (set_perms fp perms s).0
run_op (alias_of fp alias) s = (set_alias fp alias s).0

unfoldable pub run_all : List TrustOp → TrustStore → TrustStore
unfolding run_op
run_all [] s = s
run_all (op ∷ ops) s = run_all ops (run_op op s)

-- The abstract store: what each fingerprint has.
abbrev pub View : Type 0
View = Fingerprint → Option TrustedPeer

abbrev pub at : Fingerprint → Option TrustedPeer → View → View
at fp entry v j = ite (Bytes-discrete fp j) entry (v j)

abbrev pub changed : (TrustedPeer → TrustedPeer) → Option TrustedPeer → Option TrustedPeer
changed f none = none
changed f (some p) = some (f p)

abbrev pub view_op : TrustOp → View → View
view_op (put p) v = at p.fingerprint (some p) v
view_op (drop fp) v = at fp none v
view_op (perms_of fp perms) v = at fp (changed (with_perms perms) (v fp)) v
view_op (alias_of fp alias) v = at fp (changed (with_alias alias) (v fp)) v

abbrev pub view_all : List TrustOp → View → View
view_all [] v = v
view_all (op ∷ ops) v = view_all ops (view_op op v)

-- No fingerprint stands twice.
abbrev pub Unique : TrustStore → Type 0
Unique [] = Unit
Unique (p ∷ peers) = (get p.fingerprint peers ≡ none) × Unique peers

get-upsert :
    (peer : TrustedPeer) (s : TrustStore) (fp : Fingerprint)
    → get fp (upsert peer s) ≡ ite (Bytes-discrete peer.fingerprint fp) (some peer) (get fp s)
unfolding get upsert
get-upsert peer [] fp = refl
get-upsert peer (p ∷ s) fp = ground (arith, get-upsert peer s fp)

get-remove :
    (k : Fingerprint) (s : TrustStore) (fp : Fingerprint)
    → Unique s
    → get fp (remove k s).0 ≡ ite (Bytes-discrete k fp) none (get fp s)
unfolding get remove
get-remove k [] fp u = ground arith
get-remove k (p ∷ s) fp u =
    ground (arith, get-remove k s fp u.1, ap (λ x. get x s) {x = p.fingerprint} {y = fp})

get-change :
    (f : TrustedPeer → TrustedPeer) (k : Fingerprint) (s : TrustStore) (fp : Fingerprint)
    → ((p : TrustedPeer) → (f p).fingerprint ≡ p.fingerprint)
    → get fp (change f k s).0 ≡ ite (Bytes-discrete k fp) (changed f (get k s)) (get fp s)
unfolding get change
get-change f k [] fp keeps = ground arith
get-change f k (p ∷ s) fp keeps = ground (arith, get-change f k s fp keeps, keeps p)

upsert-Unique : (peer : TrustedPeer) (s : TrustStore) → Unique s → Unique (upsert peer s)
unfolding get upsert
upsert-Unique peer [] u = (refl, tt)
upsert-Unique peer (p ∷ s) u = ground (
  arith,
  upsert-Unique peer s u.1,
  get-upsert peer s p.fingerprint,
  ap (λ x. get x s) {x = p.fingerprint} {y = peer.fingerprint},
)

remove-Unique : (k : Fingerprint) (s : TrustStore) → Unique s → Unique (remove k s).0
unfolding get remove
remove-Unique k [] u = tt
remove-Unique k (p ∷ s) u = ground (arith, remove-Unique k s u.1, get-remove k s p.fingerprint u.1)

change-Unique :
    (f : TrustedPeer → TrustedPeer) (k : Fingerprint) (s : TrustStore)
    → ((p : TrustedPeer) → (f p).fingerprint ≡ p.fingerprint)
    → Unique s
    → Unique (change f k s).0
unfolding get change
change-Unique f k [] keeps u = tt
change-Unique f k (p ∷ s) keeps u = ground (
  arith,
  change-Unique f k s keeps u.1,
  get-change f k s p.fingerprint keeps,
  keeps p,
  ap (λ x. get x s) {x = p.fingerprint} {y = (f p).fingerprint},
)

run_op-Unique : (op : TrustOp) (s : TrustStore) → Unique s → Unique (run_op op s)
unfolding run_op set_perms set_alias with_perms with_alias
run_op-Unique (put p) s u = upsert-Unique p s u
run_op-Unique (drop fp) s u = remove-Unique fp s u
run_op-Unique (perms_of fp perms) s u = change-Unique (with_perms perms) fp s (λ p. refl) u
run_op-Unique (alias_of fp alias) s u = change-Unique (with_alias alias) fp s (λ p. refl) u

run_op-get :
    (op : TrustOp) (s : TrustStore) (fp : Fingerprint)
    → Unique s
    → get fp (run_op op s) ≡ view_op op (λ j. get j s) fp
unfolding run_op set_perms set_alias with_perms with_alias
run_op-get (put p) s fp u = get-upsert p s fp
run_op-get (drop k) s fp u = get-remove k s fp u
run_op-get (perms_of k perms) s fp u = get-change (with_perms perms) k s fp (λ p. refl)
run_op-get (alias_of k alias) s fp u = get-change (with_alias alias) k s fp (λ p. refl)

is_trusted-get : (fp : Fingerprint) (s : TrustStore) → is_trusted fp s ≡ is_some (get fp s)
unfolding is_trusted get
is_trusted-get fp [] = refl
is_trusted-get fp (p ∷ s) = ground (arith, is_trusted-get fp s)

-- After any sequence of operations on a store with no fingerprint twice, the store has for each
-- fingerprint what a map from fingerprints to peers has after the same operations, and a device is
-- trusted exactly if it has an entry there.
pub run_all-view_all :
    (ops : List TrustOp) (s : TrustStore) (fp : Fingerprint)
    → Unique s
    → (get fp (run_all ops s) ≡ view_all ops (λ j. get j s) fp)
      × (is_trusted fp (run_all ops s) ≡ is_some (view_all ops (λ j. get j s) fp))
unfolding run_all
run_all-view_all [] s fp u = (refl, is_trusted-get fp s)
run_all-view_all (op ∷ ops) s fp u =
    let rest = run_all-view_all ops (run_op op s) fp (run_op-Unique op s u) in
    let same : (λ j. get j (run_op op s)) ≡ view_op op (λ j. get j s) =
      λ i j. run_op-get op s j u i in
    let view = ap (λ v. view_all ops v fp) same in (rest.0 ∙ view, rest.1 ∙ ap is_some view)
