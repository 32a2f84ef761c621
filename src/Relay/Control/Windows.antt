-- ===== src/Relay/Control/Windows.antt =====
-- crates/localtrans-relay/src/control.rs: the lists of times that the limit on punches keeps.
use localtrans.Base.{
  ℕ, ◌≤◌, ◌≡◌, refl, ap, Option, none, some, List, [], ◌∷◌, ◌++◌, arith, if◌then◌else◌, leb, holds,
  length, inl, inr, Bool-cases, Bytes-discrete,
}
use localtrans.Base.Maps.{Map, get, get-insert, Distinct, insert-Distinct}
use localtrans.Relay.Proto.{Fingerprint}
use localtrans.Relay.Control.{RelayServer, within, times_of, punch_rate_ok, keep_recent}

pub within-append :
    (now width : ℕ) (xs ys : List ℕ)
    → within now width (xs ++ ys) ≡ within now width xs ++ within now width ys
unfolding within
within-append now width [] ys = refl
within-append now width (x ∷ xs) ys = ground (arith, within-append now width xs ys)

-- What an earlier or a wider window has dropped, a later and narrower one drops.
pub within-within :
    (now later width wide : ℕ) (xs : List ℕ)
    → now ≤ later
    → width ≤ wide
    → within later width (within now wide xs) ≡ within later width xs
unfolding within
within-within now later width wide [] h w = refl
within-within now later width wide (x ∷ xs) h w =
    ground (arith, within-within now later width wide xs h w)

pub times_of-punch_rate_ok :
    (s : RelayServer) (fp q : Fingerprint) (now : ℕ)
    → times_of (punch_rate_ok s fp now).0 q ≡ (
        if holds (Bytes-discrete fp q)
        then (if (punch_rate_ok s fp now).1
            then within now 60000 (times_of s q) ++ now ∷ []
            else within now 60000 (times_of s q))
        else times_of s q)
unfolding punch_rate_ok times_of
times_of-punch_rate_ok s fp q now =
    let entry = within now 60000 (times_of s fp) in
    ground (
      arith,
      get-insert Bytes-discrete fp q entry s.punch_rate,
      get-insert Bytes-discrete fp q (entry ++ now ∷ []) s.punch_rate,
      ap (times_of s) {x = fp} {y = q},
    )

abbrev pub listed : Option (List ℕ) → List ℕ
listed none = []
listed (some ts) = ts

pub keep_recent-none :
    (q : Fingerprint) (now : ℕ) (m : Map Fingerprint (List ℕ))
    → get Bytes-discrete q m ≡ none
    → get Bytes-discrete q (keep_recent now m) ≡ none
unfolding keep_recent get
keep_recent-none q now [] h = refl
keep_recent-none q now ((fp, []) ∷ m) h = keep_recent-none q now m (ground arith)
keep_recent-none q now ((fp, t ∷ ts) ∷ m) h = ground (arith, keep_recent-none q now m)

pub keep_recent-Distinct :
    (now : ℕ) (m : Map Fingerprint (List ℕ))
    → Distinct Bytes-discrete m
    → Distinct Bytes-discrete (keep_recent now m)
unfolding keep_recent
keep_recent-Distinct now [] d = tt
keep_recent-Distinct now ((fp, []) ∷ m) d = keep_recent-Distinct now m d.1
keep_recent-Distinct now ((fp, t ∷ ts) ∷ m) d =
    (keep_recent-none fp now m d.0, keep_recent-Distinct now m d.1)

pub get-keep_recent :
    (q : Fingerprint) (now : ℕ) (m : Map Fingerprint (List ℕ))
    → Distinct Bytes-discrete m
    → listed (get Bytes-discrete q (keep_recent now m))
      ≡ within now 61000 (listed (get Bytes-discrete q m))
unfolding keep_recent get within
get-keep_recent q now [] d = refl
get-keep_recent q now ((fp, []) ∷ m) d = elim (Bytes-discrete fp q) [
  | yes e ↦ ground (arith, keep_recent-none q now m, ap (λ k. get Bytes-discrete k m) e, d.0)
  | no e ↦ ground (arith, get-keep_recent q now m d.1)
]
get-keep_recent q now ((fp, t ∷ ts) ∷ m) d = ground (arith, get-keep_recent q now m d.1)

pub times_of-listed :
    (s : RelayServer) (q : Fingerprint) → times_of s q ≡ listed (get Bytes-discrete q s.punch_rate)
unfolding times_of
times_of-listed s q = ground arith

pub punch-Distinct :
    (s : RelayServer) (fp : Fingerprint) (now : ℕ)
    → Distinct Bytes-discrete s.punch_rate
    → Distinct Bytes-discrete (punch_rate_ok s fp now).0.punch_rate
unfolding punch_rate_ok
punch-Distinct s fp now d =
    let entry = within now 60000 (times_of s fp) in
    elim (Bool-cases (leb 10 (length entry))) [
      | inl e ↦ rw (e, punch_rate_ok) (insert-Distinct Bytes-discrete fp entry s.punch_rate d)
      | inr e ↦
          rw (e, punch_rate_ok)
            (insert-Distinct Bytes-discrete fp (entry ++ now ∷ []) s.punch_rate d)
    ]
