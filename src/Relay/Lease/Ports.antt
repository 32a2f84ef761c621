-- ===== src/Relay/Lease/Ports.antt =====
-- `self.port_range.clone().find(|p| !used.contains(p))`: the first free port of a range.
use localtrans.Base.{
  ℕ, zero, suc, ◌+◌, ◌≤◌, ◌<◌, ◌≡◌, inl, inr, Bool, true, false, Option, none, some, arith,
  if◌then◌else◌, Bool-cases, dec_le,
}

-- `n` ports from `p` on.
unfoldable pub find_port : (ℕ → Bool) → ℕ → ℕ → Option ℕ
find_port used zero p = none
find_port used (suc n) p = let rest = find_port used n (suc p) in if used p then rest else some p

used_from :
    (used : ℕ → Bool) (p i : ℕ)
    → used p ≡ true
    → (suc p ≤ i → used i ≡ true)
    → p ≤ i
    → used i ≡ true
used_from used p i here above h = elim (dec_le (suc p) i) [
  | yes g ↦ above g
  | no g ↦ let e : i ≡ p = omega arith in rw e here
]

-- What is found lies in the range and is free, and all below it is in use.
pub find_port-some :
    (used : ℕ → Bool) (n p q : ℕ)
    → find_port used n p ≡ some q
    → (p ≤ q) × (q < p + n) × (used q ≡ false) × ((i : ℕ) → p ≤ i → i < q → used i ≡ true)
unfolding find_port
find_port-some used zero p q h = absurd (ground arith)
find_port-some used (suc n) p q h = elim (Bool-cases (used p)) [
  | inl e ↦
      let (lo, hi, free, below) = find_port-some used n (suc p) q (ground arith) in
      (
        omega arith,
        omega arith,
        free,
        λ i i_lo i_hi. used_from used p i e (λ g. below i g i_hi) i_lo,
      )
  | inr e ↦
      let here : p ≡ q = ground arith in
      (omega arith, omega arith, ground arith, λ i i_lo i_hi. absurd (omega arith))
]

-- Nothing is found only when every port of the range is in use.
pub find_port-none :
    (used : ℕ → Bool) (n p : ℕ)
    → find_port used n p ≡ none
    → (i : ℕ) → p ≤ i
    → i < p + n
    → used i ≡ true
unfolding find_port
find_port-none used zero p h i lo hi = absurd (omega arith)
find_port-none used (suc n) p h i lo hi = elim (Bool-cases (used p)) [
  | inl e ↦
      used_from used p i e (λ g. find_port-none used n (suc p) (ground arith) i g (omega arith)) lo
  | inr e ↦ absurd (ground arith)
]
