-- ===== src/Memory/Backoff.antt =====
-- crates/localtrans-core/src/connect_memory.rs and relay/autoheal.rs: the waits and their end.
use localtrans.Base.{ℕ, suc, ◌≡◌, refl, inl, inr, Bool, some, if◌then◌else◌, Bool-cases}
use localtrans.Memory.{record_failure, reconnect, connected, gave_up}

-- The loop that connects again ends after at most three attempts, whichever of them succeed: with
-- the first that does, having waited one second before the second attempt and two before the third,
-- and otherwise without a connection.
pub reconnect-ends :
    (fuel : ℕ) (connects : ℕ → Bool)
    → reconnect (suc (suc (suc fuel))) connects 0 0 0
      ≡ some (
          if connects 0
          then connected 0 0
          else if connects 1
          then connected 1 1
          else if connects 2
          then connected 2 3
          else gave_up 2 3)
unfolding reconnect record_failure
reconnect-ends fuel connects = elim (Bool-cases (connects 0)) [
  | inl e ↦ rw e refl
  | inr e ↦ elim (Bool-cases (connects 1)) [
    | inl f ↦ rw (e, f) refl
    | inr f ↦ elim (Bool-cases (connects 2)) [
      | inl g ↦ rw (e, f, g) refl
      | inr g ↦ rw (e, f, g) refl
    ]
  ]
]
