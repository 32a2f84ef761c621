-- ===== src/Transfer/Writer/Intact.antt =====
-- crates/localtrans-core/src/transfer/engine.rs: the chunks that are marked as received are on disk.
use localtrans.Base.{
  ℕ, zero, suc, ◌+◌, ◌≤◌, ◌≡◌, ◌≢◌, refl, sym, ap, subst, ◌∙◌, ◌⊎◌, inl, inr, Bool, true, some,
  List, [], ◌∷◌, String, Bytes, arith, if◌then◌else◌, ◌==◌, str_eq, str_eq→eq, length, get_elem?,
  Option-cases, Bool-cases, Result, ok, ℕ_discrete,
}
use localtrans.Transfer.Manifest.{Manifest, chunk_offset, chunk_len}
use localtrans.Transfer.Writer.{
  PartWriter, WriteError, written, write_at, set_true, should_save, save_now, mark_received,
  write_chunk_preverified, write_chunk,
}
use localtrans.Transfer.Writer.Files.{
  slice, length-write_at, slice-write_at_same, slice-write_at_other,
}

get_elem?-set_true :
    (bs cs : List Bool) (i j : ℕ)
    → set_true bs i ≡ some cs
    → get_elem? cs j ≡ (if j == i then some true else get_elem? bs j)
unfolding set_true
get_elem?-set_true [] cs i j h = absurd (ground arith)
get_elem?-set_true (b ∷ bs) cs zero zero h =
    ground (arith, ap (λ x. get_elem? x 0) {x = true ∷ bs} {y = cs})
get_elem?-set_true (b ∷ bs) cs zero (suc j) h =
    ground (arith, ap (λ x. get_elem? x (suc j)) {x = true ∷ bs} {y = cs})
get_elem?-set_true (b ∷ bs) cs (suc i) j h = elim (Option-cases (set_true bs i)) [
  | inl e ↦ absurd (ground arith)
  | inr (ds, e) ↦
      let same : b ∷ ds ≡ cs = ground arith in
      get_elem?-set_true_later b bs ds cs i j same (λ k. get_elem?-set_true bs ds i k e)
]
  where
    get_elem?-set_true_later :
        (b : Bool) (bs ds cs : List Bool) (i j : ℕ)
        → b ∷ ds ≡ cs
        → ((k : ℕ) → get_elem? ds k ≡ (if k == i then some true else get_elem? bs k))
        → get_elem? cs j ≡ (if j == suc i then some true else get_elem? (b ∷ bs) j)
    get_elem?-set_true_later b bs ds cs i zero same rest =
        ground (arith, ap (λ x. get_elem? x 0) same)
    get_elem?-set_true_later b bs ds cs i (suc k) same rest =
        ground (arith, ap (λ x. get_elem? x (suc k)) same, rest k)

length-set_true : (bs cs : List Bool) (i : ℕ) → set_true bs i ≡ some cs → length cs ≡ length bs
unfolding set_true
length-set_true [] cs i h = absurd (ground arith)
length-set_true (b ∷ bs) cs zero h = ground (arith, ap (λ x. length x) {x = true ∷ bs} {y = cs})
length-set_true (b ∷ bs) cs (suc i) h = elim (Option-cases (set_true bs i)) [
  | inl e ↦ absurd (ground arith)
  | inr (ds, e) ↦
      ground (arith, ap (λ x. length x) {x = b ∷ ds} {y = cs}, length-set_true bs ds i e)
]

-- What stays the same of the manifest.
unfoldable pub Fits : String → ℕ → List String → Manifest → Type 0
Fits name size hashes m =
    (m.file_name ≡ name)
    × (m.total_size ≡ size)
    × (m.chunk_hashes ≡ hashes)
    × (length m.received ≡ length hashes)

module _ (hash : Bytes → String) where
  -- The bytes of a chunk in the part file.
  unfoldable pub chunk_of : PartWriter → ℕ → Bytes
  chunk_of w i = slice w.part (chunk_offset i) (chunk_len w.manifest i)

  -- A chunk that is marked as received lies in the part file and has the hash of the manifest.
  unfoldable pub Intact : PartWriter → Type 0
  unfolding chunk_of
  Intact w =
      (i : ℕ) (h : String)
      → get_elem? w.manifest.received i ≡ some true
      → get_elem? w.manifest.chunk_hashes i ≡ some h
      → (chunk_offset i + chunk_len w.manifest i ≤ length w.part) × (hash (chunk_of w i) ≡ h)

  stored : PartWriter → ℕ → Bytes → List Bool → PartWriter
  stored w idx bytes received = record w {
    part = write_at w.part (chunk_offset idx) bytes;
    manifest = record w.manifest { received = received };
  }

  chunks-apart :
      (m : Manifest) (i j : ℕ)
      → i ≢ j
      → (chunk_offset i + chunk_len m i ≤ chunk_offset j)
        ⊎ (chunk_offset j + chunk_len m j ≤ chunk_offset i)
  unfolding chunk_offset chunk_len
  chunks-apart m i j apart = ground arith

  stored-Intact :
      (w : PartWriter) (idx : ℕ) (bytes : Bytes) (received : List Bool) (expected : String)
      → Intact w
      → get_elem? w.manifest.chunk_hashes idx ≡ some expected
      → hash bytes ≡ expected
      → length bytes ≡ chunk_len w.manifest idx
      → set_true w.manifest.received idx ≡ some received
      → Intact (stored w idx bytes received)
  unfolding Intact stored chunk_of chunk_len chunk_offset
  stored-Intact w idx bytes received expected intact at right size set i h marked known =
      let off = chunk_offset idx in
      let longer = length-write_at w.part off bytes in
      elim (ℕ_discrete i idx) [
        | yes e ↦
            let whole = slice-write_at_same w.part off bytes in
            let known2 : get_elem? w.manifest.chunk_hashes idx ≡ some h = rw e at known in
            let same : hash bytes ≡ h = ground arith in
            let mine : hash (slice (write_at w.part off bytes) off (chunk_len w.manifest idx)) ≡ h =
              rw (sym size, whole) same in
            (rw e (ground (arith, longer.1, size)), rw e mine)
        | no apart ↦
            let before = get_elem?-set_true w.manifest.received received idx i set in
            let was = intact i h (ground arith) known in
            let beside = chunks-apart w.manifest i idx apart in
            let start = chunk_offset i in
            let size_i = chunk_len w.manifest i in
            let kept = slice-write_at_other w.part off bytes start size_i was.0 (ground arith) in
            (ground (arith, was.0, longer.0), ap hash kept ∙ was.1)
      ]

  mark_received-same :
      (now : ℕ) (received : List Bool) (saves : Bool) (w : PartWriter)
      → ((mark_received now received saves w).1.part ≡ w.part)
        × ((mark_received now received saves w).1.manifest
            ≡ record w.manifest { received = received })
  unfolding mark_received save_now
  mark_received-same now received saves w =
      let next : PartWriter = record w { manifest = record w.manifest { received = received } } in
      elim (Bool-cases (should_save now next)) [
        | inl e ↦ elim (Bool-cases saves) [
          | inl s ↦
              (rw (e, s, mark_received, save_now) refl, rw (e, s, mark_received, save_now) refl)
          | inr s ↦
              (rw (e, s, mark_received, save_now) refl, rw (e, s, mark_received, save_now) refl)
        ]
        | inr e ↦ (rw (e, mark_received) refl, rw (e, mark_received) refl)
      ]

  Intact-same : (v w : PartWriter) → v.part ≡ w.part → v.manifest ≡ w.manifest → Intact v → Intact w
  unfolding Intact chunk_of
  Intact-same v w part manifest intact =
      let moved = subst (λ p. Intact (record w { part = p; manifest = v.manifest })) part intact in
      subst (λ m. Intact (record w { manifest = m })) manifest moved

  write_stored :
      (now : ℕ) (saves : Bool) (idx : ℕ) (bytes : Bytes) (expected : String) (received : List Bool)
      (w : PartWriter)
      → get_elem? w.manifest.chunk_hashes idx ≡ some expected
      → str_eq (hash bytes) expected ≡ true
      → length bytes == chunk_len w.manifest idx ≡ true
      → set_true w.manifest.received idx ≡ some received
      → write_chunk hash now written saves idx bytes w
        ≡ some (
            mark_received now received saves
              (record w { part = write_at w.part (chunk_offset idx) bytes }))
  unfolding write_chunk write_chunk_preverified
  write_stored now saves idx bytes expected received w at right size set = ground arith

  -- What a chunk that is written can lead to: a refusal that changes nothing, or the chunk in the
  -- part file and its mark in the manifest.
  Stored : ℕ → Bytes → PartWriter → PartWriter → Type 0
  Stored idx bytes w next =
      (expected : String) × (received : List Bool) × (get_elem? w.manifest.chunk_hashes idx
        ≡ some expected)
      × (hash bytes ≡ expected)
      × (length bytes ≡ chunk_len w.manifest idx)
      × (set_true w.manifest.received idx ≡ some received)
      × (write_at w.part (chunk_offset idx) bytes ≡ next.part)
      × (record w.manifest { received = received } ≡ next.manifest)

  write_chunk-cases :
      (now : ℕ) (saves : Bool) (idx : ℕ) (bytes : Bytes) (w next : PartWriter)
      (r : Result WriteError (Unit {0}))
      → write_chunk hash now written saves idx bytes w ≡ some (r, next)
      → ((w ≡ next) × (r ≢ ok tt)) ⊎ Stored idx bytes w next
  unfolding write_chunk write_chunk_preverified Stored
  write_chunk-cases now saves idx bytes w next r h =
      elim (Option-cases (get_elem? w.manifest.chunk_hashes idx)) [
        | inl out ↦ absurd (ground arith)
        | inr (expected, at) ↦ elim (Bool-cases (str_eq (hash bytes) expected)) [
          | inr wrong ↦ inl (ground arith, ground arith)
          | inl right ↦ elim (Bool-cases (length bytes == chunk_len w.manifest idx)) [
            | inr long ↦ inl (ground arith, ground arith)
            | inl size ↦ elim (Option-cases (set_true w.manifest.received idx)) [
              | inl out ↦ absurd (ground arith)
              | inr (received, set) ↦
                  let done =
                    write_stored now saves idx bytes expected received w at right size set in
                  let placed : PartWriter = record w {
                    part = write_at w.part (chunk_offset idx) bytes;
                  } in
                  let marked : mark_received now received saves placed ≡ (r, next) = ground arith in
                  let kept = mark_received-same now received saves placed in
                  inr (
                    expected,
                    received,
                    at,
                    str_eq→eq (hash bytes) expected right,
                    ground (arith, size),
                    set,
                    sym kept.0 ∙ ap (λ p. p.1.part) marked,
                    sym kept.1 ∙ ap (λ p. p.1.manifest) marked,
                  )
            ]
          ]
        ]
      ]

  -- When the disk takes what is written, a chunk that is offered, right or wrong, leaves the marked
  -- chunks on disk with their hashes, also when the manifest cannot be saved; and one that is
  -- accepted is marked afterwards.
  pub write_chunk-Intact :
      (now : ℕ) (saves : Bool) (idx : ℕ) (bytes : Bytes) (w next : PartWriter)
      (r : Result WriteError (Unit {0}))
      → Intact w
      → write_chunk hash now written saves idx bytes w ≡ some (r, next)
      → Intact next × (r ≡ ok tt → get_elem? next.manifest.received idx ≡ some true)
  unfolding Stored stored
  write_chunk-Intact now saves idx bytes w next r intact h =
      elim (write_chunk-cases now saves idx bytes w next r h) [
        | inl (same, bad) ↦ (subst Intact same intact, λ good. absurd (bad good))
        | inr (expected, received, at, right, size, set, part, manifest) ↦
            let whole = stored-Intact w idx bytes received expected intact at right size set in
            let here = get_elem?-set_true w.manifest.received received idx idx set in
            let on : get_elem? received idx ≡ some true = ground (arith, here) in
            (
              Intact-same (stored w idx bytes received) next part manifest whole,
              λ good. sym (ap (λ m. get_elem? m.received idx) manifest) ∙ on,
            )
      ]

  pub write_chunk-Fits :
      (now : ℕ) (saves : Bool) (idx : ℕ) (bytes : Bytes) (w next : PartWriter)
      (r : Result WriteError (Unit {0})) (name : String) (size : ℕ) (hashes : List String)
      → Fits name size hashes w.manifest
      → write_chunk hash now written saves idx bytes w ≡ some (r, next)
      → Fits name size hashes next.manifest
  unfolding Fits Stored
  write_chunk-Fits now saves idx bytes w next r name size hashes fits h =
      elim (write_chunk-cases now saves idx bytes w next r h) [
        | inl (same, bad) ↦ subst (λ v. Fits name size hashes v.manifest) same fits
        | inr (expected, received, at, right, long, set, part, manifest) ↦
            let still = length-set_true w.manifest.received received idx set ∙ fits.3 in
            subst (Fits name size hashes) manifest (fits.0, fits.1, fits.2, still)
      ]
