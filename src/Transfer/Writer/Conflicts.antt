-- ===== src/Transfer/Writer/Conflicts.antt =====
-- crates/localtrans-core/src/transfer/engine.rs: where a finished file goes.
use localtrans.Base.{
  ℕ, zero, suc, ◌+◌, ◌≤◌, ◌≡◌, refl, sym, ap, subst, ◌∙◌, ◌⊎◌, inl, inr, true, false, some, [], ◌∷◌,
  String, arith, str_eq, str_eq→eq, str_eq_refl, List-cases, Bool-cases, Result-cases, ok,
  ℕ_discrete,
}
use localtrans.Transfer.Manifest.{missing_chunks}
use localtrans.Transfer.Names.{sanitize_file_name}
use localtrans.Transfer.Names.Numbered.{numbered}
use localtrans.Transfer.Writer.{
  PartWriter, Directory, exists, read_file, delete_file, rename_to, free_name,
  resolve_name_conflict, finalize,
}

read_file-delete_file :
    (name other : String) (files : Directory)
    → str_eq name other ≡ false
    → read_file other (delete_file name files) ≡ read_file other files
unfolding read_file delete_file
read_file-delete_file name other [] apart = refl
read_file-delete_file name other ((n, b) ∷ files) apart = elim (Bool-cases (str_eq n name)) [
  | inl e ↦
      let same = str_eq→eq n name e in
      ground (arith, read_file-delete_file name other files apart, ap (λ x. str_eq x other) same)
  | inr e ↦ ground (arith, read_file-delete_file name other files apart)
]

-- All names with numbers from `i` to `k` are taken.
abbrev Taken : String → Directory → ℕ → ℕ → Type 0
Taken name files i k = (j : ℕ) → i ≤ j → j ≤ k → exists (numbered name j) files ≡ true

free_name-free :
    (n i : ℕ) (name : String) (files : Directory)
    → (exists (free_name n i name files) files ≡ false)
      ⊎ (Taken name files i (i + n) × (free_name n i name files ≡ numbered name (i + n)))
unfolding free_name
free_name-free zero i name files = elim (Bool-cases (exists (numbered name i) files)) [
  | inr free ↦ inl free
  | inl taken ↦
      let same : i ≡ i + 0 = omega arith in
      inr (
        (λ j low high.
            let at : i ≡ j = omega (arith, low, high) in
            subst (λ k. exists (numbered name k) files ≡ true) at taken),
        ap (numbered name) same,
      )
]
free_name-free (suc n) i name files = elim (Bool-cases (exists (numbered name i) files)) [
  | inr free ↦ inl (rw (free, free_name) free)
  | inl taken ↦
      let here : free_name (suc n) i name files ≡ free_name n (i + 1) name files =
        rw (taken, free_name) refl in
      elim (free_name-free n (i + 1) name files) [
        | inl free ↦ inl (rw here free)
        | inr (later, last) ↦
            let end : i + 1 + n ≡ i + suc n = omega arith in
            inr (
              (λ j low high. elim (ℕ_discrete i j) [
                | yes e ↦ subst (λ k. exists (numbered name k) files ≡ true) e taken
                | no apart ↦ later j (omega (arith, low, apart)) (omega (arith, high))
              ]),
              here ∙ last ∙ ap (numbered name) end,
            )
      ]
]

resolve_name_conflict-free :
    (name : String) (files : Directory)
    → (exists (resolve_name_conflict name files) files ≡ false)
      ⊎ ((exists name files ≡ true)
          × Taken name files 1 100
          × (resolve_name_conflict name files ≡ numbered name 100))
unfolding resolve_name_conflict
resolve_name_conflict-free name files = elim (Bool-cases (exists name files)) [
  | inr free ↦ inl (rw (free, resolve_name_conflict) free)
  | inl taken ↦
      let here : resolve_name_conflict name files ≡ free_name 99 1 name files =
        rw (taken, resolve_name_conflict) refl in
      elim (free_name-free 99 1 name files) [
        | inl free ↦ inl (rw here free)
        | inr (all, last) ↦ inr (taken, all, here ∙ last)
      ]
]

finalize-parts :
    (w : PartWriter) (dest after : Directory) (name : String)
    → finalize true true w dest ≡ ok (name, after)
    → (missing_chunks w.manifest ≡ [])
      × (resolve_name_conflict w.manifest.file_name dest ≡ name)
      × (rename_to name w.part dest ≡ after)
unfolding finalize
finalize-parts w dest after name h = elim (Result-cases (sanitize_file_name w.manifest.file_name)) [
  | inr (e, bad) ↦ absurd (ground arith)
  | inl (clean, good) ↦ elim (List-cases (missing_chunks w.manifest)) [
    | inr (x, xs, some_missing) ↦ absurd (ground arith)
    | inl none_missing ↦
        let target = resolve_name_conflict w.manifest.file_name dest in
        let named : target ≡ name = ground arith in
        let moved : rename_to target w.part dest ≡ after = ground arith in
        (none_missing, named, rw named at moved)
  ]
]

-- When `finalize` succeeds, no chunk is missing, the part file stands in the directory under the
-- name that is returned, and every other name keeps its file; the name was free before, or else the
-- name of the file and its numbered names from 1 to 100 were all taken, and then it is the last of
-- these, and the file that had it is gone.
pub finalize-keeps :
    (w : PartWriter) (dest after : Directory) (name : String)
    → finalize true true w dest ≡ ok (name, after)
    → (missing_chunks w.manifest ≡ [])
      × (read_file name after ≡ some w.part)
      × ((other : String)
          → str_eq name other ≡ false
          → read_file other after ≡ read_file other dest)
      × ((exists name dest ≡ false)
          ⊎ ((exists w.manifest.file_name dest ≡ true)
              × Taken w.manifest.file_name dest 1 100
              × (name ≡ numbered w.manifest.file_name 100)))
unfolding finalize rename_to read_file
finalize-keeps w dest after name h =
    let parts = finalize-parts w dest after name h in
    let moved = parts.2 in
    let placed : read_file name (rename_to name w.part dest) ≡ some w.part =
      ground (arith, str_eq_refl name) in
    (
      parts.0,
      sym (ap (λ d. read_file name d) moved) ∙ placed,
      (λ other apart.
          let kept : read_file other (rename_to name w.part dest) ≡ read_file other dest =
            ground (arith, read_file-delete_file name other dest apart, apart) in
          sym (ap (λ d. read_file other d) moved) ∙ kept),
      rw parts.1 at (resolve_name_conflict-free w.manifest.file_name dest),
    )
