-- ===== src/Transfer/Jobs/Scans.antt =====
-- crates/localtrans-core/src/transfer/mod.rs: what the three scans make of the same directory.
use localtrans.Base.{
  ◌+◌, ◌≡◌, refl, Bool, true, false, Option, none, List, [], ◌∷◌, arith, length, inl, inr,
  Bool-cases, is_some,
}
use localtrans.Transfer.Jobs.{
  Entry, OrphanJob, orphan_job, collect, orphan_jobs, pending_job, pending_jobs, is_stale,
  gc_stale_parts,
}

pending_job-stale : (e : Entry) → is_stale e ≡ true → pending_job e ≡ none
unfolding pending_job is_stale
pending_job-stale e h = ground arith

orphan_job-stale : (e : Entry) → is_stale e ≡ true → is_some (orphan_job e) ≡ true
unfolding orphan_job is_stale
orphan_job-stale e h = ground arith

orphan_job-pending : (e : Entry) → is_stale e ≡ false → orphan_job e ≡ pending_job e
unfolding orphan_job pending_job is_stale
orphan_job-pending e h = ground arith

collect-gc_stale_parts :
    (f : Entry → Option OrphanJob) (removes : Entry → Bool) (entries : List Entry)
    → ((e : Entry) → is_stale e ≡ true → f e ≡ none)
    → collect f (gc_stale_parts removes entries).0 ≡ collect f entries
unfolding collect gc_stale_parts
collect-gc_stale_parts f removes [] lost = refl
collect-gc_stale_parts f removes (e ∷ es) lost =
    let rest = collect-gc_stale_parts f removes es lost in
    elim (Bool-cases (is_stale e)) [
      | inl stale ↦ elim (Bool-cases (removes e)) [
        | inl gone ↦ ground (arith, rest, lost e stale)
        | inr stays ↦ ground (arith, rest, lost e stale)
      ]
      | inr kept ↦ ground (arith, rest)
    ]

collect-all :
    (f g : Entry → Option OrphanJob) (entries : List Entry)
    → ((e : Entry) → is_stale e ≡ true → g e ≡ none)
    → ((e : Entry) → is_stale e ≡ true → is_some (f e) ≡ true)
    → ((e : Entry) → is_stale e ≡ false → f e ≡ g e)
    → (collect f (gc_stale_parts (λ _. true) entries).0 ≡ collect g entries)
      × (length (collect f entries)
          ≡ length (collect g entries) + (gc_stale_parts (λ _. true) entries).1)
unfolding collect gc_stale_parts
collect-all f g [] none_left was same = (refl, refl)
collect-all f g (e ∷ es) none_left was same =
    let rest = collect-all f g es none_left was same in
    elim (Bool-cases (is_stale e)) [
      | inl stale ↦ ground (arith, rest, none_left e stale, was e stale)
      | inr kept ↦ ground (arith, rest, same e kept)
    ]

-- The removal of finished parts loses no job that can go on: the pending jobs are the same before
-- and after, whichever of these directories the system lets go; where it lets all go, a scan for
-- orphans finds the pending jobs and no other, and each orphan it does not find was a directory
-- removed.
pub gc_stale_parts-pending :
    (removes : Entry → Bool) (entries : List Entry)
    → (pending_jobs (gc_stale_parts removes entries).0 ≡ pending_jobs entries)
      × (orphan_jobs (gc_stale_parts (λ _. true) entries).0 ≡ pending_jobs entries)
      × (length (orphan_jobs entries)
          ≡ length (pending_jobs entries) + (gc_stale_parts (λ _. true) entries).1)
unfolding pending_jobs orphan_jobs
gc_stale_parts-pending removes entries =
    let all =
      collect-all orphan_job pending_job entries pending_job-stale orphan_job-stale
        orphan_job-pending in
    (collect-gc_stale_parts pending_job removes entries pending_job-stale, all.0, all.1)
