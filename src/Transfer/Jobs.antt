-- ===== src/Transfer/Jobs.antt =====
-- crates/localtrans-core/src/transfer/mod.rs: the jobs that a directory of parts holds. An entry is
-- what the code reads of it: whether it is a directory, its name, its manifest if it loads.
mod Radix
pub mod Scans
use localtrans.Base.{
  ℕ, ◌+◌, ◌-◌, ◌*◌, ◌^◌, Bool, true, false, ◌&&◌, not, Option, none, some, List, [], ◌∷◌, String,
  if◌then◌else◌, is_some,
}
use localtrans.Transfer.Manifest.{Manifest, missing_chunks}
use localtrans.Transfer.Jobs.Radix.{from_str_radix_16}

pub record Entry : Type 0 where
  pub is_dir : Bool
  pub name : Option String
  pub manifest : Option Manifest

pub record OrphanJob : Type 0 where
  pub job_id : ℕ
  pub manifest : Manifest

-- The number in the name of an entry.
unfoldable pub job_id_of : Entry → Option ℕ
unfolding from_str_radix_16
job_id_of e = elim e.name [ none ↦ none | some name ↦ from_str_radix_16 name ]

unfoldable pub is_complete : Manifest → Bool
unfolding missing_chunks
is_complete m = elim (missing_chunks m) [ [] ↦ true | _ ∷ _ ↦ false ]

-- `orphan_jobs` for one entry.
unfoldable pub orphan_job : Entry → Option OrphanJob
unfolding job_id_of
orphan_job e =
    if e.is_dir
    then elim e.manifest [
      | none ↦ none
      | some m ↦ elim (job_id_of e) [
        | none ↦ none
        | some id ↦ some (record { job_id = id; manifest = m })
      ]
    ]
    else none

unfoldable pub collect : (Entry → Option OrphanJob) → List Entry → List OrphanJob
collect f [] = []
collect f (e ∷ es) = let rest = collect f es in elim (f e) [ none ↦ rest | some job ↦ job ∷ rest ]

unfoldable pub orphan_jobs : List Entry → List OrphanJob
unfolding collect orphan_job
orphan_jobs entries = collect orphan_job entries

-- `pending_jobs` for one entry.
unfoldable pub pending_job : Entry → Option OrphanJob
unfolding job_id_of is_complete
pending_job e =
    if e.is_dir
    then elim e.manifest [
      | none ↦ none
      | some m ↦ elim (job_id_of e) [
        | none ↦ none
        | some id ↦ if is_complete m then none else some (record { job_id = id; manifest = m })
      ]
    ]
    else none

unfoldable pub pending_jobs : List Entry → List OrphanJob
unfolding collect pending_job
pending_jobs entries = collect pending_job entries

-- Whether `gc_stale_parts` removes an entry, given that the system lets it.
unfoldable pub is_stale : Entry → Bool
unfolding job_id_of is_complete
is_stale e =
    e.is_dir && (is_some (job_id_of e) && elim e.manifest [ none ↦ false | some m ↦ is_complete m ])

-- The entries that are left and the number of those removed; `removes` tells for an entry whether the
-- system removes it.
unfoldable pub gc_stale_parts : (Entry → Bool) → List Entry → List Entry × ℕ
unfolding is_stale
gc_stale_parts removes [] = ([], 0)
gc_stale_parts removes (e ∷ es) =
    let rest = gc_stale_parts removes es in
    if is_stale e && removes e then (rest.0, rest.1 + 1) else (e ∷ rest.0, rest.1)
