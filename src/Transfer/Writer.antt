-- ===== src/Transfer/Writer.antt =====
-- crates/localtrans-core/src/transfer/engine.rs: `PartWriter`, which puts the chunks of a file that is
-- received into its part file and keeps the manifest on disk up to date. The hash is a parameter, and
-- whether the disk does what it is told is an argument of each operation.
pub mod Files
pub mod Intact
pub mod Conflicts
pub mod Whole
use localtrans.Base.{
  ℕ, zero, suc, ◌+◌, ◌-◌, ◌*◌, ◌/◌, Bool, true, false, ◌||◌, Option, none, some, List, [], ◌∷◌,
  ◌++◌, String, Bytes, if◌then◌else◌, ltb, leb, ◌==◌, str_eq, length, get_elem?, take, drop,
  replicate, Result, ok, err,
}
use localtrans.Transfer.Manifest.{Manifest, missing_chunks, chunk_offset, chunk_len}
use localtrans.Transfer.Names.{NameError, sanitize_file_name}
use localtrans.Transfer.Names.Numbered.{numbered}

-- The errors of `EngineError` that a writer returns.
pub data WriteError : Type 0 where
  hash_mismatch : ℕ → WriteError
  incomplete io_error : WriteError
  bad_name : NameError → WriteError

-- The part file, the manifest in memory, the time of the last save, the manifest on disk.
pub record PartWriter : Type 0 where
  pub part : Bytes
  pub manifest : Manifest
  pub last_save : ℕ
  pub saved : Option Manifest

-- How a write to the part file ends: done, or failed with the file left in some state.
pub data Disk : Type 0 where
  written : Disk
  failed : Bytes → Disk

-- The file up to an offset; a gap before it reads as zeros.
unfoldable pub front : Bytes → ℕ → Bytes
front file offset = take offset (file ++ replicate (offset - length file) 0)

-- A file after a write at an offset.
unfoldable pub write_at : Bytes → ℕ → Bytes → Bytes
unfolding front
write_at file offset bytes = front file offset ++ (bytes ++ drop (offset + length bytes) file)

-- The list with the place set; none if there is no such place.
unfoldable pub set_true : List Bool → ℕ → Option (List Bool)
set_true [] i = none
set_true (b ∷ bs) zero = some (true ∷ bs)
set_true (b ∷ bs) (suc i) =
    let rest = set_true bs i in elim rest [ none ↦ none | some cs ↦ some (b ∷ cs) ]

-- `open` in a directory that can be used.
unfoldable pub open_writer : ℕ → Bytes → Manifest → PartWriter
open_writer now part m = record { part = part; manifest = m; last_save = now; saved = some m }

-- `load_or_open`: goes on with a manifest on disk of the same file, or opens a new one.
unfoldable pub same_hashes : List String → List String → Bool
same_hashes [] [] = true
same_hashes (x ∷ xs) (y ∷ ys) = if str_eq x y then same_hashes xs ys else false
same_hashes _ _ = false

unfoldable pub same_file : Manifest → Manifest → Bool
unfolding same_hashes
same_file old m =
    if str_eq old.file_name m.file_name
    then (if old.total_size == m.total_size
        then same_hashes old.chunk_hashes m.chunk_hashes
        else false)
    else false

unfoldable pub load_or_open : ℕ → Bytes → Option Manifest → Manifest → PartWriter
unfolding open_writer same_file
load_or_open now part none m = open_writer now part m
load_or_open now part (some old) m =
    if same_file old m
    then record { part = part; manifest = old; last_save = now; saved = some old }
    else open_writer now part m

-- The manifest is saved at the last chunk and when the last save is two seconds old.
unfoldable pub should_save : ℕ → PartWriter → Bool
unfolding missing_chunks
should_save now w =
    (elim (missing_chunks w.manifest) [ [] ↦ true | _ ∷ _ ↦ false ])
    || ltb 1 ((now - w.last_save) / 1000)

unfoldable pub save_now : ℕ → Bool → PartWriter → Result WriteError (Unit {0}) × PartWriter
save_now now true w = (ok tt, record w { last_save = now; saved = some w.manifest })
save_now now false w = (err io_error, w)

unfoldable pub mark_received :
    ℕ → List Bool → Bool → PartWriter → Result WriteError (Unit {0}) × PartWriter
unfolding should_save save_now
mark_received now received saves w =
    let next : PartWriter = record w { manifest = record w.manifest { received = received } } in
    if should_save now next then save_now now saves next else (ok tt, next)

-- None where an index is out of range and the code panics.
unfoldable pub write_chunk_preverified :
    ℕ
    → Disk
    → Bool
    → ℕ
    → Bytes
    → String
    → PartWriter
    → Option (Result WriteError (Unit {0}) × PartWriter)
unfolding chunk_len chunk_offset write_at set_true mark_received
write_chunk_preverified now disk saves idx bytes actual_hash w =
    elim (get_elem? w.manifest.chunk_hashes idx) [
      | none ↦ none
      | some expected_hash ↦
          if str_eq actual_hash expected_hash
          then (if length bytes == chunk_len w.manifest idx
              then elim disk [
                | failed part ↦ some (err io_error, record w { part = part })
                | written ↦
                    let part = write_at w.part (chunk_offset idx) bytes in
                    elim (set_true w.manifest.received idx) [
                      | none ↦ none
                      | some received ↦
                          some (mark_received now received saves (record w { part = part }))
                    ]
              ]
              else some (err (hash_mismatch idx), w))
          else some (err (hash_mismatch idx), w)
    ]

unfoldable pub write_chunk :
    (Bytes → String)
    → ℕ
    → Disk
    → Bool
    → ℕ
    → Bytes
    → PartWriter
    → Option (Result WriteError (Unit {0}) × PartWriter)
unfolding write_chunk_preverified
write_chunk hash now disk saves idx bytes w =
    write_chunk_preverified now disk saves idx bytes (hash bytes) w

-- The files of a directory by their names.
abbrev pub Directory : Type 0
Directory = List (String × Bytes)

unfoldable pub exists : String → Directory → Bool
exists name [] = false
exists name ((other, _) ∷ files) = str_eq other name || exists name files

unfoldable pub read_file : String → Directory → Option Bytes
read_file name [] = none
read_file name ((other, bytes) ∷ files) =
    if str_eq other name then some bytes else read_file name files

unfoldable pub delete_file : String → Directory → Directory
delete_file name [] = []
delete_file name ((other, bytes) ∷ files) =
    let rest = delete_file name files in if str_eq other name then rest else (other, bytes) ∷ rest

-- `fs::rename` to a name, which takes the place of a file that has it.
unfoldable pub rename_to : String → Bytes → Directory → Directory
unfolding delete_file
rename_to name bytes files = (name, bytes) ∷ delete_file name files

-- The first free name from number `i` on, for a number of attempts; the last one if none is free.
unfoldable pub free_name : ℕ → ℕ → String → Directory → String
unfolding exists numbered
free_name zero i name files = numbered name i
free_name (suc n) i name files =
    let rest = free_name n (i + 1) name files in
    if exists (numbered name i) files then rest else numbered name i

unfoldable pub resolve_name_conflict : String → Directory → String
unfolding free_name exists
resolve_name_conflict name files = if exists name files then free_name 99 1 name files else name

-- `finalize` for a directory that can be used: the name and the directory after it.
unfoldable pub finalize :
    Bool → Bool → PartWriter → Directory → Result WriteError (String × Directory)
unfolding missing_chunks sanitize_file_name resolve_name_conflict rename_to
finalize saves renames w dest =
    if saves
    then elim (sanitize_file_name w.manifest.file_name) [
      | err e ↦ err (bad_name e)
      | ok _ ↦ elim (missing_chunks w.manifest) [
        | _ ∷ _ ↦ err incomplete
        | [] ↦
            let name = resolve_name_conflict w.manifest.file_name dest in
            if renames then ok (name, rename_to name w.part dest) else err io_error
      ]
    ]
    else err io_error
