-- ===== src/Transfer/Manifest.antt =====
-- crates/localtrans-core/src/transfer/manifest.rs: the chunks of a file and which of them have come.
-- A file is the string of its bytes; the hash, in hexadecimal, is a parameter.
pub mod Chunks
use localtrans.Base.{
  ℕ, zero, suc, ◌+◌, ◌-◌, ◌*◌, ◌/◌, ◌%◌, ◌^◌, Bool, true, false, Option, none, some, List, [], ◌∷◌,
  String, Bytes, if◌then◌else◌, leb, ◌==◌, length, take, drop, replicate, Result, ok, err, guard,
  ◌>>◌, min, ℤ,
}

abbrev pub chunk_size : ℕ
chunk_size = 4194304

pub record TransferMeta : Type 0 where
  pub direction : String
  pub local_role : String
  pub display_name : String
  pub peer_hex : String
  pub created_at_ms : ℤ
  pub finished_at_ms : Option ℤ
  pub fail_reason : Option String
  pub source_path : Option String
  pub batch_label : Option String

pub record Manifest : Type 0 where
  pub file_name : String
  pub total_size : ℕ
  pub chunk_hashes : List String
  pub received : List Bool
  pub peer : Option String
  pub share_id : Option String
  pub rel : Option String
  pub meta : Option TransferMeta

unfoldable pub set_meta : Manifest → TransferMeta → Manifest
set_meta m meta = record m { meta = some meta }

-- The number of chunks of a file with a size.
unfoldable pub chunks_for : ℕ → ℕ
chunks_for total_size = if total_size == 0 then 0 else (total_size - 1) / chunk_size + 1

-- The hashes of the chunks from number `i` on.
unfoldable pub hashes_from : (Bytes → String) → Bytes → ℕ → ℕ → List String
hashes_from hash file i zero = []
hashes_from hash file i (suc n) =
    let offset = i * chunk_size in
    let size = min chunk_size (length file - offset) in
    hash (take size (drop offset file)) ∷ hashes_from hash file (i + 1) n

unfoldable pub from_meta_with_source :
    String → ℕ → List String → Option String → Option String → Option String → Manifest
from_meta_with_source file_name total_size chunk_hashes peer share_id rel = record {
  file_name = file_name;
  total_size = total_size;
  chunk_hashes = chunk_hashes;
  received = replicate (length chunk_hashes) false;
  peer = peer;
  share_id = share_id;
  rel = rel;
  meta = none;
}

unfoldable pub from_meta : String → ℕ → List String → Manifest
unfolding from_meta_with_source
from_meta file_name total_size chunk_hashes =
    from_meta_with_source file_name total_size chunk_hashes none none none

-- `build`, of a file that can be read.
unfoldable pub build : (Bytes → String) → String → Bytes → Manifest
unfolding chunks_for hashes_from
build hash file_name file =
    let n = chunks_for (length file) in
    record {
      file_name = file_name;
      total_size = length file;
      chunk_hashes = hashes_from hash file 0 n;
      received = replicate n false;
      peer = none;
      share_id = none;
      rel = none;
      meta = none;
    }

unfoldable pub chunk_count : Manifest → ℕ
chunk_count m = length m.chunk_hashes % 2 ^ 32

unfoldable pub missing_from : ℕ → List Bool → List ℕ
missing_from i [] = []
missing_from i (true ∷ bs) = missing_from (i + 1) bs
missing_from i (false ∷ bs) = i % 2 ^ 32 ∷ missing_from (i + 1) bs

unfoldable pub missing_chunks : Manifest → List ℕ
unfolding missing_from
missing_chunks m = missing_from 0 m.received

unfoldable pub chunk_offset : ℕ → ℕ
chunk_offset i = i * chunk_size

unfoldable pub chunk_len : Manifest → ℕ → ℕ
unfolding chunk_offset
chunk_len m i = min chunk_size (m.total_size - chunk_offset i)

pub data ManifestError : Type 0 where
  inconsistent_lengths : ManifestError

-- The check of `load` on a manifest that could be read.
unfoldable pub checked : Manifest → Result ManifestError Manifest
checked m = if length m.received == length m.chunk_hashes then ok m else err inconsistent_lengths
