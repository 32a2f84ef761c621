-- ===== src/Tests/Transfer.antt =====
-- Runs of a manifest, and its theorems at such a manifest.
use localtrans.Base.{none, ◌≡◌, refl, true, false, [], ◌∷◌, String, Bytes}
use localtrans.Transfer.Manifest.{Manifest, chunks_for, missing_from, missing_chunks}

abbrev no_hash : Bytes → String
no_hash bytes = ""

abbrev small_file : Bytes
small_file = 1 ∷ 2 ∷ 3 ∷ []

chunks_run : chunks_for 4194305 ≡ 2
unfolding chunks_for
chunks_run = refl

abbrev half : Manifest
half = record {
  file_name = "f";
  total_size = 8388608;
  chunk_hashes = "a" ∷ "b" ∷ [];
  received = true ∷ false ∷ [];
  peer = none;
  share_id = none;
  rel = none;
  meta = none;
}

missing_run : missing_chunks half ≡ 1 ∷ []
unfolding missing_chunks missing_from
missing_run = refl
