-- ===== src/Transfer/Manifest/Chunks.antt =====
-- crates/localtrans-core/src/transfer/manifest.rs: the chunks of a file and its bytes.
use localtrans.Base.{
  ℕ, zero, suc, ◌+◌, ◌/◌, ◌^◌, ◌≤◌, ◌<◌, ◌≡◌, ◌↔◌, refl, Bool, true, false, Option, some, List, [],
  ◌∷◌, String, Bytes, arith, length, get_elem?, ◌==◌, ◌||◌,
}
use localtrans.Transfer.Manifest.{
  Manifest, chunk_size, chunks_for, hashes_from, build, missing_from, missing_chunks, chunk_offset,
  chunk_len,
}

-- A byte position lies in a chunk of the manifest of a file, by the offset and the length of the
-- chunk, exactly when it is a position of the file and its quotient by the chunk size is the number
-- of the chunk.
pub chunk-byte_iff :
    (hash : Bytes → String) (file_name : String) (file : Bytes) (i p : ℕ)
    → ((i < chunks_for (length file))
        × (chunk_offset i ≤ p)
        × (p < chunk_offset i + chunk_len (build hash file_name file) i))
      ↔ ((p < length file) × (i ≡ p / chunk_size))
unfolding chunks_for chunk_offset chunk_len build
chunk-byte_iff hash file_name file i p = (λ h. ground (arith, h), λ h. ground (arith, h))

length-hashes_from :
    (hash : Bytes → String) (file : Bytes) (i n : ℕ) → length (hashes_from hash file i n) ≡ n
unfolding hashes_from
length-hashes_from hash file i zero = refl
length-hashes_from hash file i (suc n) = omega (arith, length-hashes_from hash file (i + 1) n)

abbrev pub contains : ℕ → List ℕ → Bool
contains k [] = false
contains k (x ∷ xs) = x == k || contains k xs

abbrev pub is_missing : Option Bool → Bool
is_missing (some false) = true
is_missing _ = false

missing_from-below :
    (i k : ℕ) (bs : List Bool)
    → i + length bs ≤ 2 ^ 32
    → k < i
    → contains k (missing_from i bs) ≡ false
unfolding missing_from
missing_from-below i k [] small below = refl
missing_from-below i k (true ∷ bs) small below =
    missing_from-below (i + 1) k bs (omega (arith, small)) (omega (arith, below))
missing_from-below i k (false ∷ bs) small below =
    let rest = missing_from-below (i + 1) k bs (omega (arith, small)) (omega (arith, below)) in
    ground (arith, rest, small, below)

contains-missing_from :
    (i k j : ℕ) (bs : List Bool)
    → i + length bs ≤ 2 ^ 32
    → k ≡ i + j
    → contains k (missing_from i bs) ≡ is_missing (get_elem? bs j)
unfolding missing_from
contains-missing_from i k j [] small at = refl
contains-missing_from i k zero (true ∷ bs) small at =
    missing_from-below (i + 1) k bs (omega (arith, small)) (omega (arith, at))
contains-missing_from i k zero (false ∷ bs) small at = ground (arith, small, at)
contains-missing_from i k (suc j) (true ∷ bs) small at =
    contains-missing_from (i + 1) k j bs (omega (arith, small)) (omega (arith, at))
contains-missing_from i k (suc j) (false ∷ bs) small at =
    let rest = contains-missing_from (i + 1) k j bs (omega (arith, small)) (omega (arith, at)) in
    ground (arith, rest, small, at)

-- The missing chunks of a manifest with at most 2 ^ 32 chunks are exactly those that are marked as
-- not received.
pub contains-missing_chunks :
    (m : Manifest) (j : ℕ)
    → length m.received ≤ 2 ^ 32
    → contains j (missing_chunks m) ≡ is_missing (get_elem? m.received j)
unfolding missing_chunks
contains-missing_chunks m j small =
    contains-missing_from 0 j j m.received (omega (arith, small)) (omega arith)
