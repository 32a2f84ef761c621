-- ===== src/Transfer/Writer/Whole.antt =====
-- crates/localtrans-core/src/transfer/engine.rs and manifest.rs: a file that is finished is the file
-- that was announced, as far as the hashes of its chunks tell.
use localtrans.Base.{
  ℕ, zero, suc, ◌^◌, ◌≤◌, ◌<◌, ◌≡◌, ◌≢◌, refl, sym, ap, subst, ◌∙◌, inl, inr, Bool, true, false,
  Option, none, some, List, [], ◌∷◌, String, Bytes, arith, length, get_elem?, replicate,
  length-replicate, Option-cases, ok, dec_lt,
}
use localtrans.Base.Slices.{get_elem?-none, length_of_get_elem?}
use localtrans.Transfer.Manifest.{
  Manifest, chunk_offset, chunk_len, missing_chunks, from_meta, from_meta_with_source,
}
use localtrans.Transfer.Manifest.Chunks.{contains, contains-missing_chunks}
use localtrans.Transfer.Writer.{
  PartWriter, Directory, written, open_writer, write_chunk, read_file, finalize,
}
use localtrans.Transfer.Writer.Files.{slice}
use localtrans.Transfer.Writer.Intact.{Intact, chunk_of, Fits, write_chunk-Intact, write_chunk-Fits}
use localtrans.Transfer.Writer.Conflicts.{finalize-keeps}

-- A chunk that is offered: the time, whether the manifest can be saved, the number and the bytes.
abbrev pub Offered : Type 0
Offered = ℕ × Bool × ℕ × Bytes

module _ (hash : Bytes → String) where
  -- The writer after chunks that are offered one after the other; none where an index panics.
  unfoldable pub write_all : List Offered → PartWriter → Option PartWriter
  unfolding write_chunk
  write_all [] w = some w
  write_all ((now, saves, idx, bytes) ∷ more) w =
      elim (write_chunk hash now written saves idx bytes w) [
        | none ↦ none
        | some (_, next) ↦ write_all more next
      ]

  write_all-Intact :
      (offered : List Offered) (name : String) (size : ℕ) (hashes : List String)
      (w end : PartWriter)
      → Intact hash w
      → Fits name size hashes w.manifest
      → write_all offered w ≡ some end
      → Intact hash end × Fits name size hashes end.manifest
  unfolding write_all Fits
  write_all-Intact [] name size hashes w end intact fits h =
      let same : w ≡ end = ground arith in
      (subst (Intact hash) same intact, subst (λ v. Fits name size hashes v.manifest) same fits)
  write_all-Intact ((now, saves, idx, bytes) ∷ more) name size hashes w end intact fits h =
      elim (Option-cases (write_chunk hash now written saves idx bytes w)) [
        | inl e ↦ absurd (ground arith)
        | inr ((r, next), e) ↦
            let still = write_chunk-Intact hash now saves idx bytes w next r intact e in
            let fits2 =
              write_chunk-Fits hash now saves idx bytes w next r name size hashes fits e in
            write_all-Intact more name size hashes next end still.0 fits2 (ground (arith, h))
      ]

  -- Nothing is marked at the start.
  get_elem?-replicate-false : (n i : ℕ) → get_elem? (replicate n false) i ≢ some true
  get_elem?-replicate-false zero i = λ e. ground arith
  get_elem?-replicate-false (suc n) zero = λ e. ground arith
  get_elem?-replicate-false (suc n) (suc i) = get_elem?-replicate-false n i

  start-Intact :
      (now : ℕ) (part : Bytes) (name : String) (size : ℕ) (hashes : List String)
      → Intact hash (open_writer now part (from_meta name size hashes))
  unfolding Intact open_writer from_meta from_meta_with_source
  start-Intact now part name size hashes i h marked known =
      absurd (get_elem?-replicate-false (length hashes) i marked)

  start-Fits :
      (now : ℕ) (part : Bytes) (name : String) (size : ℕ) (hashes : List String)
      → Fits name size hashes (open_writer now part (from_meta name size hashes)).manifest
  unfolding Fits open_writer from_meta from_meta_with_source
  start-Fits now part name size hashes = (refl, refl, refl, length-replicate (length hashes) false)

  marked-if_none_missing :
      (m : Manifest) (i : ℕ)
      → length m.received ≤ 2 ^ 32
      → i < length m.received
      → missing_chunks m ≡ []
      → get_elem? m.received i ≡ some true
  marked-if_none_missing m i small inside none_missing =
      let same = contains-missing_chunks m i small in
      let no = sym same ∙ ap (contains i) none_missing in
      elim (Option-cases (get_elem? m.received i)) [
        | inl e ↦ absurd (omega (arith, length_of_get_elem? m.received i e, inside))
        | inr (true, e) ↦ e
        | inr (false, e) ↦ absurd (ground (arith, no))
      ]

  finished_chunk :
      (name : String) (size : ℕ) (hashes : List String) (w : PartWriter) (i : ℕ) (h : String)
      → length hashes ≤ 2 ^ 32
      → Intact hash w
      → Fits name size hashes w.manifest
      → missing_chunks w.manifest ≡ []
      → get_elem? hashes i ≡ some h
      → hash (slice w.part (chunk_offset i) (chunk_len (from_meta name size hashes) i)) ≡ h
  unfolding Fits Intact chunk_len from_meta from_meta_with_source chunk_of
  finished_chunk name size hashes w i h few intact fits none_missing at =
      let known : get_elem? w.manifest.chunk_hashes i ≡ some h = rw fits.2 at in
      let count = fits.3 in
      let inside : i < length hashes = elim (dec_lt i (length hashes)) [
        | yes l ↦ l
        | no far ↦ absurd (ground (arith, get_elem?-none hashes i (omega (arith, far))))
      ] in
      let marked =
        marked-if_none_missing w.manifest i (omega (arith, count)) (omega (arith, count, inside))
          none_missing in
      rw fits.1 at (intact i h marked known).1

  -- When a receiver opens a part file, whatever is left in it, for an announced file of at most 2 ^
  -- 32 chunks, takes any chunks in any order, right and wrong, onto a disk that takes what is
  -- written, and then succeeds to finish, the file under the final name has in the place of every
  -- announced chunk bytes with its hash.
  pub finalize-whole :
      (now : ℕ) (part : Bytes) (name target : String) (size : ℕ) (hashes : List String)
      (offered : List Offered) (w : PartWriter) (dest after : Directory)
      → length hashes ≤ 2 ^ 32
      → write_all offered (open_writer now part (from_meta name size hashes)) ≡ some w
      → finalize true true w dest ≡ ok (target, after)
      → (read_file target after ≡ some w.part)
        × ((i : ℕ) (h : String)
            → get_elem? hashes i ≡ some h
            → hash (slice w.part (chunk_offset i) (chunk_len (from_meta name size hashes) i)) ≡ h)
  finalize-whole now part name target size hashes offered w dest after few h done =
      let start = open_writer now part (from_meta name size hashes) in
      let run =
        write_all-Intact offered name size hashes start w (start-Intact now part name size hashes)
          (start-Fits now part name size hashes) h in
      let finished = finalize-keeps w dest after target done in
      (
        finished.1,
        λ i hash_i at. finished_chunk name size hashes w i hash_i few run.0 run.1 finished.0 at,
      )
