-- ===== src/Tests/Writer.antt =====
-- Runs of a writer, of names and of the scans for jobs, and their theorems at such data.
use localtrans.Base.{
  ℕ, zero, suc, ◌+◌, ◌≤◌, ◌≡◌, refl, ◌⊎◌, Bool, true, false, ◌||◌, none, some, List, [], ◌∷◌,
  String, Bytes, arith, length, get_elem?, str_eq, ok,
}
use Prim.Native.String.{len}
use localtrans.Transfer.Manifest.{Manifest, chunk_offset, chunk_len, missing_chunks, from_meta}
use localtrans.Transfer.Names.{sanitize_file_name, strip, is_ctrl, is_forbidden}
use localtrans.Transfer.Names.Safe.{contains_code, sanitize_file_name-safe}
use localtrans.Transfer.Names.Numbered.{numbered}
use localtrans.Transfer.Writer.{PartWriter, Directory, open_writer, finalize, read_file, exists}
use localtrans.Transfer.Writer.Files.{slice}
use localtrans.Transfer.Writer.Conflicts.{finalize-keeps}
use localtrans.Transfer.Writer.Whole.{Offered, write_all, finalize-whole}
use localtrans.Transfer.Jobs.{Entry, pending_jobs, orphan_jobs, gc_stale_parts}
use localtrans.Transfer.Jobs.Scans.{gc_stale_parts-pending}
use localtrans.Memory.{reconnect, connected}
use localtrans.Memory.Backoff.{reconnect-ends}

abbrev hash : Bytes → String
hash (zero ∷ _) = "zero"
hash _ = "other"

abbrev announced : Manifest
announced = record {
  file_name = "a.txt";
  total_size = 2;
  chunk_hashes = "other" ∷ [];
  received = true ∷ [];
  peer = none;
  share_id = none;
  rel = none;
  meta = none;
}

-- What a wrong and then a right chunk leave.
abbrev finished : PartWriter
finished = record {
  part = 1 ∷ 2 ∷ 9 ∷ [];
  manifest = announced;
  last_save = 4;
  saved = some announced;
}

abbrev offered : List Offered
offered = (3, true, 0, 0 ∷ 2 ∷ []) ∷ (4, true, 0, 1 ∷ 2 ∷ []) ∷ []

abbrev downloads : Directory
downloads = ("a.txt", 7 ∷ []) ∷ []

both_offered :
    write_all hash offered (open_writer 0 (9 ∷ 9 ∷ 9 ∷ []) (from_meta "a.txt" 2 ("other" ∷ [])))
    ≡ some finished
unfolding write_all open_writer from_meta
both_offered = refl

moved :
    finalize true true finished downloads
    ≡ ok ("a (1).txt", ("a (1).txt", 1 ∷ 2 ∷ 9 ∷ []) ∷ downloads)
unfolding finalize
moved = refl

finalize-whole_example :
    (read_file "a (1).txt" (("a (1).txt", 1 ∷ 2 ∷ 9 ∷ []) ∷ downloads) ≡ some (1 ∷ 2 ∷ 9 ∷ []))
    × ((i : ℕ) (h : String)
        → get_elem? ("other" ∷ []) i ≡ some h
        → hash (
            slice
              (1 ∷ 2 ∷ 9 ∷ [])
              (chunk_offset i)
              (chunk_len (from_meta "a.txt" 2 ("other" ∷ [])) i))
          ≡ h)
finalize-whole_example =
    finalize-whole hash 0 (9 ∷ 9 ∷ 9 ∷ []) "a.txt" "a (1).txt" 2 ("other" ∷ []) offered finished
      downloads (("a (1).txt", 1 ∷ 2 ∷ 9 ∷ []) ∷ downloads) (omega arith) both_offered moved

finalize-keeps_example :
    (missing_chunks announced ≡ [])
    × (read_file "a (1).txt" (("a (1).txt", 1 ∷ 2 ∷ 9 ∷ []) ∷ downloads) ≡ some (1 ∷ 2 ∷ 9 ∷ []))
    × ((other : String)
        → str_eq "a (1).txt" other ≡ false
        → read_file other (("a (1).txt", 1 ∷ 2 ∷ 9 ∷ []) ∷ downloads) ≡ read_file other downloads)
    × ((exists "a (1).txt" downloads ≡ false)
        ⊎ ((exists "a.txt" downloads ≡ true)
            × ((j : ℕ) → 1 ≤ j → j ≤ 100 → exists (numbered "a.txt" j) downloads ≡ true)
            × ("a (1).txt" ≡ numbered "a.txt" 100)))
finalize-keeps_example =
    finalize-keeps finished downloads (("a (1).txt", 1 ∷ 2 ∷ 9 ∷ []) ∷ downloads) "a (1).txt" moved

cleaned : sanitize_file_name "a\u{202e}b.txt" ≡ ok "ab.txt"
unfolding sanitize_file_name
cleaned = refl

sanitize_file_name-safe_example :
    ("ab.txt" ≡ strip "a\u{202e}b.txt")
    × ((n : ℕ) → contains_code n "ab.txt" ≡ true → (is_ctrl n ≡ false) × (is_forbidden n ≡ false))
    × (str_eq "ab.txt" "" || str_eq "ab.txt" "." || str_eq "ab.txt" ".." ≡ false)
    × (len "ab.txt" ≤ 255)
    × (sanitize_file_name "ab.txt" ≡ ok "ab.txt")
sanitize_file_name-safe_example = sanitize_file_name-safe "a\u{202e}b.txt" "ab.txt" cleaned

-- A finished part, one that is not, and a directory of another name.
abbrev entries : List Entry
entries =
    record { is_dir = true; name = some "1f"; manifest = some announced }
    ∷ record {
      is_dir = true;
      name = some "20";
      manifest = some (record announced { received = false ∷ [] });
    }
    ∷ record { is_dir = true; name = some "notes"; manifest = some announced }
    ∷ []

gc_stale_parts-pending_example :
    (pending_jobs (gc_stale_parts (λ _. false) entries).0 ≡ pending_jobs entries)
    × (orphan_jobs (gc_stale_parts (λ _. true) entries).0 ≡ pending_jobs entries)
    × (length (orphan_jobs entries)
        ≡ length (pending_jobs entries) + (gc_stale_parts (λ _. true) entries).1)
gc_stale_parts-pending_example = gc_stale_parts-pending (λ _. false) entries

-- Only the third attempt succeeds.
abbrev third : ℕ → Bool
third (suc (suc zero)) = true
third _ = false

reconnect-ends_example : reconnect (suc (suc (suc 5))) third 0 0 0 ≡ some (connected 2 3)
reconnect-ends_example = reconnect-ends 5 third
