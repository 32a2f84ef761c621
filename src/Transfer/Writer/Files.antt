-- ===== src/Transfer/Writer/Files.antt =====
-- crates/localtrans-core/src/transfer/engine.rs: what a write to the part file leaves as it is.
use localtrans.Base.{
  ℕ, ◌+◌, ◌-◌, ◌≤◌, ◌<◌, ◌≡◌, refl, ap, ◌⊎◌, ◌++◌, Bytes, arith, length, get_elem?, take, drop,
  replicate, length-append, length-take, length-drop, length-replicate,
}
use localtrans.Base.Slices.{
  get_elem?-append, get_elem?-take, get_elem?-drop, get_elem?-none, list_ext,
}
use localtrans.Transfer.Writer.{front, write_at}

-- A part of a file.
abbrev pub slice : Bytes → ℕ → ℕ → Bytes
slice file offset size = take size (drop offset file)

length-front : (file : Bytes) (offset : ℕ) → length (front file offset) ≡ offset
unfolding front
length-front file offset = omega (
  arith,
  length-take offset (file ++ replicate (offset - length file) 0),
  length-append file (replicate (offset - length file) 0),
  length-replicate {A = ℕ} (offset - length file) 0,
)

get_elem?-front :
    (file : Bytes) (offset p : ℕ)
    → p < offset
    → p < length file
    → get_elem? (front file offset) p ≡ get_elem? file p
unfolding front
get_elem?-front file offset p before inside =
    let zeros : Bytes = replicate (offset - length file) 0 in
    ground (arith, get_elem?-take offset (file ++ zeros) p, get_elem?-append file zeros p)

write_at-def :
    (file : Bytes) (offset : ℕ) (bytes : Bytes)
    → write_at file offset bytes ≡ front file offset ++ (bytes ++ drop (offset + length bytes) file)
unfolding write_at
write_at-def file offset bytes = refl

pub length-write_at :
    (file : Bytes) (offset : ℕ) (bytes : Bytes)
    → (length file ≤ length (write_at file offset bytes))
      × (offset + length bytes ≤ length (write_at file offset bytes))
length-write_at file offset bytes =
    let tail = drop (offset + length bytes) file in
    let a = length-append (front file offset) (bytes ++ tail) in
    let b = length-append bytes tail in
    let c = length-drop (offset + length bytes) file in
    let d = length-front file offset in
    let e = ap (λ l. length l) (write_at-def file offset bytes) in
    (omega (arith, a, b, c, d, e), omega (arith, a, b, c, d, e))

get_elem?-write_at_in :
    (file : Bytes) (offset : ℕ) (bytes : Bytes) (p : ℕ)
    → p < length bytes
    → get_elem? (write_at file offset bytes) (offset + p) ≡ get_elem? bytes p
get_elem?-write_at_in file offset bytes p inside =
    let tail = drop (offset + length bytes) file in
    rw (write_at-def file offset bytes) (
      ground (
        arith,
        length-front file offset,
        get_elem?-append (front file offset) (bytes ++ tail) (offset + p),
        get_elem?-append bytes tail p,
        ap (λ k. get_elem? (bytes ++ tail) k) {x = offset + p - length (front file offset)} {y = p},
      ))

get_elem?-write_at_out :
    (file : Bytes) (offset : ℕ) (bytes : Bytes) (p : ℕ)
    → p < length file
    → (p < offset) ⊎ (offset + length bytes ≤ p)
    → get_elem? (write_at file offset bytes) p ≡ get_elem? file p
get_elem?-write_at_out file offset bytes p inside apart =
    let tail = drop (offset + length bytes) file in
    let q = p - length (front file offset) in
    rw (write_at-def file offset bytes) (
      ground (
        arith,
        length-front file offset,
        get_elem?-front file offset p,
        get_elem?-append (front file offset) (bytes ++ tail) p,
        get_elem?-append bytes tail q,
        get_elem?-drop (offset + length bytes) file (q - length bytes),
        ap (λ k. get_elem? file k) {x = offset + length bytes + (q - length bytes)} {y = p},
      ))

-- A write puts its bytes where it says.
pub slice-write_at_same :
    (file : Bytes) (offset : ℕ) (bytes : Bytes)
    → slice (write_at file offset bytes) offset (length bytes) ≡ bytes
slice-write_at_same file offset bytes =
    list_ext (slice (write_at file offset bytes) offset (length bytes)) bytes (λ p.
      let whole = write_at file offset bytes in
      ground (
        arith,
        get_elem?-take (length bytes) (drop offset whole) p,
        get_elem?-drop offset whole p,
        get_elem?-write_at_in file offset bytes p,
        get_elem?-none bytes p,
      ))

-- A write leaves the parts of the file beside it as they are.
pub slice-write_at_other :
    (file : Bytes) (offset : ℕ) (bytes : Bytes) (start size : ℕ)
    → start + size ≤ length file
    → (start + size ≤ offset) ⊎ (offset + length bytes ≤ start)
    → slice (write_at file offset bytes) start size ≡ slice file start size
slice-write_at_other file offset bytes start size inside apart =
    list_ext (slice (write_at file offset bytes) start size) (slice file start size) (λ p.
      let whole = write_at file offset bytes in
      ground (
        arith,
        get_elem?-take size (drop start whole) p,
        get_elem?-drop start whole p,
        get_elem?-take size (drop start file) p,
        get_elem?-drop start file p,
        get_elem?-write_at_out file offset bytes (start + p),
      ))
