-- ===== src/Transfer/Inbox.antt =====
-- crates/localtrans-core/src/transfer/dedup.rs: the index of the files in the inbox, by their hashes.
-- Whether a path names a file is the system's.
use localtrans.Base.{
  ℕ, ◌≡◌, Bool, Option, none, some, String, String_discrete, arith, if◌then◌else◌, ◌==◌,
}
use localtrans.Base.Maps as Maps
use localtrans.Base.Maps.{
  Map, get, retain, get-insert, get-retain, Distinct, insert-Distinct, retain-Distinct,
}

pub record IndexEntry : Type 0 where
  pub path : String
  pub size : ℕ

pub record InboxIndex : Type 0 where
  pub entries : Map String IndexEntry

unfoldable pub lookup : String → ℕ → InboxIndex → Option String
unfolding get
lookup hash size index = elim (get String_discrete hash index.entries) [
  | none ↦ none
  | some e ↦ if e.size == size then some e.path else none
]

unfoldable pub insert : String → String → ℕ → InboxIndex → InboxIndex
unfolding Maps.insert
insert hash path size index = record index {
  entries = Maps.insert String_discrete hash (record { path = path; size = size }) index.entries;
}

unfoldable pub prune_missing : (String → Bool) → InboxIndex → InboxIndex
unfolding retain
prune_missing exists index = record index { entries = retain (λ _ e. exists e.path) index.entries }

-- What is found in the index after `prune_missing` is what was found before it, where the file is
-- still there.
lookup-prune_missing :
    (exists : String → Bool) (hash : String) (size : ℕ) (index : InboxIndex)
    → Distinct String_discrete index.entries
    → lookup hash size (prune_missing exists index) ≡ elim (lookup hash size index) [
      | none ↦ none
      | some path ↦ if exists path then some path else none
    ]
unfolding lookup prune_missing
lookup-prune_missing exists hash size index distinct =
    ground (arith, get-retain String_discrete (λ _ e. exists e.path) hash index.entries distinct)

-- A file that is received is found under its hash and its size and under no other size, and replaces
-- what the index had for the hash; the rest of the index is as before.
lookup-insert :
    (hash path asked : String) (size asked_size : ℕ) (index : InboxIndex)
    → lookup asked asked_size (insert hash path size index) ≡ elim (String_discrete hash asked) [
      | yes _ ↦ if size == asked_size then some path else none
      | no _ ↦ lookup asked asked_size index
    ]
unfolding lookup insert
lookup-insert hash path asked size length index = ground (
  arith,
  get-insert String_discrete hash asked (record { path = path; size = size }) index.entries,
)
