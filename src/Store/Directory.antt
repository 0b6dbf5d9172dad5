-- ===== src/Store/Directory.antt =====
-- The directory of the generations and what is discovered in it: src/bookmarks.rs.
use zorya.Common.{
  ℕ, ◌+◌, Bool, false, not, Option, none, some, List, [], ◌∷◌, ◌++◌, Outcome, ok, err, ltb, leb,
  ◌==◌, ◌&&◌, length, find, any, if◌then◌else◌,
}
use zorya.Record.{Bytes}

-- The kinds of failure that the store tells apart.
pub data ErrorKind : Type 0 where
  already_exists not_found : ErrorKind
  other_kind : ℕ → ErrorKind

-- An entry of the directory, in the place of its name: a pending file of another process is an
-- `other_entry`, like whatever has another name.
pub data Entry : Type 0 where
  generation_file : (generation : ℕ) (contents : Bytes) → Entry
  pending_file : (generation sequence : ℕ) → Entry
  other_entry : Entry

abbrev pub Directory : Type 0
Directory = List Entry

pub data Operation : Type 0 where
  read_directory open_generation create_pending write_pending sync_pending publish : Operation

-- The errors of a store whose records have the errors `E`.
pub data StoreError (E : Type 0) : Type 0 where
  lock : StoreError E
  io : (operation : Operation) (kind : ErrorKind) → StoreError E
  record_error : E → StoreError E
  directory_entry_limit_exceeded : (found limit : ℕ) → StoreError E
  generation_file_limit_exceeded : (found limit : ℕ) → StoreError E
  unsupported_generation : (generation schema : ℕ) → StoreError E
  no_valid_generation : (corrupt_generations : List ℕ) → StoreError E
  stale_generation : (current provided : ℕ) → StoreError E
  generation_exhausted : StoreError E
  concurrent_write : (generation : ℕ) → StoreError E
  pending_file_collision_limit : (attempts : ℕ) → StoreError E

abbrev pub max_directory_entries : ℕ
max_directory_entries = 128

abbrev pub max_discovered_generations : ℕ
max_discovered_generations = 64

-- `parse_generation_file_name` of a file's name.
abbrev pub generation_of : Entry → Option ℕ
generation_of (generation_file generation contents) = some generation
generation_of (pending_file generation sequence) = none
generation_of other_entry = none

abbrev pub is_generation : ℕ → Entry → Bool
is_generation wanted (generation_file generation contents) = generation == wanted
is_generation wanted (pending_file generation sequence) = false
is_generation wanted other_entry = false

abbrev pub is_pending : ℕ → ℕ → Entry → Bool
is_pending for wanted (generation_file generation contents) = false
is_pending for wanted (pending_file generation sequence) = generation == for && sequence == wanted
is_pending for wanted other_entry = false

-- The bytes of the file of a generation.
unfoldable pub contents : ℕ → Directory → Option Bytes
contents wanted [] = none
contents wanted (generation_file generation bytes ∷ entries) =
    if generation == wanted then some bytes else contents wanted entries
contents wanted (pending_file generation sequence ∷ entries) = contents wanted entries
contents wanted (other_entry ∷ entries) = contents wanted entries

-- The order of `sort_unstable_by(|left, right| right.cmp(left))`.
unfoldable pub insert_descending : ℕ → List ℕ → List ℕ
insert_descending g [] = g ∷ []
insert_descending g (h ∷ hs) = if leb h g then g ∷ h ∷ hs else h ∷ insert_descending g hs

unfoldable pub sort_descending : List ℕ → List ℕ
sort_descending [] = []
sort_descending (g ∷ gs) = insert_descending g (sort_descending gs)

module _ {E : Type 0} where
  -- The loop of `discover_generations_with_reserve`, after `count` entries and `found` generations.
  unfoldable pub discover : ℕ → ℕ → List ℕ → Directory → Outcome (StoreError E) (List ℕ)
  discover reserved count found [] = ok (sort_descending found)
  discover reserved count found (entry ∷ entries) =
      if ltb max_directory_entries (count + 1 + reserved)
      then err (directory_entry_limit_exceeded (count + 1 + reserved) max_directory_entries)
      else elim (generation_of entry) [
        | none ↦ discover reserved (count + 1) found entries
        | some generation ↦
            if ltb max_discovered_generations (length found + 1)
            then err (generation_file_limit_exceeded (length found + 1) max_discovered_generations)
            else discover reserved (count + 1) (found ++ (generation ∷ [])) entries
      ]

  unfoldable pub discover_generations_with_reserve :
      Option ErrorKind → ℕ → Directory → Outcome (StoreError E) (List ℕ)
  discover_generations_with_reserve (some kind) reserved entries = err (io read_directory kind)
  discover_generations_with_reserve none reserved entries = discover reserved 0 [] entries

-- `unexpected_generation`
unfoldable pub unexpected_generation : ℕ → List ℕ → List ℕ → Option ℕ
unexpected_generation current recovered generations =
    find (λ generation. ltb current generation && not (any (λ g. g == generation) recovered))
      generations

-- `generations.first().copied().unwrap_or(0)`
abbrev pub newest_of : List ℕ → ℕ
newest_of [] = 0
newest_of (generation ∷ generations) = generation
