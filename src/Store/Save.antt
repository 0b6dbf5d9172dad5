-- ===== src/Store/Save.antt =====
-- `BookmarksStore::save` of src/bookmarks.rs.
use zorya.Common.{
  ℕ, zero, suc, ◌+◌, ◌%◌, ◌^◌, Bool, true, false, not, Option, none, some, List, [], ◌∷◌, ◌==◌,
  ◌||◌, ltb, take, any, retain, checked_add, is_some, Outcome, ok, err, panicked, Call, ◌>>=◌, ◌>>◌,
  pure, raise, gets, modify, check, or_raise, raise_if, if◌then◌else◌,
}
use zorya.Record.{Bytes}
use zorya.Store.Directory.{
  ErrorKind, already_exists, not_found, other_kind, Entry, generation_file, pending_file, Directory,
  Operation, create_pending, write_pending, sync_pending, publish, StoreError, lock, io,
  record_error, stale_generation, generation_exhausted, concurrent_write,
  pending_file_collision_limit, is_generation, is_pending, contents,
  discover_generations_with_reserve, unexpected_generation, newest_of,
}
use zorya.Store.Codec.{Codec}
use zorya.Store.Load.{Loaded, ReadFaults, no_read_faults, load}

-- The directory, and `NEXT_PENDING_FILE` of the process.
pub record Disk : Type 0 where
  pub entries : Directory
  pub next_pending : ℕ

-- What the system calls of a save return, and what other writers do between its steps.
pub record SaveFaults : Type 0 where
  pub locked : Bool
  pub reads : ReadFaults
  pub before_discovery : Directory → Directory
  pub discovery : Option ErrorKind
  pub create : Option ErrorKind
  pub write : Option ErrorKind
  pub sync : Option ErrorKind
  pub before_publication : Directory → Directory
  pub still_locked : Bool
  pub link : Option ErrorKind
  pub remove_pending : Option ErrorKind
  pub remove_generation : ℕ → Option ErrorKind

-- No call fails, and no other writer is there.
abbrev pub no_save_faults : SaveFaults
no_save_faults = record {
  locked = true;
  reads = no_read_faults;
  before_discovery = λ entries. entries;
  discovery = none;
  create = none;
  write = none;
  sync = none;
  before_publication = λ entries. entries;
  still_locked = true;
  link = none;
  remove_pending = none;
  remove_generation = λ generation. none;
}

-- What `save` returns: the snapshot at its generation, and what could not be removed.
pub record Saved (Snapshot : Type 0) : Type 0 where
  pub snapshot : Snapshot
  pub failed_generations : List ℕ
  pub pending_remains : Bool

abbrev pub on_entries : (Directory → Directory) → Disk → Disk
on_entries f disk = record disk { entries = f disk.entries }

-- `remove_file` of a file whose removal may fail.
abbrev pub remove_entry : Option ErrorKind → (Entry → Bool) → Directory → Directory
remove_entry none is_it entries = retain (λ entry. not (is_it entry)) entries
remove_entry (some kind) is_it entries = entries

-- Whether a removal failed with another error than `NotFound`.
abbrev pub removal_failed : Option ErrorKind → Bool
removal_failed none = false
removal_failed (some not_found) = false
removal_failed (some already_exists) = true
removal_failed (some (other_kind k)) = true

-- `generations` without the current one and the newest older one.
unfoldable pub expired : ℕ → List ℕ → List ℕ
expired current generations =
    let retained_older = take 1 (retain (λ g. ltb g current) generations) in
    retain (λ g. not (g == current || any (λ r. r == g) retained_older)) generations

unfoldable pub remove_generations : (ℕ → Option ErrorKind) → List ℕ → Directory → List ℕ × Directory
remove_generations faults [] entries = ([], entries)
remove_generations faults (g ∷ gs) entries =
    let (failed, left) =
      remove_generations faults gs (remove_entry (faults g) (is_generation g) entries) in
    (if removal_failed (faults g) then g ∷ failed else failed, left)

module _ {Snapshot E : Type 0} (codec : Codec Snapshot E) (faults : SaveFaults) where
  abbrev pub Step : Type 0 → Type 0
  Step A = Call Disk (StoreError E) A

  abbrev pub record_check : {A : Type 0} → Outcome E A → Step A
  record_check (ok a) disk = (ok a, disk)
  record_check (err e) disk = (err (record_error e), disk)
  record_check panicked disk = (panicked, disk)

  -- `create_pending_file`
  unfoldable pub create_pending_file : ℕ → ℕ → Step ℕ
  create_pending_file zero generation disk = (err (pending_file_collision_limit 8), disk)
  create_pending_file (suc attempts) generation disk =
      let sequence = disk.next_pending in
      let counted : Disk = record disk { next_pending = (sequence + 1) % 2 ^ 64 } in
      let again = create_pending_file attempts generation counted in
      if any (is_pending generation sequence) disk.entries then again else elim faults.create [
        | some already_exists ↦ again
        | some not_found ↦ (err (io create_pending not_found), counted)
        | some (other_kind k) ↦ (err (io create_pending (other_kind k)), counted)
        | none ↦ (
          ok sequence,
          on_entries (λ entries. pending_file generation sequence ∷ entries) counted,
        )
      ]

  -- The pending file is removed, if it can be, and the error returned.
  abbrev pub discard {ℓ} : {A : Type ℓ} → ℕ → ℕ → StoreError E → Call Disk (StoreError E) A
  discard generation sequence error disk = (
    err error,
    on_entries (remove_entry faults.remove_pending (is_pending generation sequence)) disk,
  )

  abbrev pub discard_if : ℕ → ℕ → Operation → Option ErrorKind → Step (Unit {0})
  discard_if generation sequence operation none = pure tt
  discard_if generation sequence operation (some kind) =
      discard generation sequence (io operation kind)

  -- The second `verify_for_root` of the lock.
  abbrev pub discard_unless : ℕ → ℕ → Bool → Step (Unit {0})
  discard_unless generation sequence true = pure tt
  discard_unless generation sequence false = discard generation sequence lock

  -- `hard_link` and the errors of it.
  unfoldable pub link_generation : ℕ → ℕ → Bytes → Step (Unit {0})
  link_generation generation sequence bytes disk =
      if is_some (contents generation disk.entries)
      then discard generation sequence (concurrent_write generation) disk
      else elim faults.link [
        | none ↦ (ok tt, on_entries (λ entries. generation_file generation bytes ∷ entries) disk)
        | some already_exists ↦ discard generation sequence (concurrent_write generation) disk
        | some not_found ↦ discard generation sequence (io publish not_found) disk
        | some (other_kind k) ↦ discard generation sequence (io publish (other_kind k)) disk
      ]

  -- From the encoded record to its publication.
  unfoldable pub publish_record : ℕ → Bytes → Step ℕ
  publish_record generation bytes = do
    sequence ← create_pending_file 8 generation
    discard_if generation sequence write_pending faults.write
    discard_if generation sequence sync_pending faults.sync
    modify (on_entries faults.before_publication)
    discard_unless generation sequence faults.still_locked
    link_generation generation sequence bytes
    pure sequence

  abbrev pub reject : Option ℕ → Step (Unit {0})
  reject none = pure tt
  reject (some unexpected) = raise (concurrent_write unexpected)

  abbrev pub recovered : Loaded Snapshot → List ℕ
  recovered loaded = elim loaded.recovery [ none ↦ [] | some skipped ↦ skipped ]

  -- The second discovery, with room for two more entries, and what it rejects.
  unfoldable pub discover_again : Snapshot → Loaded Snapshot → Step (List ℕ)
  discover_again snapshot loaded = do
    found ← gets (λ disk. disk.entries)
    generations ← check (discover_generations_with_reserve faults.discovery 2 found)
    reject (unexpected_generation (codec.generation snapshot) (recovered loaded) generations)
    pure generations

  -- What `save` checks against the directory before it writes, and the generations there.
  unfoldable pub examine : Snapshot → Step (List ℕ)
  examine snapshot = do
    entries ← gets (λ disk. disk.entries)
    loaded ← check (load codec faults.reads entries)
    raise_if (not (codec.generation loaded.snapshot == codec.generation snapshot))
        (stale_generation (codec.generation loaded.snapshot) (codec.generation snapshot))
    modify (on_entries faults.before_discovery)
    discover_again snapshot loaded

  -- The removals after the publication, and the result.
  unfoldable pub finish : Snapshot → List ℕ → ℕ → ℕ → Step (Saved Snapshot)
  finish snapshot generations generation sequence disk =
      let published =
        on_entries (remove_entry faults.remove_pending (is_pending generation sequence)) disk in
      let (failed, left) =
        remove_generations faults.remove_generation
          (expired (codec.generation snapshot) generations) published.entries in
      (
        ok (record {
          snapshot = codec.with_generation snapshot generation;
          failed_generations = failed;
          pending_remains = removal_failed faults.remove_pending;
        }),
        record published { entries = left },
      )

  unfoldable pub save : Snapshot → Step (Saved Snapshot)
  save snapshot = do
    raise_if (not faults.locked) lock
    record_check (codec.validate snapshot)
    generations ← examine snapshot
    generation ← or_raise (checked_add (newest_of generations) 1) generation_exhausted
    bytes ← record_check (codec.encode snapshot generation)
    sequence ← publish_record generation bytes
    finish snapshot generations generation sequence
