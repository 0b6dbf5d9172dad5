-- ===== src/Store/Load.antt =====
-- `BookmarksStore::load` of src/bookmarks.rs.
use zorya.Common.{take, ◌+◌, ℕ, Option, none, some, List, [], ◌∷◌, ◌++◌, Outcome, ok, err, panicked}
use zorya.Record.{Bytes, DecodeError, corrupt, unsupported_schema}
use zorya.Record.Check.{◌>>=◌}
use zorya.Store.Directory.{
  ErrorKind, not_found, Directory, StoreError, io, open_generation, unsupported_generation,
  no_valid_generation, contents, discover_generations_with_reserve,
}
use zorya.Store.Codec.{Codec}

-- What `load` returns; the recovery is the list of the generations skipped.
pub record Loaded (Snapshot : Type 0) : Type 0 where
  pub snapshot : Snapshot
  pub recovery : Option (List ℕ)

-- The failures of a load's system calls.
pub record ReadFaults : Type 0 where
  pub directory : Option ErrorKind
  pub file : ℕ → Option ErrorKind

abbrev pub no_read_faults : ReadFaults
no_read_faults = record { directory = none; file = λ generation. none }

module _ {Snapshot E : Type 0} (codec : Codec Snapshot E) where
  -- `read_bounded` of the file of a generation.
  unfoldable pub read_generation : ReadFaults → Directory → ℕ → Outcome (StoreError E) Bytes
  read_generation faults entries generation = elim (faults.file generation) [
    | some kind ↦ err (io open_generation kind)
    | none ↦ elim (contents generation entries) [
      | none ↦ err (io open_generation not_found)
      | some bytes ↦ ok (take (codec.limit + 1) bytes)
    ]
  ]

  abbrev pub recovery_of : List ℕ → Option (List ℕ)
  recovery_of [] = none
  recovery_of (g ∷ gs) = some (g ∷ gs)

  -- The `match` on what `decode` returns; `others` is what the older generations give.
  abbrev pub after_decode :
      ℕ
      → List ℕ
      → Outcome (StoreError E) (Loaded Snapshot)
      → Outcome DecodeError Snapshot
      → Outcome (StoreError E) (Loaded Snapshot)
  after_decode generation skipped others (ok snapshot) =
      ok (record { snapshot = snapshot; recovery = recovery_of skipped })
  after_decode generation skipped others (err (unsupported_schema schema)) =
      err (unsupported_generation generation schema)
  after_decode generation skipped others (err corrupt) = others
  after_decode generation skipped others panicked = panicked

  -- The loop of `load`, which has skipped the generations `corrupt`.
  unfoldable pub load_newest :
      ReadFaults → Directory → List ℕ → List ℕ → Outcome (StoreError E) (Loaded Snapshot)
  load_newest faults entries skipped [] = err (no_valid_generation skipped)
  load_newest faults entries skipped (generation ∷ generations) =
      let others = load_newest faults entries (skipped ++ (generation ∷ [])) generations in
      read_generation faults entries generation >>= λ bytes.
      after_decode generation skipped others (codec.decode bytes generation)

  unfoldable pub load_found :
      ReadFaults → Directory → List ℕ → Outcome (StoreError E) (Loaded Snapshot)
  load_found faults entries [] = ok (record { snapshot = codec.default; recovery = none })
  load_found faults entries (g ∷ gs) = load_newest faults entries [] (g ∷ gs)

  unfoldable pub load : ReadFaults → Directory → Outcome (StoreError E) (Loaded Snapshot)
  unfolding load_found
  load faults entries =
      discover_generations_with_reserve faults.directory 0 entries >>= λ generations.
      load_found faults entries generations
