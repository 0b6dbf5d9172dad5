-- ===== src/Store/Files.antt =====
-- What a save does to the files of the generations: src/bookmarks.rs.
use zorya.Common.{
  ℕ, zero, suc, ◌+◌, ◌%◌, ◌^◌, modify, pure, or_raise, checked_add, ◌≡◌, ◌≢◌, refl, subst, ◌∙◌, ◌⊎◌,
  inl, inr, Bool, Bool-cases, Outcome-cases, Option-cases, true, false, not, Option, none, some,
  ◌∷◌, ◌==◌, any, Outcome, ok, err, panicked, ◌>>◌, raise_if,
}
use zorya.Record.{Bytes}
use zorya.Store.Directory.{
  ErrorKind, already_exists, not_found, other_kind, generation_file, Directory, Operation,
  write_pending, sync_pending, StoreError, lock, io, publish, concurrent_write,
  generation_exhausted, discover_generations_with_reserve, unexpected_generation, newest_of,
  contents, is_pending,
}
use zorya.Store.Codec.{Codec}
use zorya.Store.Save.{
  Disk, SaveFaults, remove_entry, on_entries, create_pending_file, discard_if, link_generation,
  publish_record, examine, finish, save, record_check, reject, discard_unless, recovered,
  discover_again,
}
use zorya.Store.Load.{Loaded, load}
use zorya.Store.Keeps.{
  contents-remove_pending, Keeps, KeepsOnError, bind-Keeps, bind-KeepsOnError, last-KeepsOnError,
  raise_if-Keeps,
}

ok_never :
    {E A : Type 0} (a : A) (t d' : Disk) (e : StoreError E)
    → ◌≢◌ {A = Outcome (StoreError E) A × Disk} (ok a, t) (err e, d')
ok_never a t d' e h = absurd cc

module _ {Snapshot E : Type 0} (codec : Codec Snapshot E) (faults : SaveFaults) (w : ℕ) where
  record_check-Keeps : {A : Type 0} (r : Outcome E A) → Keeps w (record_check codec faults r)
  record_check-Keeps (ok a) d = refl
  record_check-Keeps (err e) d = refl
  record_check-Keeps panicked d = refl

  create_pending_file-Keeps :
      (attempts g : ℕ) → Keeps w (create_pending_file codec faults attempts g)
  unfolding create_pending_file contents
  create_pending_file-Keeps zero g d = refl
  create_pending_file-Keeps (suc attempts) g d =
      let counted : Disk = record d { next_pending = (d.next_pending + 1) % 2 ^ 64 } in
      let again = create_pending_file-Keeps attempts g counted in
      elim (Bool-cases (any (is_pending g d.next_pending) d.entries)) [
        | inl taken ↦ rw taken again
        | inr free ↦ elim (Option-cases faults.create) [
          | inl works ↦ rw (free, works) refl
          | inr (already_exists, fails) ↦ rw (free, fails) again
          | inr (not_found, fails) ↦ rw (free, fails) refl
          | inr (other_kind k, fails) ↦ rw (free, fails) refl
        ]
      ]

  discard_if-Keeps :
      (g s : ℕ) (operation : Operation) (kind : Option ErrorKind)
      → Keeps w (discard_if codec faults g s operation kind)
  discard_if-Keeps g s operation none d = refl
  discard_if-Keeps g s operation (some kind) d =
      contents-remove_pending faults.remove_pending w g s d.entries

  discard_unless-Keeps : (g s : ℕ) (held : Bool) → Keeps w (discard_unless codec faults g s held)
  discard_unless-Keeps g s true d = refl
  discard_unless-Keeps g s false d = contents-remove_pending faults.remove_pending w g s d.entries

  -- The link is made where there was no file, or fails and the pending file is removed.
  pub link_generation-cases :
      (g s : ℕ) (bytes : Bytes) (d : Disk)
      → ((contents g d.entries ≡ none)
          × (link_generation codec faults g s bytes d
              ≡ (ok tt, on_entries (λ entries. generation_file g bytes ∷ entries) d)))
        ⊎ ((e : StoreError E) × (link_generation codec faults g s bytes d
              ≡ (err e, on_entries (remove_entry faults.remove_pending (is_pending g s)) d)))
  unfolding link_generation
  link_generation-cases g s bytes d = elim (Option-cases (contents g d.entries)) [
    | inr (old, there) ↦ inr (concurrent_write g, rw there refl)
    | inl free ↦ elim (Option-cases faults.link) [
      | inl works ↦ inl (free, rw (free, works) refl)
      | inr (already_exists, fails) ↦ inr (concurrent_write g, rw (free, fails) refl)
      | inr (not_found, fails) ↦ inr (io publish not_found, rw (free, fails) refl)
      | inr (other_kind k, fails) ↦ inr (io publish (other_kind k), rw (free, fails) refl)
    ]
  ]

  link_generation-KeepsOnError :
      (g s : ℕ) (bytes : Bytes) → KeepsOnError w (link_generation codec faults g s bytes)
  link_generation-KeepsOnError g s bytes d d' e h = elim (link_generation-cases g s bytes d) [
    | inl (free, works) ↦ absurd cc
    | inr (x, fails) ↦
        let end_ : on_entries (remove_entry faults.remove_pending (is_pending g s)) d ≡ d' = cc in
        subst (λ t. contents w t.entries ≡ contents w d.entries) end_
          (contents-remove_pending faults.remove_pending w g s d.entries)
  ]

  publish_record-KeepsOnError :
      (g : ℕ) (bytes : Bytes)
      → ((entries : Directory)
          → contents w (faults.before_publication entries) ≡ contents w entries)
      → KeepsOnError w (publish_record codec faults g bytes)
  unfolding publish_record
  publish_record-KeepsOnError g bytes others =
      bind-KeepsOnError w (create_pending_file codec faults 8 g) _ (create_pending_file-Keeps 8 g)
        λ s.
          bind-KeepsOnError w (discard_if codec faults g s write_pending faults.write) _
            (discard_if-Keeps g s write_pending faults.write)
            λ _.
              bind-KeepsOnError w (discard_if codec faults g s sync_pending faults.sync) _
                (discard_if-Keeps g s sync_pending faults.sync)
                λ _.
                  bind-KeepsOnError w (modify (on_entries faults.before_publication)) _
                    (λ d. others d.entries)
                    λ _.
                      bind-KeepsOnError w (discard_unless codec faults g s faults.still_locked) _
                        (discard_unless-Keeps g s faults.still_locked)
                        λ _.
                          last-KeepsOnError w (link_generation codec faults g s bytes) _
                            (link_generation-KeepsOnError g s bytes) λ _. ok_never s

  link_generation-Keeps :
      (g s : ℕ) (bytes : Bytes)
      → (g == w) ≡ false
      → Keeps w (link_generation codec faults g s bytes)
  unfolding contents
  link_generation-Keeps g s bytes differs d = elim (link_generation-cases g s bytes d) [
    | inl (free, works) ↦ rw (works, differs) refl
    | inr (x, fails) ↦ rw fails (contents-remove_pending faults.remove_pending w g s d.entries)
  ]

  link_locked-Keeps :
      (g s : ℕ) (bytes : Bytes)
      → (g == w) ≡ false
      → Keeps w (
          discard_unless codec faults g s faults.still_locked
          >> (link_generation codec faults g s bytes >> pure s))
  link_locked-Keeps g s bytes differs =
      bind-Keeps w (discard_unless codec faults g s faults.still_locked) _
        (discard_unless-Keeps g s faults.still_locked)
        λ _.
          bind-Keeps w (link_generation codec faults g s bytes) _
            (link_generation-Keeps g s bytes differs) λ _ t. refl

  -- The publication touches no other generation's file.
  pub publish_record-Keeps :
      (g : ℕ) (bytes : Bytes)
      → (g == w) ≡ false
      → ((entries : Directory)
          → contents w (faults.before_publication entries) ≡ contents w entries)
      → Keeps w (publish_record codec faults g bytes)
  unfolding publish_record
  publish_record-Keeps g bytes differs others =
      bind-Keeps w (create_pending_file codec faults 8 g) _ (create_pending_file-Keeps 8 g) λ s.
        bind-Keeps w (discard_if codec faults g s write_pending faults.write) _
          (discard_if-Keeps g s write_pending faults.write)
          λ _.
            bind-Keeps w (discard_if codec faults g s sync_pending faults.sync) _
              (discard_if-Keeps g s sync_pending faults.sync)
              λ _ d.
                link_locked-Keeps g s bytes differs (on_entries faults.before_publication d)
                ∙ others d.entries

  or_raise-Keeps : {A : Type 0} (o : Option A) → Keeps {E = E} w (or_raise o generation_exhausted)
  or_raise-Keeps none d = refl
  or_raise-Keeps (some a) d = refl

  reject-Keeps : (o : Option ℕ) → Keeps w (reject codec faults o)
  reject-Keeps none d = refl
  reject-Keeps (some g) d = refl

  discover_again-Keeps :
      (s : Snapshot) (loaded : Loaded Snapshot) → Keeps w (discover_again codec faults s loaded)
  unfolding discover_again
  discover_again-Keeps s loaded d =
      elim (Outcome-cases
        (discover_generations_with_reserve {E = E} faults.discovery 2 d.entries)) [
          | inr (inl (e, failed)) ↦ rw failed refl
          | inr (inr failed) ↦ rw failed refl
          | inl (gs, found) ↦
              elim (Option-cases
                (unexpected_generation (codec.generation s) (recovered codec faults loaded) gs)) [
                  | inl expected ↦ rw (found, expected) refl
                  | inr (g, unexpected) ↦ rw (found, unexpected) refl
                ]
        ]

  examine-Keeps :
      (s : Snapshot)
      → ((entries : Directory) → contents w (faults.before_discovery entries) ≡ contents w entries)
      → Keeps w (examine codec faults s)
  unfolding examine
  examine-Keeps s others d = elim (Outcome-cases (load codec faults.reads d.entries)) [
    | inr (inl (e, failed)) ↦ rw failed refl
    | inr (inr failed) ↦ rw failed refl
    | inl (loaded, found) ↦
        elim (Bool-cases (not (codec.generation loaded.snapshot == codec.generation s))) [
          | inl stale ↦ rw (found, stale) refl
          | inr current ↦
              rw (found, current)
                (discover_again-Keeps s loaded (on_entries faults.before_discovery d)
                  ∙ others d.entries)
        ]
  ]

  -- A save that fails leaves the file of every generation as it was, unless another writer changes it.
  pub save-KeepsOnError :
      (s : Snapshot)
      → ((entries : Directory) → contents w (faults.before_discovery entries) ≡ contents w entries)
      → ((entries : Directory)
          → contents w (faults.before_publication entries) ≡ contents w entries)
      → KeepsOnError w (save codec faults s)
  unfolding save finish
  save-KeepsOnError s before_discovery before_publication =
      bind-KeepsOnError w (raise_if (not faults.locked) lock) _
        (raise_if-Keeps w (not faults.locked) lock)
        λ _.
          bind-KeepsOnError w (record_check codec faults (codec.validate s)) _
            (record_check-Keeps (codec.validate s))
            λ _.
              bind-KeepsOnError w (examine codec faults s) _ (examine-Keeps s before_discovery)
                λ gs.
                  bind-KeepsOnError w (or_raise (checked_add (newest_of gs) 1) generation_exhausted)
                    _ (or_raise-Keeps (checked_add (newest_of gs) 1))
                    λ g.
                      bind-KeepsOnError w (record_check codec faults (codec.encode s g)) _
                        (record_check-Keeps (codec.encode s g))
                        λ bytes.
                          last-KeepsOnError w (publish_record codec faults g bytes) _
                            (publish_record-KeepsOnError g bytes before_publication)
                            λ sequence t. ok_never _ _
