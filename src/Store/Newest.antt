-- ===== src/Store/Newest.antt =====
-- Which generation a load returns.
use mathlib.Core.List.{append-nil, append_assoc}
use zorya.Common.{
  ℕ, ◌≤◌, ◌<◌, ◌≡◌, refl, sym, subst, ap, ◌∙◌, ◌⊎◌, inl, inr, true, false, none, List, [], ◌∷◌,
  ◌++◌, any, All, is_some, Outcome, ok, err, panicked, arith,
}
use zorya.Common.Calls.{given}
use zorya.Record.{Bytes, DecodeError, corrupt, unsupported_schema}
use zorya.Record.Check.{try-ok}
use zorya.Store.Directory.{Directory, contents, discover_generations_with_reserve}
use zorya.Store.Codec.{Codec}
use zorya.Store.Load.{
  Loaded, ReadFaults, read_generation, load_newest, load_found, load, recovery_of, after_decode,
}
use zorya.Store.Discovery.{has, Descending, discover_generations-ok}

module _ {Snapshot E : Type 0} (codec : Codec Snapshot E) (faults : ReadFaults)
    (entries : Directory) where
  -- The file of the generation is read and decoded.
  abbrev pub Reads : ℕ → Snapshot → Type 0
  Reads g s =
      (bytes : Bytes) × (read_generation codec faults entries g ≡ ok bytes)
      × (codec.decode bytes g ≡ ok s)

  -- The file of the generation is read, and is corrupt.
  abbrev pub IsCorrupt : ℕ → Type 0
  IsCorrupt g =
      (bytes : Bytes) × (read_generation codec faults entries g ≡ ok bytes)
      × (codec.decode bytes g ≡ err corrupt)

  -- The load stopped at a generation of the list; those skipped are corrupt, and are all the newer ones.
  pub record Stops (before : List ℕ) (gs : List ℕ) (l : Loaded Snapshot) : Type 0 where
    pub generation : ℕ
    pub skipped : List ℕ
    pub listed : has generation gs ≡ true
    pub reads : Reads generation l.snapshot
    pub corrupt_ : All IsCorrupt skipped
    pub newer : (g : ℕ) → has g gs ≡ true → generation < g → has g skipped ≡ true
    pub recovery : l.recovery ≡ recovery_of codec (before ++ skipped)

  has_below : (w g : ℕ) (gs : List ℕ) → All (λ h. h ≤ g) gs → g < w → has w gs ≡ false
  unfolding any
  has_below w g [] below h = refl
  has_below w g (k ∷ ks) (le, below) h = ground (arith, has_below w g ks below h)

  found_here :
      (before : List ℕ) (g : ℕ) (gs : List ℕ) (s : Snapshot)
      → Descending (g ∷ gs)
      → Reads g s
      → Stops before (g ∷ gs) (record { snapshot = s; recovery = recovery_of codec before })
  unfolding any
  found_here before g gs s (below, d) reads = record {
    generation = g;
    skipped = [];
    listed = ground arith;
    reads = reads;
    corrupt_ = tt;
    newer = λ w listed above. absurd (ground (arith, has_below w g gs below above));
    recovery = ap (recovery_of codec) (sym (append-nil before));
  }

  found_later :
      (before : List ℕ) (g : ℕ) (gs : List ℕ) (l : Loaded Snapshot)
      → IsCorrupt g
      → Stops (before ++ (g ∷ [])) gs l
      → Stops before (g ∷ gs) l
  unfolding any
  found_later before g gs l bad stops = record {
    generation = stops.generation;
    skipped = g ∷ stops.skipped;
    listed = ground (arith, stops.listed);
    reads = stops.reads;
    corrupt_ = (bad, stops.corrupt_);
    newer = λ w listed above. ground (arith, stops.newer w);
    recovery = stops.recovery ∙ ap (recovery_of codec) (append_assoc before (g ∷ []) stops.skipped);
  }

  load_newest-ok :
      (gs before : List ℕ) (l : Loaded Snapshot)
      → Descending gs
      → load_newest codec faults entries before gs ≡ ok l
      → Stops before gs l
  unfolding load_newest
  load_newest-ok [] before l d h = absurd cc
  load_newest-ok (g ∷ gs) before l d h =
      given (try-ok (read_generation codec faults entries g) _ h) λ (bytes, read, rest).
        decoded (load_newest-ok gs (before ++ (g ∷ [])) l d.1) (codec.decode bytes g) bytes refl
          read rest
    where
      decoded :
          (load_newest codec faults entries (before ++ (g ∷ [])) gs ≡ ok l
            → Stops (before ++ (g ∷ [])) gs l)
          → (r : Outcome DecodeError Snapshot) → (bytes : Bytes) → codec.decode bytes g ≡ r
          → read_generation codec faults entries g ≡ ok bytes
          → after_decode codec g before (load_newest codec faults entries (before ++ (g ∷ [])) gs) r
            ≡ ok l
          → Stops before (g ∷ gs) l
      decoded others (ok s) bytes e read h =
          let returned : record { snapshot = s; recovery = recovery_of codec before } ≡ l = cc in
          subst (Stops before (g ∷ gs)) returned (found_here before g gs s d (bytes, read, e))
      decoded others (err corrupt) bytes e read h =
          found_later before g gs l (bytes, read, e) (others h)
      decoded others (err (unsupported_schema k)) bytes e read h = absurd cc
      decoded others panicked bytes e read h = absurd cc

  abbrev pub IsEmpty : Type 0
  IsEmpty = (g : ℕ) → is_some (contents g entries) ≡ false

  -- The snapshot is the one of a generation whose file is not corrupt, and every newer one is corrupt and is reported.
  pub record IsNewest (l : Loaded Snapshot) : Type 0 where
    pub generation : ℕ
    pub skipped : List ℕ
    pub present : is_some (contents generation entries) ≡ true
    pub reads : Reads generation l.snapshot
    pub corrupt_ : All IsCorrupt skipped
    pub newer :
        (g : ℕ) → is_some (contents g entries) ≡ true → generation < g → has g skipped ≡ true
    pub recovery : l.recovery ≡ recovery_of codec skipped

  load_found-ok :
      (gs : List ℕ) (l : Loaded Snapshot)
      → Descending gs
      → ((g : ℕ) → has g gs ≡ is_some (contents g entries))
      → load_found codec faults entries gs ≡ ok l
      → (IsEmpty × (l ≡ record { snapshot = codec.default; recovery = none })) ⊎ IsNewest l
  unfolding load_found any
  load_found-ok [] l d members h = inl (λ g. sym (members g), cc)
  load_found-ok (g ∷ gs) l d members h = given (load_newest-ok (g ∷ gs) [] l d h) λ stops.
      inr (record {
        generation = stops.generation;
        skipped = stops.skipped;
        present = sym (members stops.generation) ∙ stops.listed;
        reads = stops.reads;
        corrupt_ = stops.corrupt_;
        newer = λ w present above. stops.newer w (members w ∙ present) above;
        recovery = stops.recovery;
      })

  -- A load that returns either finds no generation and returns the default snapshot, or returns what
  -- the newest file that is not corrupt holds, every newer one being corrupt and reported.
  pub load-ok :
      (l : Loaded Snapshot)
      → load codec faults entries ≡ ok l
      → (IsEmpty × (l ≡ record { snapshot = codec.default; recovery = none })) ⊎ IsNewest l
  unfolding load
  load-ok l h =
      given (try-ok (discover_generations_with_reserve faults.directory 0 entries) _ h)
        λ (gs, found, rest).
          given (discover_generations-ok faults.directory 0 entries gs found)
            λ (descending, members). load_found-ok gs l descending members rest
