-- ===== src/Store/Reload.antt =====
-- Loading what a save has written: src/bookmarks.rs.
use zorya.Common.{
  ℕ, zero, suc, ◌+◌, ◌^◌, ◌≤◌, ◌<◌, ◌≡◌, refl, sym, ap, subst, ◌∙◌, inl, inr, Bool-cases, true,
  false, none, some, List, [], ◌∷◌, ◌==◌, ==_refl, any, take, length, is_some, ok, arith,
}
use zorya.Common.Calls.{given}
use zorya.Record.{Bytes}
use zorya.Store.Directory.{Directory, contents}
use zorya.Store.Codec.{Codec, CodecLaws}
use zorya.Store.Load.{no_read_faults, read_generation, load_newest, load_found, load}
use zorya.Store.Save.{Disk, SaveFaults, Saved, save}
use zorya.Store.Discovery.{has, Descending, discover_generations-ok, discover_generations_total}
use zorya.Store.Published.{IsPublished, save-ok, above_newest}

take_all : {A : Type 0} (n : ℕ) (xs : List A) → length xs ≤ n → take n xs ≡ xs
take_all zero [] h = refl
take_all zero (x ∷ xs) h = absurd (omega arith)
take_all (suc n) [] h = refl
take_all (suc n) (x ∷ xs) h = ap (◌∷◌ x) (take_all n xs (omega arith))

module _ {Snapshot E : Type 0} (codec : Codec Snapshot E) {CanSave : Snapshot → Type 0}
    (laws : CodecLaws codec CanSave) where
  read_generation_lem :
      (entries : Directory) (g : ℕ) (bytes : Bytes)
      → contents g entries ≡ some bytes
      → read_generation codec no_read_faults entries g ≡ ok (take (codec.limit + 1) bytes)
  unfolding read_generation
  read_generation_lem entries g bytes there = rw (read_generation, there) refl

  -- The first generation discovered holds the record of a snapshot.
  load_found-first :
      (s : Snapshot) (entries : Directory) (g : ℕ) (gs : List ℕ) (bytes : Bytes)
      → CanSave s
      → 0 < g
      → g < 2 ^ 64
      → codec.encode s g ≡ ok bytes
      → contents g entries ≡ some bytes
      → load_found codec no_read_faults entries (g ∷ gs)
        ≡ ok (record { snapshot = codec.with_generation s g; recovery = none })
  unfolding load_found load_newest
  load_found-first s entries g gs bytes can positive fits encoded there =
      let whole =
        take_all (codec.limit + 1) bytes (omega (arith, laws.length-encode s g bytes encoded)) in
      simp (
        read_generation_lem entries g bytes there,
        whole,
        laws.decode-encode s g bytes can positive fits encoded,
      )

  -- The newest generation discovered is the one published.
  first_published :
      (faults : SaveFaults) (s : Snapshot) (d d' : Disk) (saved : Saved Snapshot) (g : ℕ)
      (gs : List ℕ)
      → ((w : ℕ) (entries : Directory)
          → contents w (faults.before_publication entries) ≡ contents w entries)
      → (p : IsPublished codec faults s d saved d') → Descending (g ∷ gs)
      → ((w : ℕ) → has w (g ∷ gs) ≡ is_some (contents w d'.entries))
      → p.generation ≡ g
  unfolding any
  first_published faults s d d' saved g gs idle p descending members =
      let there : has p.generation (g ∷ gs) ≡ true = members p.generation ∙ ap is_some p.written in
      let above : p.generation ≤ g = above_newest g p.generation gs descending there in
      let listed : has g (g ∷ gs) ≡ true = ground (arith, ==_refl g) in
      elim (Bool-cases (p.generation == g)) [
        | inl same ↦ ground arith
        | inr differs ↦
            let below = p.newer g (p.others g differs (idle g) (sym (members g) ∙ listed)) in
            absurd (omega arith)
      ]

  -- After a save that returns, during whose publication no other writer changes a generation, a load of
  -- the directory returns the saved snapshot and no recovery, if at most 64 entries are there and its reads succeed.
  pub load-save :
      (faults : SaveFaults) (s : Snapshot) (d d' : Disk) (saved : Saved Snapshot)
      → CanSave s
      → ((w : ℕ) (entries : Directory)
          → contents w (faults.before_publication entries) ≡ contents w entries)
      → save codec faults s d ≡ (ok saved, d')
      → length d'.entries ≤ 64
      → load codec no_read_faults d'.entries
        ≡ ok (record { snapshot = saved.snapshot; recovery = none })
  unfolding load any
  load-save faults s d d' saved can idle h few = given (save-ok codec faults s d d' saved h) λ p.
      given (discover_generations_total {E = E} d'.entries few) λ (gs, found).
        given (discover_generations-ok none 0 d'.entries gs found)
          λ (descending, members). rw found (newest_loaded p gs descending members)
    where
      missing :
          (p : IsPublished codec faults s d saved d')
          → false ≡ is_some (contents p.generation d'.entries)
          → ⊥
      missing p h = cc

      newest_loaded :
          (p : IsPublished codec faults s d saved d') (gs : List ℕ)
          → Descending gs
          → ((w : ℕ) → has w gs ≡ is_some (contents w d'.entries))
          → load_found codec no_read_faults d'.entries gs
            ≡ ok (record { snapshot = saved.snapshot; recovery = none })
      newest_loaded p [] descending members = absurd (missing p (members p.generation))
      newest_loaded p (g ∷ gs) descending members =
          let same = first_published faults s d d' saved g gs idle p descending members in
          subst
            (λ k.
              load_found codec no_read_faults d'.entries (k ∷ gs)
              ≡ ok (record { snapshot = saved.snapshot; recovery = none }))
            same
            (rw p.result (
              load_found-first s d'.entries p.generation gs p.bytes can p.positive p.fits p.encoded
                p.written))
