-- ===== src/Store/Keeps.antt =====
-- Calls that leave the file of a generation as it is: src/bookmarks.rs.
use zorya.Common.{
  ℕ, ◌≡◌, ◌≢◌, refl, subst, ◌∙◌, Bool, true, false, Option, none, some, List, [], ◌∷◌, ◌==◌, any,
  retain, is_some, Outcome, ok, err, panicked, Call, ◌>>=◌, check, raise_if, continue, arith,
}
use zorya.Store.Directory.{
  ErrorKind, generation_file, pending_file, other_entry, Directory, StoreError, contents,
  is_generation, is_pending,
}
use zorya.Store.Save.{Disk, remove_entry, remove_generations}

pub contents-remove_pending :
    (kind : Option ErrorKind) (w g s : ℕ) (entries : Directory)
    → contents w (remove_entry kind (is_pending g s) entries) ≡ contents w entries
unfolding contents retain
contents-remove_pending (some kind) w g s entries = refl
contents-remove_pending none w g s [] = refl
contents-remove_pending none w g s (generation_file h bytes ∷ entries) =
    ground (arith, contents-remove_pending none w g s entries)
contents-remove_pending none w g s (pending_file h t ∷ entries) =
    ground (arith, contents-remove_pending none w g s entries)
contents-remove_pending none w g s (other_entry ∷ entries) =
    contents-remove_pending none w g s entries

contents-remove_generation :
    (kind : Option ErrorKind) (w g : ℕ) (entries : Directory)
    → (g == w) ≡ false
    → contents w (remove_entry kind (is_generation g) entries) ≡ contents w entries
unfolding contents retain
contents-remove_generation (some kind) w g entries h = refl
contents-remove_generation none w g [] h = refl
contents-remove_generation none w g (generation_file k bytes ∷ entries) h =
    ground (arith, contents-remove_generation none w g entries)
contents-remove_generation none w g (pending_file k t ∷ entries) h =
    contents-remove_generation none w g entries h
contents-remove_generation none w g (other_entry ∷ entries) h =
    contents-remove_generation none w g entries h

pub contents-remove_generations :
    (faults : ℕ → Option ErrorKind) (w : ℕ) (gs : List ℕ) (entries : Directory)
    → any (λ g. g == w) gs ≡ false
    → contents w (remove_generations faults gs entries).1 ≡ contents w entries
unfolding remove_generations any
contents-remove_generations faults w [] entries h = refl
contents-remove_generations faults w (g ∷ gs) entries h =
    contents-remove_generations faults w gs _ (ground arith)
    ∙ contents-remove_generation (faults g) w g entries (ground arith)

remove_generation-there :
    (kind : Option ErrorKind) (w g : ℕ) (entries : Directory)
    → is_some (contents w (remove_entry kind (is_generation g) entries)) ≡ true
    → is_some (contents w entries) ≡ true
unfolding contents retain
remove_generation-there (some kind) w g entries h = h
remove_generation-there none w g [] h = h
remove_generation-there none w g (generation_file k bytes ∷ entries) h =
    ground (arith, remove_generation-there none w g entries)
remove_generation-there none w g (pending_file k t ∷ entries) h =
    remove_generation-there none w g entries h
remove_generation-there none w g (other_entry ∷ entries) h =
    remove_generation-there none w g entries h

-- A removal brings no file back.
pub remove_generations-there :
    (faults : ℕ → Option ErrorKind) (w : ℕ) (gs : List ℕ) (entries : Directory)
    → is_some (contents w (remove_generations faults gs entries).1) ≡ true
    → is_some (contents w entries) ≡ true
unfolding remove_generations
remove_generations-there faults w [] entries h = h
remove_generations-there faults w (g ∷ gs) entries h =
    remove_generation-there (faults g) w g entries (remove_generations-there faults w gs _ h)

module _ {E : Type 0} (w : ℕ) where
  -- A call leaves the file of the generation `w` as it is.
  abbrev pub Keeps : {A : Type 0} → Call Disk (StoreError E) A → Type 0
  Keeps m = (d : Disk) → contents w (m d).1.entries ≡ contents w d.entries

  -- A call that fails does.
  abbrev pub KeepsOnError : {A : Type 0} → Call Disk (StoreError E) A → Type 0
  KeepsOnError m =
      (d d' : Disk) (e : StoreError E)
      → m d ≡ (err e, d')
      → contents w d'.entries ≡ contents w d.entries

  module _ {A B : Type 0} where
    continue-Keeps :
        (f : A → Call Disk (StoreError E) B) (r : Outcome (StoreError E) A) (t d : Disk)
        → contents w t.entries ≡ contents w d.entries
        → ((a : A) → Keeps (f a))
        → contents w (continue r t f).1.entries ≡ contents w d.entries
    continue-Keeps f (ok a) t d same keeps = keeps a t ∙ same
    continue-Keeps f (err e) t d same keeps = same
    continue-Keeps f panicked t d same keeps = same

    pub bind-Keeps :
        (m : Call Disk (StoreError E) A) (f : A → Call Disk (StoreError E) B)
        → Keeps m
        → ((a : A) → Keeps (f a))
        → Keeps (m >>= f)
    bind-Keeps m f first others d = continue-Keeps f (m d).0 (m d).1 d (first d) others

    continue-KeepsOnError :
        (f : A → Call Disk (StoreError E) B) (r : Outcome (StoreError E) A) (t d d' : Disk)
        (e : StoreError E)
        → contents w t.entries ≡ contents w d.entries
        → ((a : A) → KeepsOnError (f a))
        → continue r t f ≡ (err e, d')
        → contents w d'.entries ≡ contents w d.entries
    continue-KeepsOnError f (ok a) t d d' e same keeps h = keeps a t d' e h ∙ same
    continue-KeepsOnError f (err x) t d d' e same keeps h =
        let end_ : t ≡ d' = cc in subst (λ u. contents w u.entries ≡ contents w d.entries) end_ same
    continue-KeepsOnError f panicked t d d' e same keeps h = absurd cc

    pub bind-KeepsOnError :
        (m : Call Disk (StoreError E) A) (f : A → Call Disk (StoreError E) B)
        → Keeps m
        → ((a : A) → KeepsOnError (f a))
        → KeepsOnError (m >>= f)
    bind-KeepsOnError m f first others d d' e h =
        continue-KeepsOnError f (m d).0 (m d).1 d d' e (first d) others h

    -- What comes after the last call that can fail.
    pub last-KeepsOnError :
        (m : Call Disk (StoreError E) A) (f : A → Call Disk (StoreError E) B)
        → KeepsOnError m
        → ((a : A) (t d' : Disk) (e : StoreError E) → f a t ≢ (err e, d'))
        → KeepsOnError (m >>= f)
    last-KeepsOnError m f first never d d' e h = last_step (m d) refl h
      where
        last_step :
            (r : Outcome (StoreError E) A × Disk)
            → m d ≡ r
            → continue r.0 r.1 f ≡ (err e, d')
            → contents w d'.entries ≡ contents w d.entries
        last_step (ok a, t) q h = absurd (never a t d' e h)
        last_step (err x, t) q h = first d d' e (
            q
            ∙ (let same_error : x ≡ e = cc in
                let same_disk : t ≡ d' = cc in rw (same_error, same_disk) refl))
        last_step (panicked, t) q h = absurd cc

  pub check-Keeps : {A : Type 0} (r : Outcome (StoreError E) A) → Keeps (check r)
  check-Keeps r d = refl

  pub raise_if-Keeps : (c : Bool) (e : StoreError E) → Keeps (raise_if c e)
  raise_if-Keeps true e d = refl
  raise_if-Keeps false e d = refl
