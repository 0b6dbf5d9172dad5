-- ===== src/Store/Published.antt =====
-- What a save that returns has done: src/bookmarks.rs.
use zorya.Common.{
  ℕ, ◌+◌, ◌≤◌, ◌<◌, ◌^◌, ◌≡◌, refl, sym, ap, subst, ◌∙◌, inl, inr, Bool, Bool-cases, true, false,
  not, Option, none, some, List, [], ◌∷◌, ◌==◌, ==_refl, any, retain, is_some, Outcome, ok, err,
  panicked, check, or_raise, checked_add, arith, ltb,
}
use zorya.Common.Calls.{given, bind-ok, raise_if-ok}
use zorya.Record.{Bytes}
use zorya.Store.Directory.{
  generation_file, Directory, StoreError, generation_exhausted, write_pending, sync_pending,
  contents, discover_generations_with_reserve, unexpected_generation, newest_of,
}
use zorya.Store.Codec.{Codec}
use zorya.Store.Load.{Loaded, load}
use zorya.Store.Save.{
  Disk, SaveFaults, Saved, on_entries, expired, create_pending_file, discard_if, discard_unless,
  link_generation, publish_record, discover_again, examine, finish, save, record_check, reject,
  recovered,
}
use zorya.Store.Discovery.{has, Descending, discover_generations-ok}
use zorya.Store.Keeps.{
  contents-remove_pending, contents-remove_generations, remove_generations-there,
}
use zorya.Store.Files.{link_generation-cases, publish_record-Keeps}

-- What is not above the newest is not the generation after it.
-- The generation after the newest is above all of them.
pub above_newest :
    (first w : ℕ) (gs : List ℕ) → Descending (first ∷ gs) → has w (first ∷ gs) ≡ true → w ≤ first
unfolding any
above_newest first w [] d h = ground arith
above_newest first w (k ∷ ks) ((le, below), (_, d)) h =
    ground (arith, above_newest first w ks (below, d))

has-retain : (p : ℕ → Bool) (g : ℕ) (gs : List ℕ) → has g gs ≡ false → has g (retain p gs) ≡ false
unfolding any retain
has-retain p g [] h = refl
has-retain p g (k ∷ ks) h = ground (arith, has-retain p g ks)

abbrev pub next_of : List ℕ → ℕ
next_of gs = newest_of gs + 1

pub next_of-lt : (gs : List ℕ) (w : ℕ) → Descending gs → has w gs ≡ true → w < next_of gs
unfolding any
next_of-lt [] w d h = absurd cc
next_of-lt (g ∷ gs) w d h = omega (arith, above_newest g w gs d h)

pub has-next_of : (gs : List ℕ) → Descending gs → has (next_of gs) gs ≡ false
has-next_of gs d = elim (Bool-cases (has (next_of gs) gs)) [
  | inl there ↦ absurd (omega (arith, next_of-lt gs (next_of gs) d there))
  | inr away ↦ away
]

-- What is expired was discovered.
expired-away : (current g : ℕ) (gs : List ℕ) → has g gs ≡ false → has g (expired current gs) ≡ false
unfolding expired
expired-away current g gs h = has-retain _ g gs h

module _ {Snapshot E : Type 0} (codec : Codec Snapshot E) (faults : SaveFaults) where
  publish_record-ok :
      (g s : ℕ) (bytes : Bytes) (d d' : Disk)
      → publish_record codec faults g bytes d ≡ (ok s, d')
      → contents g d'.entries ≡ some bytes
  unfolding publish_record contents
  publish_record-ok g s bytes d d' h =
      given (bind-ok (create_pending_file codec faults 8 g) _ d h) λ (q, d1, _, h1).
        given (bind-ok (discard_if codec faults g q write_pending faults.write) _ d1 h1)
          λ (_, d2, _, h2).
            given (bind-ok (discard_if codec faults g q sync_pending faults.sync) _ d2 h2)
              λ (_, d3, _, h3).
                given
                  (bind-ok (discard_unless codec faults g q faults.still_locked) _
                    (on_entries faults.before_publication d3) h3)
                  λ (_, d5, _, h5).
                    given (bind-ok (link_generation codec faults g q bytes) _ d5 h5)
                      λ (_, d6, linked, h6).
                        elim (link_generation-cases codec faults g g q bytes d5) [
                          | inl (free, works) ↦
                              let end_ : on_entries (λ entries. generation_file g bytes ∷ entries)
                                    d5
                                  ≡ d' =
                                cc in
                              subst (λ t. contents g t.entries ≡ some bytes) end_
                                (ground (arith, ==_refl g))
                          | inr (e, fails) ↦ absurd cc
                        ]

  reject-ok :
      (o : Option ℕ) (d d' : Disk) {u : Unit {0}} → reject codec faults o d ≡ (ok u, d') → d ≡ d'
  reject-ok none d d' h = cc
  reject-ok (some g) d d' h = absurd cc

  discover_again-ok :
      (s : Snapshot) (loaded : Loaded Snapshot) (d d' : Disk) (gs : List ℕ)
      → discover_again codec faults s loaded d ≡ (ok gs, d')
      → Descending gs × ((w : ℕ) → has w gs ≡ is_some (contents w d.entries)) × (d ≡ d')
  unfolding discover_again
  discover_again-ok s loaded d d' gs h =
      given (bind-ok (check (discover_generations_with_reserve faults.discovery 2 d.entries)) _ d h)
        λ (found, d1, discovered, h1).
          given
            (bind-ok
              (reject codec faults
                (unexpected_generation (codec.generation s) (recovered codec faults loaded) found))
              _ d1 h1)
            λ (_, d2, accepted, h2).
              let same_found : found ≡ gs = cc in
              let read = discover_generations-ok {E = E} faults.discovery 2 d.entries found cc in
              let unchanged : d ≡ d1 = cc in
              let rejected =
                reject-ok
                  (unexpected_generation (codec.generation s) (recovered codec faults loaded) found)
                  d1 d2 accepted in
              let end_ : d2 ≡ d' = cc in
              (
                subst Descending same_found read.0,
                subst (λ xs. (w : ℕ) → has w xs ≡ is_some (contents w d.entries)) same_found read.1,
                unchanged ∙ rejected ∙ end_,
              )

  examine-ok :
      (s : Snapshot) (d d' : Disk) (gs : List ℕ)
      → examine codec faults s d ≡ (ok gs, d')
      → Descending gs
        × ((w : ℕ) → has w gs ≡ is_some (contents w (faults.before_discovery d.entries)))
        × (on_entries faults.before_discovery d ≡ d')
  unfolding examine
  examine-ok s d d' gs h =
      given (bind-ok (check (load codec faults.reads d.entries)) _ d h) λ (loaded, d1, read, h1).
        given (raise_if-ok (not (codec.generation loaded.snapshot == codec.generation s)) _ _ d1 h1)
          λ (current, h2).
            let unchanged : d ≡ d1 = cc in
            let again : discover_again codec faults s loaded (on_entries faults.before_discovery d)
                ≡ (ok gs, d') =
              subst
                (λ t.
                  discover_again codec faults s loaded (on_entries faults.before_discovery t)
                  ≡ (ok gs, d'))
                (sym unchanged) h2 in
            discover_again-ok s loaded (on_entries faults.before_discovery d) d' gs again

  -- The removals of `finish` leave the file of a generation that is not expired.
  finish-contents :
      (s : Snapshot) (gs : List ℕ) (g q w : ℕ) (d : Disk)
      → has w (expired (codec.generation s) gs) ≡ false
      → contents w (finish codec faults s gs g q d).1.entries ≡ contents w d.entries
  unfolding finish
  finish-contents s gs g q w d h =
      contents-remove_generations faults.remove_generation w (expired (codec.generation s) gs) _ h
      ∙ contents-remove_pending faults.remove_pending w g q d.entries

  finish-result :
      (s : Snapshot) (gs : List ℕ) (g q : ℕ) (d d' : Disk) (saved : Saved Snapshot)
      → finish codec faults s gs g q d ≡ (ok saved, d')
      → saved.snapshot ≡ codec.with_generation s g
  unfolding finish
  finish-result s gs g q d d' saved h = cc

  -- A removal brings no file back.
  finish-there :
      (s : Snapshot) (gs : List ℕ) (g q w : ℕ) (d : Disk)
      → is_some (contents w (finish codec faults s gs g q d).1.entries) ≡ true
      → is_some (contents w d.entries) ≡ true
  unfolding finish
  finish-there s gs g q w d h =
      subst (λ o. is_some o ≡ true) (contents-remove_pending faults.remove_pending w g q d.entries)
        (remove_generations-there faults.remove_generation w (expired (codec.generation s) gs) _ h)

  -- What a save that returns has found and written.
  pub record IsPublished (s : Snapshot) (d : Disk) (saved : Saved Snapshot) (d' : Disk)
      : Type 0 where
    pub generation : ℕ
    pub bytes : Bytes
    pub positive : 0 < generation
    pub fits : generation < 2 ^ 64
    pub encoded : codec.encode s generation ≡ ok bytes
    pub result : saved.snapshot ≡ codec.with_generation s generation
    pub written : contents generation d'.entries ≡ some bytes
    pub newer :
        (w : ℕ) → is_some (contents w (faults.before_discovery d.entries)) ≡ true → w < generation
    pub others :
        (w : ℕ)
        → (generation == w) ≡ false
        → ((entries : Directory)
            → contents w (faults.before_publication entries) ≡ contents w entries)
        → is_some (contents w d'.entries) ≡ true
        → is_some (contents w (faults.before_discovery d.entries)) ≡ true

  record_check-ok :
      {A : Type 0} (r : Outcome E A) (d d' : Disk) (a : A)
      → record_check codec faults r d ≡ (ok a, d')
      → (r ≡ ok a) × (d ≡ d')
  record_check-ok (ok x) d d' a h = (cc, cc)
  record_check-ok (err e) d d' a h = absurd cc
  record_check-ok panicked d d' a h = absurd cc

  next_generation-ok :
      (n g : ℕ) (d d' : Disk)
      → or_raise {E = StoreError E} (checked_add n 1) generation_exhausted d ≡ (ok g, d')
      → (n + 1 ≡ g) × (g < 2 ^ 64) × (d ≡ d')
  next_generation-ok n g d d' h = elim (Bool-cases (ltb 18446744073709551615 (n + 1))) [
    | inl over ↦ absurd (ground arith)
    | inr free ↦ (ground arith, ground arith, ground arith)
  ]

  -- A save that returns has written the record of the snapshot, at the generation that the result has,
  -- which is above every generation discovered.
  pub save-ok :
      (s : Snapshot) (d d' : Disk) (saved : Saved Snapshot)
      → save codec faults s d ≡ (ok saved, d')
      → IsPublished s d saved d'
  unfolding save
  save-ok s d d' saved h = given (raise_if-ok (not faults.locked) _ _ d h) λ (_, h1).
      given (bind-ok (record_check codec faults (codec.validate s)) _ d h1) λ (_, d2, valid, h2).
        given (bind-ok (examine codec faults s) _ d2 h2) λ (gs, d3, examined, h3).
          given (bind-ok (or_raise (checked_add (newest_of gs) 1) generation_exhausted) _ d3 h3)
            λ (g, d4, next, h4).
              given (bind-ok (record_check codec faults (codec.encode s g)) _ d4 h4)
                λ (bytes, d5, encoded, h5).
                  given (bind-ok (publish_record codec faults g bytes) _ d5 h5)
                    λ (q, d6, published, finished).
                      let (_, same2) = record_check-ok (codec.validate s) d d2 _ valid in
                      let (descending, members, searched) = examine-ok s d2 d3 gs examined in
                      let (g_next, fits, same4) = next_generation-ok (newest_of gs) g d3 d4 next in
                      let (encoded_, same5) =
                        record_check-ok (codec.encode s g) d4 d5 bytes encoded in
                      let below : (w : ℕ)
                          → is_some (contents w (faults.before_discovery d.entries)) ≡ true
                          → w < g =
                        λ w there.
                          let listed : has w gs ≡ true =
                            members w
                            ∙ subst
                                (λ t.
                                  is_some (contents w (faults.before_discovery t.entries)) ≡ true)
                                same2 there in
                          subst (λ k. w < k) g_next (next_of-lt gs w descending listed) in
                      let away : has g (expired (codec.generation s) gs) ≡ false =
                        expired-away (codec.generation s) g gs
                          (subst (λ k. has k gs ≡ false) g_next (has-next_of gs descending)) in
                      record {
                        generation = g;
                        bytes = bytes;
                        positive = omega (arith, g_next);
                        fits = fits;
                        encoded = encoded_;
                        result = finish-result s gs g q d6 d' saved finished;
                        written =
                            subst (λ t. contents g t.entries ≡ some bytes) (ap (λ p. p.1) finished)
                              (finish-contents s gs g q g d6 away
                                ∙ publish_record-ok g q bytes d5 d6 published);
                        newer = below;
                        others = λ w differs idle there.
                            let kept : contents w d6.entries ≡ contents w d5.entries =
                              ap (λ p. contents w p.1.entries) (sym published)
                              ∙ publish_record-Keeps codec faults w g bytes differs idle d5 in
                            let before : is_some (contents w d6.entries) ≡ true =
                              finish-there s gs g q w d6 (
                                subst (λ t. is_some (contents w t.entries) ≡ true)
                                  (sym (ap (λ p. p.1) finished)) there) in
                            let start : on_entries faults.before_discovery d ≡ d5 =
                              ap (on_entries faults.before_discovery) same2
                              ∙ (searched ∙ (same4 ∙ same5)) in
                            subst (λ o. is_some o ≡ true)
                              (kept ∙ ap (λ t. contents w t.entries) (sym start)) before;
                      }
