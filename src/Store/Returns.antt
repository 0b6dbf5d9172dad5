-- ===== src/Store/Returns.antt =====
-- A save without a fault returns: src/bookmarks.rs.
use zorya.Common.{
  ℕ, ◌+◌, ◌%◌, ◌^◌, ◌≤◌, ◌<◌, ◌≡◌, refl, sym, subst, ◌∙◌, inl, inr, Bool, Bool-cases, true, false,
  none, List, [], ◌∷◌, ==_refl, any, find, length, is_some, ok, or_raise, checked_add, ltb, arith,
}
use zorya.Common.Calls.{given}
use zorya.Record.{Bytes}
use zorya.Store.Directory.{
  generation_file, pending_file, Directory, StoreError, generation_exhausted, contents, is_pending,
  discover_generations_with_reserve, unexpected_generation, newest_of,
}
use zorya.Store.Codec.{Codec, CodecLaws}
use zorya.Store.Load.{Loaded, no_read_faults, load, recovery_of}
use zorya.Store.Save.{
  Disk, Saved, no_save_faults, create_pending_file, link_generation, publish_record, discover_again,
  examine, finish, save, recovered,
}
use zorya.Store.Discovery.{has, discover_generations-ok, discover_total}
use zorya.Store.Newest.{load-ok}
use zorya.Store.Published.{next_of, has-next_of}

find-none :
    (p : ℕ → Bool) (gs : List ℕ) → ((w : ℕ) → has w gs ≡ true → p w ≡ false) → find p gs ≡ none
unfolding find any
find-none p [] h = refl
find-none p (g ∷ gs) h =
    let here : p g ≡ false = h g (ground (arith, ==_refl g)) in
    let rest = find-none p gs (λ w there. h w (ground arith)) in rw here rest

module _ {Snapshot E : Type 0} (codec : Codec Snapshot E) {CanSave : Snapshot → Type 0}
    (laws : CodecLaws codec CanSave) where
  recovered_lem :
      (loaded : Loaded Snapshot) (skipped : List ℕ)
      → loaded.recovery ≡ recovery_of codec skipped
      → recovered codec no_save_faults loaded ≡ skipped
  recovered_lem loaded [] h = rw h refl
  recovered_lem loaded (g ∷ gs) h = rw h refl

  -- A generation above the loaded one was skipped by the load.
  skipped_above :
      (entries : Directory) (loaded : Loaded Snapshot) (w : ℕ)
      → load codec no_read_faults entries ≡ ok loaded
      → is_some (contents w entries) ≡ true
      → codec.generation loaded.snapshot < w
      → has w (recovered codec no_save_faults loaded) ≡ true
  skipped_above entries loaded w read there above =
      elim (load-ok codec no_read_faults entries loaded read) [
        | inl (empty, default) ↦ absurd (ground (arith, empty w))
        | inr newest ↦
            let (bytes, held, decoded) = newest.reads in
            let current = laws.generation-decode loaded.snapshot newest.generation bytes decoded in
            subst (λ gs. has w gs ≡ true)
              (sym (recovered_lem loaded newest.skipped newest.recovery))
              (newest.newer w there (omega (arith, current)))
      ]

  expected_generations :
      (entries : Directory) (loaded : Loaded Snapshot) (gs : List ℕ)
      → load codec no_read_faults entries ≡ ok loaded
      → ((w : ℕ) → has w gs ≡ is_some (contents w entries))
      → unexpected_generation
          (codec.generation loaded.snapshot)
          (recovered codec no_save_faults loaded)
          gs
        ≡ none
  unfolding unexpected_generation
  expected_generations entries loaded gs read members = find-none _ gs λ w listed.
      let there : is_some (contents w entries) ≡ true = sym (members w) ∙ listed in
      elim (Bool-cases (ltb (codec.generation loaded.snapshot) w)) [
        | inl above ↦
            let skipped = skipped_above entries loaded w read there (ground arith) in
            rw (above, skipped) refl
        | inr below ↦ rw below refl
      ]

  examine_returns :
      (s : Snapshot) (d : Disk) (loaded : Loaded Snapshot) (gs : List ℕ)
      → load codec no_read_faults d.entries ≡ ok loaded
      → codec.generation loaded.snapshot ≡ codec.generation s
      → discover_generations_with_reserve {E = E} none 2 d.entries ≡ ok gs
      → examine codec no_save_faults s d ≡ (ok gs, d)
  unfolding examine discover_again
  examine_returns s d loaded gs read current found =
      let (_, members) = discover_generations-ok {E = E} none 2 d.entries gs found in
      let expected =
        subst (λ g. unexpected_generation g (recovered codec no_save_faults loaded) gs ≡ none)
          current (expected_generations d.entries loaded gs read members) in
      rw (read, current, ==_refl (codec.generation s), found, expected) refl

  abbrev published_disk : ℕ → Bytes → Disk → Disk
  published_disk g bytes d = record {
    entries = generation_file g bytes ∷ pending_file g d.next_pending ∷ d.entries;
    next_pending = (d.next_pending + 1) % 2 ^ 64;
  }

  publish_record_returns :
      (g : ℕ) (bytes : Bytes) (d : Disk)
      → any (is_pending g d.next_pending) d.entries ≡ false
      → is_some (contents g d.entries) ≡ false
      → publish_record codec no_save_faults g bytes d
        ≡ (ok d.next_pending, published_disk g bytes d)
  unfolding publish_record create_pending_file link_generation contents
  publish_record_returns g bytes d fresh free = rw (fresh, free) refl

  -- A save without a fault or another writer returns, of a valid snapshot at the generation that a load
  -- returns, if the directory has at most 64 entries, none is a pending file of the next number, and
  -- no generation is the last one that a `u64` has.
  pub save_returns :
      (s : Snapshot) (d : Disk) (loaded : Loaded Snapshot)
      → CanSave s
      → codec.validate s ≡ ok tt
      → load codec no_read_faults d.entries ≡ ok loaded
      → codec.generation loaded.snapshot ≡ codec.generation s
      → length d.entries ≤ 64
      → ((g : ℕ) → any (is_pending g d.next_pending) d.entries ≡ false)
      → ((g : ℕ) → is_some (contents g d.entries) ≡ true → g + 1 < 2 ^ 64)
      → (saved : Saved Snapshot) × (d' : Disk) × (save codec no_save_faults s d ≡ (ok saved, d'))
  unfolding save finish discover_generations_with_reserve any
  save_returns s d loaded can valid read current few fresh below =
      given (discover_total {E = E} 2 0 [] d.entries (omega arith) (omega arith)) λ (gs, found).
        given (discover_generations-ok {E = E} none 2 d.entries gs found) λ (descending, members).
          let g = next_of gs in
          let fits = next_fits gs members in
          let free : is_some (contents g d.entries) ≡ false =
            sym (members g) ∙ has-next_of gs descending in
          let (bytes, encoded) = laws.encode-ok s g can valid (omega arith) fits in
          let published = publish_record_returns g bytes d (fresh g) free in
          let examined = examine_returns s d loaded gs read current found in
          let next = next_returns (newest_of gs) d fits in
          let end_ : save codec no_save_faults s d
              ≡ finish codec no_save_faults s gs g d.next_pending (published_disk g bytes d) =
            rw (valid, examined, next, encoded, published) refl in
          (_, _, end_)
    where
      next_fits :
          (gs : List ℕ)
          → ((w : ℕ) → has w gs ≡ is_some (contents w d.entries))
          → next_of gs < 2 ^ 64
      next_fits [] members = omega arith
      next_fits (g ∷ gs) members = below g (sym (members g) ∙ ground (arith, ==_refl g))

      next_returns :
          (n : ℕ) (d : Disk)
          → n + 1 < 2 ^ 64
          → or_raise {E = StoreError E} (checked_add n 1) generation_exhausted d ≡ (ok (n + 1), d)
      next_returns n d h =
          let small : ltb 18446744073709551615 (n + 1) ≡ false = ground arith in rw small refl
