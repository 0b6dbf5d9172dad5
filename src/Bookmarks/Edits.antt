-- ===== src/Bookmarks/Edits.antt =====
-- Sequences of edits of a snapshot of bookmarks: src/bookmarks.rs.
use zorya.Common.{
  ℕ, zero, suc, ◌+◌, ◌<◌, ◌≤◌, ◌^◌, ◌≡◌, refl, ◌⊎◌, inl, inr, Bool, Bool-cases, Option-cases, not,
  List, [], ◌∷◌, ◌++◌, ◌||◌, ◌==◌, ltb, leb, length, length-append, length-update_first, find,
  position, remove_at, update_first, retain, ok, err, arith, saturating_add,
}
use zorya.Record.{Bytes, same_bytes}
use zorya.Bookmarks.{
  Bookmark, BookmarksSnapshot, BookmarksError, title_too_large, empty_location, location_too_large,
  bookmark_limit_exceeded, bookmark_id_exhausted, default, validate_title, validate_location,
  validate_snapshot,
}
use zorya.Bookmarks.Shape.{Entries, IsValid, validate_snapshot_lem}
use zorya.Bookmarks.Edit.{
  has_id, add_bookmark, update_bookmark, set_contents, remove_bookmark,
  remove_bookmarks_at_exact_location, clear, advance_generation_after_save,
}

-- A later free identifier leaves room for one more entry.
Entries-append :
    (next previous : ℕ) (bs : List Bookmark) (b : Bookmark)
    → Entries next previous bs
    → previous < next
    → b.id ≡ next
    → length b.title ≤ 1024
    → 0 < length b.location
    → length b.location ≤ 4096
    → Entries (next + 1) previous (bs ++ (b ∷ []))
Entries-append next previous [] b h low e title nonempty location =
    (title, nonempty, location, omega arith, omega arith, tt)
Entries-append next previous (a ∷ bs) b (t, n, l, above, below, rest) low e title nonempty
      location =
    (
      t,
      n,
      l,
      above,
      omega arith,
      Entries-append next a.id bs b rest below e title nonempty location,
    )

Entries-lower :
    (next low high : ℕ) (bs : List Bookmark)
    → Entries next high bs
    → low ≤ high
    → Entries next low bs
Entries-lower next low high [] h le = tt
Entries-lower next low high (b ∷ bs) (t, n, l, above, below, rest) le =
    (t, n, l, omega arith, below, rest)

Entries-remove_at :
    (next previous : ℕ) (bs : List Bookmark) (i : ℕ)
    → Entries next previous bs
    → Entries next previous (remove_at i bs)
unfolding remove_at
Entries-remove_at next previous [] i h = tt
Entries-remove_at next previous (b ∷ bs) zero (t, n, l, above, below, rest) =
    Entries-lower next previous b.id bs rest (omega arith)
Entries-remove_at next previous (b ∷ bs) (suc i) (t, n, l, above, below, rest) =
    (t, n, l, above, below, Entries-remove_at next b.id bs i rest)

Entries-retain :
    (p : Bookmark → Bool) (next previous : ℕ) (bs : List Bookmark)
    → Entries next previous bs
    → Entries next previous (retain p bs)
unfolding retain
Entries-retain p next previous [] h = tt
Entries-retain p next previous (b ∷ bs) (t, n, l, above, below, rest) = elim (Bool-cases (p b)) [
  | inl kept ↦ rw kept (t, n, l, above, below, Entries-retain p next b.id bs rest)
  | inr dropped ↦
      rw dropped
        (Entries-lower next previous b.id _ (Entries-retain p next b.id bs rest) (omega arith))
]

Entries-update_first :
    (p : Bookmark → Bool) (title location : Bytes) (next previous : ℕ) (bs : List Bookmark)
    → length title ≤ 1024
    → 0 < length location
    → length location ≤ 4096
    → Entries next previous bs
    → Entries next previous
        (update_first p (λ b. record b { title = title; location = location }) bs)
unfolding update_first
Entries-update_first p title location next previous [] ht hn hl h = tt
Entries-update_first p title location next previous (b ∷ bs) ht hn hl
      (t, n, l, above, below, rest) =
    elim (Bool-cases (p b)) [
      | inl hit ↦ rw hit (ht, hn, hl, above, below, rest)
      | inr miss ↦
          rw miss (
            t,
            n,
            l,
            above,
            below,
            Entries-update_first p title location next b.id bs ht hn hl rest,
          )
    ]

length-remove_at : (i : ℕ) (bs : List Bookmark) → length (remove_at i bs) ≤ length bs
unfolding remove_at
length-remove_at i [] = omega arith
length-remove_at zero (b ∷ bs) = omega arith
length-remove_at (suc i) (b ∷ bs) = omega (arith, length-remove_at i bs)

length-retain : (p : Bookmark → Bool) (bs : List Bookmark) → length (retain p bs) ≤ length bs
unfolding retain
length-retain p [] = omega arith
length-retain p (b ∷ bs) = ground (arith, length-retain p bs)

abbrev pub entry_of : ℕ → Bytes → Bytes → Bookmark
entry_of id title location = record { id = id; title = title; location = location }

abbrev pub added : Bytes → Bytes → BookmarksSnapshot → BookmarksSnapshot
added title location s = record s {
  next_bookmark_id = s.next_bookmark_id + 1;
  bookmarks = s.bookmarks ++ (entry_of s.next_bookmark_id title location ∷ []);
}

abbrev pub FitsEntry : Bytes → Bytes → Type 0
FitsEntry title location = (length title ≤ 1024) × (0 < length location) × (length location ≤ 4096)

-- The two texts pass their checks, or one of these fails.
validate-cases :
    (title location : Bytes)
    → ((validate_title title ≡ ok tt)
        × (validate_location location ≡ ok tt)
        × FitsEntry title location)
      ⊎ (((e : BookmarksError) × (validate_title title ≡ err e))
          ⊎ ((e : BookmarksError) × (validate_title title ≡ ok tt)
              × (validate_location location ≡ err e)))
unfolding validate_title validate_location
validate-cases title location = elim (Bool-cases (ltb 1024 (length title))) [
  | inl long ↦ inr (inl (title_too_large (length title) 1024, rw long refl))
  | inr short ↦ elim (Bool-cases (length location == 0)) [
    | inl empty ↦ inr (inr (empty_location, rw short refl, rw empty refl))
    | inr nonempty ↦ elim (Bool-cases (ltb 4096 (length location))) [
      | inl large ↦ inr (
          inr (location_too_large (length location) 4096, rw short refl, rw (nonempty, large) refl))
      | inr small ↦
          inl (rw short refl, rw (nonempty, small) refl, (ground arith, ground arith, ground arith))
    ]
  ]
]

pub add_bookmark-cases :
    (title location : Bytes) (s : BookmarksSnapshot)
    → ((add_bookmark title location s ≡ (ok s.next_bookmark_id, added title location s))
        × FitsEntry title location
        × (length s.bookmarks < 1024)
        × (s.next_bookmark_id + 1 < 2 ^ 64))
      ⊎ ((e : BookmarksError) × (add_bookmark title location s ≡ (err e, s)))
unfolding add_bookmark
add_bookmark-cases title location s = elim (validate-cases title location) [
  | inl (t, l, fits) ↦ elim (Bool-cases (leb 1024 (length s.bookmarks))) [
    | inl full ↦
        inr (
          bookmark_limit_exceeded (saturating_add (length s.bookmarks) 1) 1024,
          rw (t, l, full) refl,
        )
    | inr room ↦ elim (Bool-cases (ltb 18446744073709551615 (s.next_bookmark_id + 1))) [
      | inl over ↦ inr (bookmark_id_exhausted, rw (t, l, room, over) refl)
      | inr free ↦ inl (rw (t, l, room, free) refl, fits, ground arith, ground arith)
    ]
  ]
  | inr (inl (e, t)) ↦ inr (e, rw t refl)
  | inr (inr (e, t, l)) ↦ inr (e, rw (t, l) refl)
]

pub add_bookmark-IsValid :
    (title location : Bytes) (s : BookmarksSnapshot)
    → IsValid s
    → IsValid (add_bookmark title location s).1
add_bookmark-IsValid title location s v = elim (add_bookmark-cases title location s) [
  | inl (e, (t, n, l), room, free) ↦ rw e (record {
    bounded =
        omega (arith, length-append s.bookmarks (entry_of s.next_bookmark_id title location ∷ []));
    next_positive = omega arith;
    next_fits = free;
    entries =
        Entries-append s.next_bookmark_id 0 s.bookmarks (entry_of s.next_bookmark_id title location)
          v.entries v.next_positive refl t n l;
  })
  | inr (x, e) ↦ rw e v
]

pub update_bookmark-IsValid :
    (id : ℕ) (title location : Bytes) (s : BookmarksSnapshot)
    → IsValid s
    → IsValid (update_bookmark id title location s).1
unfolding update_bookmark set_contents
update_bookmark-IsValid id title location s v = elim (validate-cases title location) [
  | inl (t, l, fits) ↦ elim (Option-cases (find (has_id id) s.bookmarks)) [
    | inl missing ↦ rw (t, l, missing) v
    | inr (b, found) ↦
        rw (t, l, found)
          (record {
            bounded = omega (
              arith,
              v.bounded,
              length-update_first (has_id id) (λ a. record a { title = title; location = location })
                  s.bookmarks,
            );
            next_positive = v.next_positive;
            next_fits = v.next_fits;
            entries =
                Entries-update_first (has_id id) title location s.next_bookmark_id 0 s.bookmarks
                  fits.0 fits.1 fits.2 v.entries;
          })
  ]
  | inr (inl (e, t)) ↦ rw t v
  | inr (inr (e, t, l)) ↦ rw (t, l) v
]

-- The edits that the profile runtime makes.
pub data Edit : Type 0 where
  add : (title location : Bytes) → Edit
  update : (id : ℕ) (title location : Bytes) → Edit
  remove : (id : ℕ) → Edit
  remove_at_location : (location : Bytes) → Edit
  clear_all : Edit
  advance_generation : (expected saved : ℕ) → Edit

unfoldable pub edit : Edit → BookmarksSnapshot → BookmarksSnapshot
edit (add title location) s = (add_bookmark title location s).1
edit (update id title location) s = (update_bookmark id title location s).1
edit (remove id) s = (remove_bookmark id s).1
edit (remove_at_location location) s = (remove_bookmarks_at_exact_location location s).1
edit clear_all s = clear s
edit (advance_generation expected saved) s = (advance_generation_after_save expected saved s).1

unfoldable pub edits : List Edit → BookmarksSnapshot → BookmarksSnapshot
unfolding edit
edits [] s = s
edits (e ∷ es) s = edits es (edit e s)

remove_bookmark-IsValid :
    (id : ℕ) (s : BookmarksSnapshot) → IsValid s → IsValid (remove_bookmark id s).1
unfolding remove_bookmark
remove_bookmark-IsValid id s v = elim (Option-cases (position (has_id id) s.bookmarks)) [
  | inl missing ↦ rw (remove_bookmark, missing) v
  | inr (i, found) ↦
      rw (remove_bookmark, found)
        (record {
          bounded = omega (arith, v.bounded, length-remove_at i s.bookmarks);
          next_positive = v.next_positive;
          next_fits = v.next_fits;
          entries = Entries-remove_at s.next_bookmark_id 0 s.bookmarks i v.entries;
        })
]

advance-IsValid :
    (expected saved : ℕ) (s : BookmarksSnapshot)
    → IsValid s
    → IsValid (advance_generation_after_save expected saved s).1
unfolding advance_generation_after_save
advance-IsValid expected saved s v =
    elim (Bool-cases (not (s.generation == expected) || leb saved expected)) [
      | inl stale ↦ rw stale v
      | inr fresh ↦ rw fresh (record {
        bounded = v.bounded;
        next_positive = v.next_positive;
        next_fits = v.next_fits;
        entries = v.entries;
      })
    ]

edit-IsValid : (e : Edit) (s : BookmarksSnapshot) → IsValid s → IsValid (edit e s)
unfolding edit remove_bookmarks_at_exact_location clear
edit-IsValid (add title location) s v = add_bookmark-IsValid title location s v
edit-IsValid (update id title location) s v = update_bookmark-IsValid id title location s v
edit-IsValid (remove id) s v = remove_bookmark-IsValid id s v
edit-IsValid (remove_at_location location) s v =
    let keeps = λ (b : Bookmark). not (same_bytes b.location location) in
    record {
      bounded = omega (arith, v.bounded, length-retain keeps s.bookmarks);
      next_positive = v.next_positive;
      next_fits = v.next_fits;
      entries = Entries-retain keeps s.next_bookmark_id 0 s.bookmarks v.entries;
    }
edit-IsValid clear_all s v = record {
  bounded = omega arith;
  next_positive = v.next_positive;
  next_fits = v.next_fits;
  entries = tt;
}
edit-IsValid (advance_generation expected saved) s v = advance-IsValid expected saved s v

-- From a valid snapshot, after any sequence of edits, those that are refused among them,
-- `validate_snapshot` accepts what is left.
pub validate_snapshot-edits :
    (es : List Edit) (s : BookmarksSnapshot) → IsValid s → validate_snapshot (edits es s) ≡ ok tt
unfolding edits
validate_snapshot-edits [] s v = validate_snapshot_lem s v
validate_snapshot-edits (e ∷ es) s v = validate_snapshot-edits es (edit e s) (edit-IsValid e s v)

pub default-IsValid : IsValid default
default-IsValid = record {
  bounded = omega arith;
  next_positive = omega arith;
  next_fits = omega arith;
  entries = tt;
}
