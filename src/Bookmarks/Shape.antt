-- ===== src/Bookmarks/Shape.antt =====
-- Well-formed snapshots of bookmarks: src/bookmarks.rs.
use zorya.Common.{
  ℕ, ◌<◌, ◌≤◌, ◌^◌, ◌≡◌, refl, true, false, List, [], ◌∷◌, ◌||◌, ◌==◌, leb, ltb, length, ok, arith,
}
use zorya.Record.{is_utf8}
use zorya.Record.Check.{fail_if, then-ok, fail_if-ok}
use zorya.Bookmarks.{
  Bookmark, BookmarksSnapshot, validate_title, validate_location, validate_bookmarks,
  validate_snapshot,
}

-- Each identifier is above the one before and below the next free one, and each text within its limit.
abbrev pub Entries : ℕ → ℕ → List Bookmark → Type 0
Entries next previous [] = Unit
Entries next previous (b ∷ bs) =
    (length b.title ≤ 1024)
    × (0 < length b.location)
    × (length b.location ≤ 4096)
    × (previous < b.id)
    × (b.id < next)
    × Entries next b.id bs

pub record IsValid (snapshot : BookmarksSnapshot) : Type 0 where
  pub bounded : length snapshot.bookmarks ≤ 1024
  pub next_positive : 0 < snapshot.next_bookmark_id
  pub next_fits : snapshot.next_bookmark_id < 2 ^ 64
  pub entries : Entries snapshot.next_bookmark_id 0 snapshot.bookmarks

-- Titles and locations are strings.
abbrev pub IsText : Bookmark → Type 0
IsText b = (is_utf8 b.title ≡ true) × (is_utf8 b.location ≡ true)

pub validate_title_lem : (b : Bookmark) → length b.title ≤ 1024 → validate_title b.title ≡ ok tt
unfolding validate_title
validate_title_lem b h = ground arith

pub validate_location_lem :
    (b : Bookmark)
    → 0 < length b.location
    → length b.location ≤ 4096
    → validate_location b.location ≡ ok tt
unfolding validate_location
validate_location_lem b h k = ground arith

pub validate_title-ok : (b : Bookmark) → validate_title b.title ≡ ok tt → length b.title ≤ 1024
unfolding validate_title
validate_title-ok b h = ground arith

pub validate_location-ok :
    (b : Bookmark)
    → validate_location b.location ≡ ok tt
    → (0 < length b.location) × (length b.location ≤ 4096)
unfolding validate_location
validate_location-ok b h = ground arith

pub validate_bookmarks_lem :
    (bs : List Bookmark) (next previous : ℕ)
    → Entries next previous bs
    → validate_bookmarks next previous bs ≡ ok tt
unfolding validate_bookmarks
validate_bookmarks_lem [] next previous h = refl
validate_bookmarks_lem (b ∷ bs) next previous (title, nonempty, location, above, below, rest) =
    let guard : (b.id == 0 || leb b.id previous || leb next b.id) ≡ false = ground arith in
    simp (
      validate_title_lem b title,
      validate_location_lem b nonempty location,
      guard,
      validate_bookmarks_lem bs next b.id rest,
    )

pub validate_bookmarks-ok :
    (bs : List Bookmark) (next previous : ℕ)
    → validate_bookmarks next previous bs ≡ ok tt
    → Entries next previous bs
unfolding validate_bookmarks
validate_bookmarks-ok [] next previous h = tt
validate_bookmarks-ok (b ∷ bs) next previous h =
    let (title, checked) = then-ok (validate_title b.title) _ tt h in
    let (location, ids) = then-ok (validate_location b.location) _ tt checked in
    let (guard, rest) =
      then-ok (fail_if (b.id == 0 || leb b.id previous || leb next b.id) _) _ tt ids in
    let bounds = validate_location-ok b location in
    let rising = fail_if-ok (b.id == 0 || leb b.id previous || leb next b.id) _ guard in
    let above : previous < b.id = ground arith in
    let below : b.id < next = ground arith in
    (
      validate_title-ok b title,
      bounds.0,
      bounds.1,
      above,
      below,
      validate_bookmarks-ok bs next b.id rest,
    )

pub validate_snapshot_lem : (s : BookmarksSnapshot) → IsValid s → validate_snapshot s ≡ ok tt
unfolding validate_snapshot
validate_snapshot_lem s v =
    let size = v.bounded in
    let positive = v.next_positive in
    let few : ltb 1024 (length s.bookmarks) ≡ false = ground arith in
    let some_next : (s.next_bookmark_id == 0) ≡ false = ground arith in
    simp (few, some_next, validate_bookmarks_lem s.bookmarks s.next_bookmark_id 0 v.entries)

pub validate_snapshot-ok :
    (s : BookmarksSnapshot) → s.next_bookmark_id < 2 ^ 64 → validate_snapshot s ≡ ok tt → IsValid s
unfolding validate_snapshot
validate_snapshot-ok s fits h =
    let (few, checked) = then-ok (fail_if (ltb 1024 (length s.bookmarks)) _) _ tt h in
    let (positive, entries) = then-ok (fail_if (s.next_bookmark_id == 0) _) _ tt checked in
    let size = fail_if-ok (ltb 1024 (length s.bookmarks)) _ few in
    let nonzero = fail_if-ok (s.next_bookmark_id == 0) _ positive in
    record {
      bounded = ground arith;
      next_positive = ground arith;
      next_fits = fits;
      entries = validate_bookmarks-ok s.bookmarks s.next_bookmark_id 0 entries;
    }
