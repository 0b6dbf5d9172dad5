-- ===== src/Bookmarks.antt =====
-- The bookmarks of a profile: src/bookmarks.rs. Titles and locations are the bytes of their strings.
pub mod Edit
pub mod Edits
pub mod Lookup
pub mod Shape
pub mod Encode
pub mod Decode
pub mod RoundTrip
pub mod Sound
pub mod Stored
use zorya.Common.{ℕ, Bool, List, [], ◌∷◌, Outcome, ok, err, ◌==◌, ltb, leb, ◌||◌, length}
use zorya.Record.{Bytes}
use zorya.Record.Check.{◌>>◌, fail_if}

abbrev pub max_bookmarks : ℕ
max_bookmarks = 1024

abbrev pub max_title_bytes : ℕ
max_title_bytes = 1024

abbrev pub max_location_bytes : ℕ
max_location_bytes = 4096

abbrev pub max_record_bytes : ℕ
max_record_bytes = 6291456

pub record Bookmark : Type 0 where
  pub id : ℕ
  pub title : Bytes
  pub location : Bytes

pub record BookmarksSnapshot : Type 0 where
  pub generation : ℕ
  pub next_bookmark_id : ℕ
  pub bookmarks : List Bookmark

abbrev pub default : BookmarksSnapshot
default = record { generation = 0; next_bookmark_id = 1; bookmarks = [] }

-- The errors of the snapshot and of its record.
pub data BookmarksError : Type 0 where
  title_too_large : (bytes limit : ℕ) → BookmarksError
  empty_location : BookmarksError
  location_too_large : (bytes limit : ℕ) → BookmarksError
  bookmark_limit_exceeded : (found limit : ℕ) → BookmarksError
  record_too_large : (bytes limit : ℕ) → BookmarksError
  bookmark_id_exhausted : BookmarksError

unfoldable pub validate_title : Bytes → Outcome BookmarksError (Unit {0})
validate_title title =
    fail_if (ltb max_title_bytes (length title)) (title_too_large (length title) max_title_bytes)

unfoldable pub validate_location : Bytes → Outcome BookmarksError (Unit {0})
validate_location location =
    fail_if (length location == 0) empty_location
    >> fail_if (ltb max_location_bytes (length location))
        (location_too_large (length location) max_location_bytes)

-- The loop of `validate_snapshot`.
unfoldable pub validate_bookmarks : ℕ → ℕ → List Bookmark → Outcome BookmarksError (Unit {0})
validate_bookmarks next previous [] = ok tt
validate_bookmarks next previous (b ∷ bs) =
    validate_title b.title
    >> validate_location b.location
    >> fail_if (b.id == 0 || leb b.id previous || leb next b.id) bookmark_id_exhausted
    >> validate_bookmarks next b.id bs

unfoldable pub validate_snapshot : BookmarksSnapshot → Outcome BookmarksError (Unit {0})
validate_snapshot snapshot =
    fail_if (ltb max_bookmarks (length snapshot.bookmarks))
      (bookmark_limit_exceeded (length snapshot.bookmarks) max_bookmarks)
    >> fail_if (snapshot.next_bookmark_id == 0) bookmark_id_exhausted
    >> validate_bookmarks snapshot.next_bookmark_id 0 snapshot.bookmarks
