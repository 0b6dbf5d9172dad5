-- ===== src/Bookmarks/Edit.antt =====
-- The operations that change a snapshot of bookmarks: src/bookmarks.rs.
use zorya.Common.{
  ℕ, Bool, true, false, not, Option, none, some, [], ◌∷◌, ◌++◌, Call, ◌>>=◌, ◌>>◌, pure, gets,
  modify, check, or_raise, raise_if, ◌==◌, leb, ◌||◌, ◌-◌, length, find, position, remove_at,
  update_first, retain, get_elem?, checked_add, saturating_add, if◌then◌else◌,
}
use zorya.Record.{Bytes, same_bytes}
use zorya.Bookmarks.{
  Bookmark, BookmarksSnapshot, BookmarksError, bookmark_limit_exceeded, bookmark_id_exhausted,
  max_bookmarks, validate_title, validate_location,
}

abbrev pub has_id : ℕ → Bookmark → Bool
has_id id b = b.id == id

unfoldable pub bookmark : BookmarksSnapshot → ℕ → Option Bookmark
bookmark snapshot id = find (has_id id) snapshot.bookmarks

unfoldable pub add_bookmark : Bytes → Bytes → Call BookmarksSnapshot BookmarksError ℕ
add_bookmark title location = do
  check (validate_title title)
  check (validate_location location)
  count ← gets (λ s. length s.bookmarks)
  raise_if (leb max_bookmarks count)
      (bookmark_limit_exceeded (saturating_add count 1) max_bookmarks)
  id ← gets (λ s. s.next_bookmark_id)
  next ← or_raise (checked_add id 1) bookmark_id_exhausted
  modify (λ s. record s { next_bookmark_id = next })
  modify (λ s. record s {
    bookmarks = s.bookmarks ++ (record { id = id; title = title; location = location } ∷ []);
  })
  pure id

-- The writes to the bookmark that `update_bookmark` has found.
unfoldable pub set_contents :
    ℕ → Bytes → Bytes → Option Bookmark → Call BookmarksSnapshot BookmarksError Bool
set_contents id title location none = pure false
set_contents id title location (some found) = do
  modify (λ s. record s {
    bookmarks =
        update_first (has_id id) (λ b. record b { title = title; location = location }) s.bookmarks;
  })
  pure true

unfoldable pub update_bookmark : ℕ → Bytes → Bytes → Call BookmarksSnapshot BookmarksError Bool
unfolding set_contents
update_bookmark id title location = do
  check (validate_title title)
  check (validate_location location)
  found ← gets (λ s. find (has_id id) s.bookmarks)
  set_contents id title location found

-- `remove_bookmark`
unfoldable pub remove_bookmark : ℕ → BookmarksSnapshot → Option Bookmark × BookmarksSnapshot
remove_bookmark id snapshot = elim (position (has_id id) snapshot.bookmarks) [
  | none ↦ (none, snapshot)
  | some index ↦ (
    get_elem? snapshot.bookmarks index,
    record snapshot { bookmarks = remove_at index snapshot.bookmarks },
  )
]

unfoldable pub remove_bookmarks_at_exact_location :
    Bytes → BookmarksSnapshot → ℕ × BookmarksSnapshot
remove_bookmarks_at_exact_location location snapshot =
    let kept = retain (λ b. not (same_bytes b.location location)) snapshot.bookmarks in
    (length snapshot.bookmarks - length kept, record snapshot { bookmarks = kept })

unfoldable pub clear : BookmarksSnapshot → BookmarksSnapshot
clear snapshot = record snapshot { bookmarks = [] }

unfoldable pub advance_generation_after_save : ℕ → ℕ → BookmarksSnapshot → Bool × BookmarksSnapshot
advance_generation_after_save expected saved snapshot =
    if not (snapshot.generation == expected) || leb saved expected
    then (false, snapshot)
    else (true, record snapshot { generation = saved })
