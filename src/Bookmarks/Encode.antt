-- ===== src/Bookmarks/Encode.antt =====
-- The record of a generation of the bookmarks: `encode_bookmarks` of
-- src/bookmarks.rs.
use zorya.Common.{ℕ, List, [], ◌∷◌, ◌++◌, Outcome, ok, ltb, length, saturating_add}
use zorya.Record.{Bytes, extend, to_le_bytes, checksum64}
use zorya.Record.Check.{◌>>=◌, fail_if}
use zorya.Bookmarks.{
  Bookmark, BookmarksSnapshot, BookmarksError, record_too_large, max_record_bytes,
  validate_snapshot,
}

-- `BOOKMARKS_MAGIC`
abbrev pub magic : Bytes
magic = 90 ∷ 82 ∷ 89 ∷ 66 ∷ 77 ∷ 75 ∷ 48 ∷ 49 ∷ []

abbrev pub schema_version : ℕ
schema_version = 1

abbrev pub checksum_bytes : ℕ
checksum_bytes = 8

abbrev pub min_record_bytes : ℕ
min_record_bytes = 40

-- The bytes of one bookmark, and of those after it.
unfoldable pub encode_entries : List Bookmark → Bytes
encode_entries [] = []
encode_entries (b ∷ bs) =
    extend
      (to_le_bytes 8 b.id
        ∷ to_le_bytes 4 (length b.title)
        ∷ to_le_bytes 4 (length b.location)
        ∷ b.title
        ∷ b.location
        ∷ [])
      (encode_entries bs)

-- What `encode_bookmarks` has written before the checksum.
unfoldable pub encode_payload : BookmarksSnapshot → ℕ → Bytes
encode_payload snapshot generation =
    extend
      (magic
        ∷ to_le_bytes 4 schema_version
        ∷ to_le_bytes 8 generation
        ∷ to_le_bytes 8 snapshot.next_bookmark_id
        ∷ to_le_bytes 4 (length snapshot.bookmarks)
        ∷ [])
      (encode_entries snapshot.bookmarks)

unfoldable pub encode_bookmarks : BookmarksSnapshot → ℕ → Outcome BookmarksError Bytes
encode_bookmarks snapshot generation = validate_snapshot snapshot >>= λ _.
    let bytes = encode_payload snapshot generation in
    let final_size = saturating_add (length bytes) checksum_bytes in
    fail_if (ltb max_record_bytes final_size) (record_too_large final_size max_record_bytes)
    >>= λ _. ok (bytes ++ to_le_bytes 8 (checksum64 bytes))
