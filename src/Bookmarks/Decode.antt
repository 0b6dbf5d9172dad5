-- ===== src/Bookmarks/Decode.antt =====
-- Reading the record of a generation of the bookmarks: `decode_bookmarks` of src/bookmarks.rs.
use zorya.Common.{
  ℕ, zero, suc, ◌-◌, Bool, true, false, not, List, [], ◌∷◌, Outcome, ok, err, panicked, ◌>>=◌, ◌>>◌,
  pure, raise_if, debug_assert, gets, ◌==◌, ltb, leb, ◌||◌, length, take, drop, if◌then◌else◌,
}
use zorya.Record.{
  Bytes, Reader, DecodeError, corrupt, unsupported_schema, from_le_bytes, same_bytes, checksum64,
  new, take_bytes, take_word, take_text, is_finished,
}
use zorya.Bookmarks.Encode.{magic, schema_version, checksum_bytes, min_record_bytes}
use zorya.Bookmarks.{
  Bookmark, BookmarksSnapshot, BookmarksError, max_bookmarks, max_title_bytes, max_location_bytes,
  max_record_bytes, validate_title, validate_location,
}

abbrev pub is_err : Outcome BookmarksError (Unit {0}) → Bool
is_err (ok a) = false
is_err (err e) = true
is_err panicked = true

-- A round of the loop of `decode_bookmarks`, after an entry with the identifier `previous`.
unfoldable pub decode_entry : ℕ → ℕ → Reader Bookmark
decode_entry next previous = do
  id ← take_word 8
  title_len ← take_word 4
  location_len ← take_word 4
  raise_if
      (id == 0
        || leb id previous
        || leb next id
        || ltb max_title_bytes title_len
        || location_len == 0
        || ltb max_location_bytes location_len)
      corrupt
  title ← take_text title_len
  location ← take_text location_len
  raise_if (is_err (validate_title title) || is_err (validate_location location)) corrupt
  pure (record { id = id; title = title; location = location })

-- The loop.
unfoldable pub decode_entries : ℕ → ℕ → ℕ → Reader (List Bookmark)
decode_entries zero next previous = pure []
decode_entries (suc count) next previous = do
  bookmark ← decode_entry next previous
  bookmarks ← decode_entries count next bookmark.id
  pure (bookmark ∷ bookmarks)

-- `decode_bookmarks` from the cursor on.
unfoldable pub decode_payload : ℕ → Reader BookmarksSnapshot
decode_payload expected_generation = do
  found ← take_bytes 8
  raise_if (not (same_bytes found magic)) corrupt
  decoded_schema ← take_word 4
  debug_assert (decoded_schema == schema_version)
  generation ← take_word 8
  raise_if (generation == 0 || not (generation == expected_generation)) corrupt
  next_bookmark_id ← take_word 8
  raise_if (next_bookmark_id == 0) corrupt
  count ← take_word 4
  raise_if (ltb max_bookmarks count) corrupt
  bookmarks ← decode_entries count next_bookmark_id 0
  finished ← gets is_finished
  raise_if (not finished) corrupt
  pure (record {
    generation = generation;
    next_bookmark_id = next_bookmark_id;
    bookmarks = bookmarks;
  })

unfoldable pub decode_bookmarks : Bytes → ℕ → Outcome DecodeError BookmarksSnapshot
decode_bookmarks bytes expected_generation =
    if ltb (length bytes) 12 || not (same_bytes (take 8 bytes) magic)
    then err corrupt
    else let schema = from_le_bytes (take 4 (drop 8 bytes)) in
      if not (schema == schema_version)
      then err (unsupported_schema schema)
      else if ltb (length bytes) min_record_bytes || ltb max_record_bytes (length bytes)
      then err corrupt
      else let payload_len = length bytes - checksum_bytes in
        let payload = take payload_len bytes in
        if not (checksum64 payload == from_le_bytes (drop payload_len bytes))
        then err corrupt
        else (decode_payload expected_generation (new payload)).0
