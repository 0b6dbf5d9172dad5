-- ===== src/Bookmarks/RoundTrip.antt =====
-- Writing a record of bookmarks and reading it back: src/bookmarks.rs.
use zorya.Common.{
  ℕ, ◌+◌, ◌-◌, ◌*◌, ◌<◌, ◌≤◌, ◌^◌, ◌≡◌, refl, false, not, List, [], ◌∷◌, ◌++◌, ◌||◌, ◌==◌, ==_refl,
  leb, ltb, length, length-append, take, drop, ok, arith, All, saturating_add,
}
use zorya.Record.{Bytes, to_le_bytes, from_le_bytes, checksum64, new}
use zorya.Record.Words.{
  bound, bound_8, bound_4, checksum64-lt, same_bytes_refl, length-to_le_bytes,
  from_le_bytes-to_le_bytes,
}
use zorya.Record.Cursor.{
  at, new-at, take_bytes_lem, take_word_lem, take_text_lem, is_finished_lem, take-append,
  drop-append_length,
}
use zorya.Bookmarks.{Bookmark, BookmarksSnapshot}
use zorya.Bookmarks.Shape.{
  Entries, IsValid, IsText, validate_title_lem, validate_location_lem, validate_snapshot_lem,
}
use zorya.Bookmarks.Encode.{magic, encode_entries, encode_payload, encode_bookmarks}
use zorya.Bookmarks.Decode.{decode_entry, decode_entries, decode_payload, decode_bookmarks}

-- The entries of a record read back, and nothing is left.
decode_entries-encode_entries :
    (bs : List Bookmark) (next previous : ℕ) (front : Bytes)
    → next < 2 ^ 64
    → Entries next previous bs
    → All IsText bs
    → (front' : Bytes) × (decode_entries (length bs) next previous (at front (encode_entries bs))
        ≡ (ok bs, at front' []))
unfolding decode_entries decode_entry encode_entries
decode_entries-encode_entries [] next previous front fits h text = (front, refl)
decode_entries-encode_entries (b ∷ bs) next previous front fits
      (title, nonempty, location, above, below, rest) (text, texts) =
    let id_fits : b.id < bound 8 = rw bound_8 (omega arith) in
    let title_fits : length b.title < bound 4 = rw bound_4 (omega arith) in
    let location_fits : length b.location < bound 4 = rw bound_4 (omega arith) in
    let after_id = front ++ to_le_bytes 8 b.id in
    let after_title = after_id ++ to_le_bytes 4 (length b.title) in
    let after_location = after_title ++ to_le_bytes 4 (length b.location) in
    let (front', tail_) =
      decode_entries-encode_entries bs next b.id (after_location ++ b.title ++ b.location) fits rest
        texts in
    let guard : (b.id == 0
          || leb b.id previous
          || leb next b.id
          || ltb 1024 (length b.title)
          || length b.location == 0
          || ltb 4096 (length b.location))
        ≡ false =
      ground arith in
    (
      front',
      simp (
        take_word_lem 8 front b.id _ id_fits,
        take_word_lem 4 after_id (length b.title) _ title_fits,
        take_word_lem 4 after_title (length b.location) _ location_fits,
        guard,
        take_text_lem (length b.title) after_location b.title _ refl text.0,
        take_text_lem (length b.location) (after_location ++ b.title) b.location _ refl text.1,
        validate_title_lem b title,
        validate_location_lem b nonempty location,
        tail_,
      ),
    )

length-encode_entries :
    (bs : List Bookmark) (next previous : ℕ)
    → Entries next previous bs
    → length (encode_entries bs) ≤ 5136 * length bs
unfolding encode_entries
length-encode_entries [] next previous h = omega arith
length-encode_entries (b ∷ bs) next previous (title, nonempty, location, above, below, rest) =
    let w8 = length-to_le_bytes 8 b.id in
    let t4 = length-to_le_bytes 4 (length b.title) in
    let l4 = length-to_le_bytes 4 (length b.location) in
    let tail_ = length-encode_entries bs next b.id rest in simp length-append (omega arith)

decode_payload-encode_payload :
    (s : BookmarksSnapshot) (generation : ℕ)
    → IsValid s
    → All IsText s.bookmarks
    → 0 < generation
    → generation < 2 ^ 64
    → (decode_payload generation (new (encode_payload s generation))).0
      ≡ ok (record s { generation = generation })
unfolding decode_payload encode_payload
decode_payload-encode_payload s generation v texts positive fits =
    let size = v.bounded in
    let next_positive = v.next_positive in
    let next_fits : s.next_bookmark_id < bound 8 = rw bound_8 v.next_fits in
    let generation_fits : generation < bound 8 = rw bound_8 fits in
    let schema_fits : 1 < bound 4 = rw bound_4 (omega arith) in
    let count_fits : length s.bookmarks < bound 4 = rw bound_4 (omega arith) in
    let after_schema = magic ++ to_le_bytes 4 1 in
    let after_generation = after_schema ++ to_le_bytes 8 generation in
    let after_next = after_generation ++ to_le_bytes 8 s.next_bookmark_id in
    let (front, entries) =
      decode_entries-encode_entries s.bookmarks s.next_bookmark_id 0
        (after_next ++ to_le_bytes 4 (length s.bookmarks)) v.next_fits v.entries texts in
    let right : (generation == 0 || not (generation == generation)) ≡ false =
      ground (arith, ==_refl generation) in
    let some_next : (s.next_bookmark_id == 0) ≡ false = ground arith in
    let few : ltb 1024 (length s.bookmarks) ≡ false = ground arith in
    simp (
      new-at,
      take_bytes_lem 8 [] magic _ refl,
      same_bytes_refl magic,
      take_word_lem 4 magic 1 _ schema_fits,
      take_word_lem 8 after_schema generation _ generation_fits,
      right,
      take_word_lem 8 after_generation s.next_bookmark_id _ next_fits,
      some_next,
      take_word_lem 4 after_next (length s.bookmarks) _ count_fits,
      few,
      entries,
      is_finished_lem front,
    )

length-encode_payload :
    (s : BookmarksSnapshot) (generation : ℕ)
    → IsValid s
    → (32 ≤ length (encode_payload s generation))
      × (length (encode_payload s generation) ≤ 32 + 5136 * 1024)
unfolding encode_payload
length-encode_payload s generation v =
    let size = v.bounded in
    let entries = length-encode_entries s.bookmarks s.next_bookmark_id 0 v.entries in
    simp length-append (simp length-to_le_bytes (omega arith, omega arith))

-- The magic and the schema stand first.
header :
    (s : BookmarksSnapshot) (generation : ℕ) (rest : Bytes)
    → (take 8 (encode_payload s generation ++ rest) ≡ magic)
      × (from_le_bytes (take 4 (drop 8 (encode_payload s generation ++ rest))) ≡ 1)
unfolding encode_payload to_le_bytes from_le_bytes
header s generation rest = (refl, refl)

-- A valid snapshot, its texts being UTF-8, is encoded at every generation from 1 to 2^64 - 1, and what
-- `decode_bookmarks` reads from the record for that generation is the snapshot with it.
pub decode_bookmarks-encode_bookmarks :
    (s : BookmarksSnapshot) (generation : ℕ)
    → IsValid s
    → All IsText s.bookmarks
    → 0 < generation
    → generation < 2 ^ 64
    → (bytes : Bytes) × (encode_bookmarks s generation ≡ ok bytes)
      × (decode_bookmarks bytes generation ≡ ok (record s { generation = generation }))
unfolding encode_bookmarks decode_bookmarks
decode_bookmarks-encode_bookmarks s generation v texts positive fits =
    let payload = encode_payload s generation in
    let checksum = to_le_bytes 8 (checksum64 payload) in
    let (low, high) = length-encode_payload s generation v in
    let small : ltb 6291456 (saturating_add (length payload) 8) ≡ false = ground arith in
    let size : length (payload ++ checksum) ≡ length payload + 8 =
      omega (arith, length-append payload checksum, length-to_le_bytes 8 (checksum64 payload)) in
    let long : ltb (length payload + 8) 12 ≡ false = ground arith in
    let in_range : (ltb (length payload + 8) 40 || ltb 6291456 (length payload + 8)) ≡ false =
      ground arith in
    let cut : length payload + 8 - 8 ≡ length payload = omega arith in
    let (starts, schema) = header s generation checksum in
    (
      payload ++ checksum,
      simp (validate_snapshot_lem s v, small),
      simp (
        size,
        long,
        starts,
        same_bytes_refl magic,
        schema,
        in_range,
        cut,
        take-append payload checksum,
        drop-append_length payload checksum,
        from_le_bytes-to_le_bytes 8 (checksum64 payload) (checksum64-lt payload),
        ==_refl (checksum64 payload),
        decode_payload-encode_payload s generation v texts positive fits,
      ),
    )
