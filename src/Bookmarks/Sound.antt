-- ===== src/Bookmarks/Sound.antt =====
-- What a record of bookmarks says when it is read: src/bookmarks.rs.
use mathlib.Core.List.{append-nil, append_assoc}
use zorya.Common.{
  ℕ, zero, suc, ◌+◌, ◌-◌, ◌<◌, ◌≤◌, ◌^◌, ◌≡◌, refl, ap, sym, subst, ◌∙◌, true, false, not, List, [],
  ◌∷◌, ◌++◌, ◌||◌, ◌==◌, leb, ltb, length, length-take, length-drop, take, drop, ok, arith, All,
  saturating_add,
}
use zorya.Common.Calls.{given, bind-ok, raise_if-ok, debug_assert-ok}
use zorya.Record.{
  Bytes, extend, to_le_bytes, from_le_bytes, same_bytes, checksum64, new, is_finished, RecordCursor,
}
use zorya.Record.Check.{guard-ok}
use zorya.Record.Words.{AreBytes, bound_8, same_bytes-eq, to_le_bytes-from_le_bytes}
use zorya.Record.Cursor.{at, new-at, is_finished-eq}
use zorya.Record.Reads.{AreBytes-append, take-drop, read_bytes, read_word, read_text}
use zorya.Bookmarks.{Bookmark, BookmarksSnapshot, validate_title, validate_location}
use zorya.Bookmarks.Shape.{Entries, IsValid, IsText, validate_snapshot_lem}
use zorya.Bookmarks.Encode.{magic, encode_entries, encode_payload, encode_bookmarks}
use zorya.Bookmarks.Decode.{decode_entry, decode_entries, decode_payload, decode_bookmarks, is_err}

-- The bytes of one entry, before others.
abbrev encode_entry : Bookmark → Bytes → Bytes
encode_entry b rest =
    extend
      (to_le_bytes 8 b.id
        ∷ to_le_bytes 4 (length b.title)
        ∷ to_le_bytes 4 (length b.location)
        ∷ b.title
        ∷ b.location
        ∷ [])
      rest

-- What a round has read: an entry, and nothing but its bytes.
record Entry (next previous : ℕ) (rest : Bytes) (b : Bookmark) (c : RecordCursor) : Type 0 where
  entry : Entries next previous (b ∷ [])
  text : IsText b
  left : Bytes
  was : rest ≡ encode_entry b left
  left_bytes : AreBytes left
  front' : Bytes
  now : c ≡ at front' left

decode_entry-ok :
    (next previous : ℕ) (front rest : Bytes) (b : Bookmark) (c : RecordCursor)
    → AreBytes rest
    → decode_entry next previous (at front rest) ≡ (ok b, c)
    → Entry next previous rest b c
unfolding decode_entry
decode_entry-ok next previous front rest b c all h =
    given (read_word 8 _ front rest all h) λ (id, id_fits, r1).
      given (read_word 4 _ _ r1.left r1.left_bytes r1.goes_on) λ (title_len, title_fits, r2).
        given (read_word 4 _ _ r2.left r2.left_bytes r2.goes_on)
          λ (location_len, location_fits, r3).
            given
              (raise_if-ok
                (id == 0
                  || leb id previous
                  || leb next id
                  || ltb 1024 title_len
                  || location_len == 0
                  || ltb 4096 location_len)
                _ _ _ r3.goes_on)
              λ (guard, h4).
                given (read_text title_len _ _ r3.left r3.left_bytes h4)
                  λ (title, title_size, title_text, r5).
                    given (read_text location_len _ _ r5.left r5.left_bytes r5.goes_on)
                      λ (location, location_size, location_text, r6).
                        given
                          (raise_if-ok
                            (is_err (validate_title title) || is_err (validate_location location)) _
                            _ _ r6.goes_on)
                          λ (valid, h7).
                            let entry : Bookmark = record {
                              id = id;
                              title = title;
                              location = location;
                            } in
                            let read : entry ≡ b = cc in
                            let above : previous < id = ground arith in
                            let below : id < next = ground arith in
                            let short : length title ≤ 1024 = ground arith in
                            let nonempty : 0 < length location = ground arith in
                            let bounded : length location ≤ 4096 = ground arith in
                            subst (λ a. Entry next previous rest a c) read
                              (record {
                                entry = (short, nonempty, bounded, above, below, tt);
                                text = (title_text, location_text);
                                left = r6.left;
                                was =
                                    rw (title_size, location_size)
                                      (r1.was
                                        ∙ ap (λ w. to_le_bytes 8 id ++ w)
                                            (r2.was
                                              ∙ ap (λ w. to_le_bytes 4 title_len ++ w)
                                                  (r3.was
                                                    ∙ ap (λ w. to_le_bytes 4 location_len ++ w)
                                                        (r5.was ∙ ap (λ w. title ++ w) r6.was))));
                                left_bytes = r6.left_bytes;
                                front' =
                                    front
                                    ++ to_le_bytes 8 id
                                    ++ to_le_bytes 4 title_len
                                    ++ to_le_bytes 4 location_len
                                    ++ title
                                    ++ location;
                                now = cc;
                              })

-- What the loop has read: entries in order, of texts, and nothing but their bytes.
record Entered (count next previous : ℕ) (rest : Bytes) (bs : List Bookmark) (c : RecordCursor)
    : Type 0 where
  size : length bs ≡ count
  entries : Entries next previous bs
  texts : All IsText bs
  left : Bytes
  was : rest ≡ encode_entries bs ++ left
  left_bytes : AreBytes left
  front' : Bytes
  now : c ≡ at front' left

decode_entries-ok :
    (count next previous : ℕ) (front rest : Bytes) (bs : List Bookmark) (c : RecordCursor)
    → AreBytes rest
    → decode_entries count next previous (at front rest) ≡ (ok bs, c)
    → Entered count next previous rest bs c
unfolding decode_entries encode_entries
decode_entries-ok zero next previous front rest bs c all h =
    let empty : [] ≡ bs = cc in
    subst (λ xs. Entered 0 next previous rest xs c) empty
      (record {
        size = refl;
        entries = tt;
        texts = tt;
        left = rest;
        was = refl;
        left_bytes = all;
        front' = front;
        now = cc;
      })
decode_entries-ok (suc count) next previous front rest bs c all h =
    given (bind-ok (decode_entry next previous) _ _ h) λ (b, t, one, others).
      given (decode_entry-ok next previous front rest b t all one) λ e.
        let (short, nonempty, bounded, above, below, _) = e.entry in
        given (bind-ok (decode_entries count next b.id) _ _ others) λ (more, u, entered, returned).
          given
            (decode_entries-ok count next b.id e.front' e.left more u e.left_bytes
              (subst (λ s. decode_entries count next b.id s ≡ (ok more, u)) e.now entered))
            λ rest_.
              let read : b ∷ more ≡ bs = cc in
              subst (λ xs. Entered (suc count) next previous rest xs c) read
                (record {
                  size = omega (arith, rest_.size);
                  entries = (short, nonempty, bounded, above, below, rest_.entries);
                  texts = (e.text, rest_.texts);
                  left = rest_.left;
                  was = e.was ∙ simp (append_assoc, rest_.was);
                  left_bytes = rest_.left_bytes;
                  front' = rest_.front';
                  now = cc;
                })

-- What a payload that is read holds.
record Payload (expected : ℕ) (payload : Bytes) (s : BookmarksSnapshot) : Type 0 where
  valid : IsValid s
  texts : All IsText s.bookmarks
  positive : 0 < s.generation
  asked : s.generation ≡ expected
  fits : s.generation < 2 ^ 64
  was : payload ≡ encode_payload s s.generation

decode_payload-ok :
    (expected : ℕ) (payload : Bytes) (s : BookmarksSnapshot) (c : RecordCursor)
    → AreBytes payload
    → decode_payload expected (at [] payload) ≡ (ok s, c)
    → Payload expected payload s
unfolding decode_payload encode_payload
decode_payload-ok expected payload s c all h =
    given (read_bytes 8 _ [] payload all h) λ (found, r1).
      given (raise_if-ok (not (same_bytes found magic)) _ _ _ r1.goes_on) λ (starts, h2).
        given (read_word 4 _ _ r1.left r1.left_bytes h2) λ (schema, schema_fits, r3).
          given (debug_assert-ok (schema == 1) _ _ r3.goes_on) λ (version, h4).
            given (read_word 8 _ _ r3.left r3.left_bytes h4) λ (generation, generation_fits, r5).
              given (raise_if-ok (generation == 0 || not (generation == expected)) _ _ _ r5.goes_on)
                λ (asked, h6).
                  given (read_word 8 _ _ r5.left r5.left_bytes h6) λ (next, next_fits, r7).
                    given (raise_if-ok (next == 0) _ _ _ r7.goes_on) λ (some_next, h8).
                      given (read_word 4 _ _ r7.left r7.left_bytes h8) λ (count, count_fits, r9).
                        given (raise_if-ok (ltb 1024 count) _ _ _ r9.goes_on) λ (few, h10).
                          given (bind-ok (decode_entries count next 0) _ _ h10)
                            λ (bs, t, entered, h11).
                              given
                                (decode_entries-ok count next 0 _ r9.left bs t r9.left_bytes
                                  entered)
                                λ e.
                                  given (raise_if-ok (not (is_finished t)) _ _ t h11)
                                    λ (finished, returned).
                                      let all_read : is_finished (at e.front' e.left) ≡ true =
                                        subst (λ u. is_finished u ≡ true) e.now (ground arith) in
                                      let nothing = is_finished-eq e.front' e.left all_read in
                                      let snapshot : BookmarksSnapshot = record {
                                        generation = generation;
                                        next_bookmark_id = next;
                                        bookmarks = bs;
                                      } in
                                      let read : snapshot ≡ s = cc in
                                      let same_magic : found ≡ magic =
                                        same_bytes-eq found magic (ground arith) in
                                      let one : schema ≡ 1 = ground arith in
                                      let positive : 0 < generation = ground arith in
                                      let wanted : generation ≡ expected = ground arith in
                                      let next_positive : 0 < next = ground arith in
                                      let bounded : length bs ≤ 1024 = ground (arith, e.size) in
                                      let bytes : payload
                                          ≡ extend
                                              (found
                                                ∷ to_le_bytes 4 schema
                                                ∷ to_le_bytes 8 generation
                                                ∷ to_le_bytes 8 next
                                                ∷ to_le_bytes 4 count
                                                ∷ [])
                                              (encode_entries bs) =
                                        simp (
                                          r1.was,
                                          r3.was,
                                          r5.was,
                                          r7.was,
                                          r9.was,
                                          e.was,
                                          nothing,
                                          append-nil (encode_entries bs),
                                        ) in
                                      subst (λ a. Payload expected payload a) read
                                        (record {
                                          valid = record {
                                            bounded = bounded;
                                            next_positive = next_positive;
                                            next_fits = subst (λ k. next < k) bound_8 next_fits;
                                            entries = e.entries;
                                          };
                                          texts = e.texts;
                                          positive = positive;
                                          asked = wanted;
                                          fits =
                                              subst (λ k. generation < k) bound_8 generation_fits;
                                          was = bytes ∙ rw (same_magic, one, sym e.size) refl;
                                        })

encode_bookmarks_lem :
    (s : BookmarksSnapshot) (generation : ℕ) (payload : Bytes)
    → IsValid s
    → payload ≡ encode_payload s generation
    → length payload + 8 ≤ 6291456
    → encode_bookmarks s generation ≡ ok (payload ++ to_le_bytes 8 (checksum64 payload))
unfolding encode_bookmarks
encode_bookmarks_lem s generation payload v e small =
    let fits : ltb 6291456 (saturating_add (length payload) 8) ≡ false = ground arith in
    simp (sym e, validate_snapshot_lem s v, fits)

-- If `decode_bookmarks` returns a snapshot for a string of bytes, the snapshot is valid, its texts are
-- UTF-8, its generation is the one asked for and not 0, and `encode_bookmarks` writes for it the very
-- bytes that were read.
pub decode_bookmarks-ok :
    (bytes : Bytes) (expected : ℕ) (s : BookmarksSnapshot)
    → AreBytes bytes
    → decode_bookmarks bytes expected ≡ ok s
    → IsValid s
      × All IsText s.bookmarks
      × (0 < s.generation)
      × (s.generation ≡ expected)
      × (encode_bookmarks s s.generation ≡ ok bytes)
unfolding decode_bookmarks encode_bookmarks
decode_bookmarks-ok bytes expected s all h =
    given (guard-ok (ltb (length bytes) 12 || not (same_bytes (take 8 bytes) magic)) _ _ h)
      λ (header, h2).
        given (guard-ok (not (from_le_bytes (take 4 (drop 8 bytes)) == 1)) _ _ h2) λ (schema, h3).
          given (guard-ok (ltb (length bytes) 40 || ltb 6291456 (length bytes)) _ _ h3)
            λ (size, h4).
              let cut = length bytes - 8 in
              given
                (guard-ok (not (checksum64 (take cut bytes) == from_le_bytes (drop cut bytes))) _ _
                  h4)
                λ (checksum, h5).
                  let (payload_bytes, checksum_bytes) =
                    AreBytes-append (take cut bytes) (drop cut bytes)
                      (subst AreBytes (take-drop cut bytes) all) in
                  given
                    (decode_payload-ok expected (take cut bytes) s
                      (decode_payload expected (new (take cut bytes))).1 payload_bytes
                      (rw (sym (new-at (take cut bytes)))
                        (ap (λ o. (o, (decode_payload expected (new (take cut bytes))).1)) h5)))
                    λ p.
                      let checksum_size : length (drop cut bytes) ≡ 8 =
                        ground (arith, length-drop cut bytes) in
                      let same_checksum : from_le_bytes (drop cut bytes)
                          ≡ checksum64 (take cut bytes) =
                        ground arith in
                      let stored : to_le_bytes 8 (checksum64 (take cut bytes)) ≡ drop cut bytes =
                        subst (λ n. to_le_bytes n (checksum64 (take cut bytes)) ≡ drop cut bytes)
                          checksum_size
                          (subst (λ v. to_le_bytes (length (drop cut bytes)) v ≡ drop cut bytes)
                            same_checksum
                            (to_le_bytes-from_le_bytes (drop cut bytes) checksum_bytes)) in
                      let few : length (take cut bytes) + 8 ≤ 6291456 =
                        ground (arith, length-take cut bytes) in
                      (
                        p.valid,
                        p.texts,
                        p.positive,
                        p.asked,
                        encode_bookmarks_lem s s.generation (take cut bytes) p.valid p.was few
                            ∙ ap ok (rw stored (sym (take-drop cut bytes))),
                      )
