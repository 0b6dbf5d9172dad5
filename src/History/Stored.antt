-- ===== src/History/Stored.antt =====
-- The history as the record of a store: src/browsing_history.rs.
use zorya.Common.{
  not, ◌-◌, take, drop, ap, sym, ◌∙◌, ℕ, ◌≤◌, ◌<◌, ◌^◌, ◌≡◌, refl, subst, List, [], ◌∷◌, ◌==◌, ◌||◌,
  leb, ◌++◌, length, length-append, ltb, saturating_add, All, ok, arith,
}
use zorya.Common.Calls.{given, bind-ok, raise_if-ok, debug_assert-ok}
use zorya.Record.{
  RecordCursor, new, take_bytes, take_word, is_finished, same_bytes, from_le_bytes, Bytes,
  to_le_bytes, checksum64,
}
use zorya.Record.Check.{guard-ok, try-ok, then-ok, fail_if, fail_if-ok}
use zorya.Record.Words.{length-to_le_bytes}
use zorya.History.{
  BrowsingHistoryVisit, BrowsingHistorySnapshot, BrowsingHistoryError, default, validate_location,
}
use zorya.History.Encode.{
  magic, validate_visits, validate_snapshot, encode_payload, encode_history, max_record_bytes,
}
use zorya.History.Decode.{decode_payload, decode_visits, decode_history}
use zorya.History.RoundTrip.{Visits, IsRecord, IsVisit, decode_history-encode_history}
use zorya.Store.Codec.{Codec, CodecLaws}

validate_location-ok :
    (v : BrowsingHistoryVisit)
    → validate_location v.location ≡ ok tt
    → (0 < length v.location) × (length v.location ≤ 4096)
unfolding validate_location
validate_location-ok v h = ground arith

validate_visits-ok :
    (vs : List BrowsingHistoryVisit) (next previous : ℕ)
    → validate_visits next previous vs ≡ ok tt
    → Visits next previous vs
unfolding validate_visits
validate_visits-ok [] next previous h = tt
validate_visits-ok (v ∷ vs) next previous h =
    let (location, ids) = then-ok (validate_location v.location) _ tt h in
    let (guard, rest) =
      then-ok (fail_if (v.id == 0 || leb v.id previous || leb next v.id) _) _ tt ids in
    let bounds = validate_location-ok v location in
    let rising = fail_if-ok (v.id == 0 || leb v.id previous || leb next v.id) _ guard in
    let above : previous < v.id = ground arith in
    let below : v.id < next = ground arith in
    (bounds.0, bounds.1, above, below, validate_visits-ok vs next v.id rest)

validate_snapshot-ok :
    (s : BrowsingHistorySnapshot)
    → s.next_visit_id < 2 ^ 64
    → validate_snapshot s ≡ ok tt
    → IsRecord s
unfolding validate_snapshot
validate_snapshot-ok s fits h =
    let (few, checked) = then-ok (fail_if (ltb 2048 (length s.visits)) _) _ tt h in
    let (positive, entries) = then-ok (fail_if (s.next_visit_id == 0) _) _ tt checked in
    let size = fail_if-ok (ltb 2048 (length s.visits)) _ few in
    let nonzero = fail_if-ok (s.next_visit_id == 0) _ positive in
    record {
      bounded = ground arith;
      next_positive = ground arith;
      next_fits = fits;
      visits_ = validate_visits-ok s.visits s.next_visit_id 0 entries;
    }

abbrev pub history_codec : Codec BrowsingHistorySnapshot BrowsingHistoryError
history_codec = record {
  default = default;
  limit = max_record_bytes;
  generation = λ s. s.generation;
  with_generation = λ s g. record s { generation = g };
  validate = validate_snapshot;
  encode = encode_history;
  decode = decode_history;
}

-- The locations are strings, and the times and the counter is a `u64`.
abbrev pub CanSave : BrowsingHistorySnapshot → Type 0
CanSave s = All IsVisit s.visits × (s.next_visit_id < 2 ^ 64)

-- What `encode_history` returns: the record of a valid snapshot, within the limit.
encode_history-ok :
    (s : BrowsingHistorySnapshot) (g : ℕ) (bytes : Bytes)
    → encode_history s g ≡ ok bytes
    → (validate_snapshot s ≡ ok tt) × (length bytes ≤ max_record_bytes)
unfolding encode_history
encode_history-ok s g bytes h = given (try-ok (validate_snapshot s) _ h) λ (_, valid, h2).
    given (try-ok (fail_if (ltb 9437184 (saturating_add (length (encode_payload s g)) 8)) _) _ h2)
      λ (_, small, h3).
        let fits =
          fail_if-ok (ltb 9437184 (saturating_add (length (encode_payload s g)) 8)) _ small in
        let size =
          length-append (encode_payload s g) (to_le_bytes 8 (checksum64 (encode_payload s g))) in
        let word = length-to_le_bytes 8 (checksum64 (encode_payload s g)) in
        let same : length (encode_payload s g ++ to_le_bytes 8 (checksum64 (encode_payload s g)))
            ≡ length bytes =
          cc in
        (valid, ground arith)

decode_payload-generation :
    (expected : ℕ) (c c' : RecordCursor) (s : BrowsingHistorySnapshot)
    → decode_payload expected c ≡ (ok s, c')
    → s.generation ≡ expected
unfolding decode_payload
decode_payload-generation expected c c' s h =
    given (bind-ok (take_bytes 8) _ c h) λ (found, c1, _, h1).
      given (raise_if-ok (not (same_bytes found magic)) _ _ c1 h1) λ (_, h2).
        given (bind-ok (take_word 4) _ c1 h2) λ (schema, c3, _, h3).
          given (debug_assert-ok (schema == 1) _ c3 h3) λ (_, h4).
            given (bind-ok (take_word 8) _ c3 h4) λ (generation, c5, _, h5).
              given (raise_if-ok (generation == 0 || not (generation == expected)) _ _ c5 h5)
                λ (asked, h6). given (bind-ok (take_word 8) _ c5 h6) λ (next, c7, _, h7).
                  given (raise_if-ok (next == 0) _ _ c7 h7) λ (_, h8).
                    given (bind-ok (take_word 4) _ c7 h8) λ (count, c9, _, h9).
                      given (raise_if-ok (ltb 2048 count) _ _ c9 h9) λ (_, h10).
                        given (bind-ok (decode_visits count next 0) _ c9 h10)
                          λ (items, c11, _, h11).
                            given (raise_if-ok (not (is_finished c11)) _ _ c11 h11) λ (_, returned).
                              let wanted : generation ≡ expected = ground arith in
                              let same : generation ≡ s.generation = cc in sym same ∙ wanted

decode_history-generation :
    (s : BrowsingHistorySnapshot) (g : ℕ) (bytes : Bytes)
    → decode_history bytes g ≡ ok s
    → s.generation ≡ g
unfolding decode_history
decode_history-generation s g bytes h =
    given (guard-ok (ltb (length bytes) 12 || not (same_bytes (take 8 bytes) magic)) _ _ h)
      λ (_, h2).
        given (guard-ok (not (from_le_bytes (take 4 (drop 8 bytes)) == 1)) _ _ h2) λ (_, h3).
          given (guard-ok (ltb (length bytes) 40 || ltb 9437184 (length bytes)) _ _ h3) λ (_, h4).
            let payload = take (length bytes - 8) bytes in
            given
              (guard-ok (not (checksum64 payload == from_le_bytes (drop (length bytes - 8) bytes)))
                _ _ h4)
              λ (_, h5).
                decode_payload-generation g (new payload) (decode_payload g (new payload)).1 s
                  (ap (λ o. (o, (decode_payload g (new payload)).1)) h5)

pub history_laws : CodecLaws history_codec CanSave
history_laws = record {
  generation-with_generation = λ s g. refl;
  generation-decode = decode_history-generation;
  encode-ok = λ s g can valid positive fits.
      let (bytes, encoded, _) =
        decode_history-encode_history s g (validate_snapshot-ok s can.1 valid) can.0 positive
          fits in
      (bytes, encoded);
  length-encode = λ s g bytes h. (encode_history-ok s g bytes h).1;
  decode-encode = λ s g bytes can positive fits h.
      let valid = validate_snapshot-ok s can.1 (encode_history-ok s g bytes h).0 in
      let (written, encoded, decoded) =
        decode_history-encode_history s g valid can.0 positive fits in
      let same : written ≡ bytes = cc in
      subst (λ b. decode_history b g ≡ ok (record s { generation = g })) same decoded;
}
