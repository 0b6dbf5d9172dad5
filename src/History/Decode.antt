-- ===== src/History/Decode.antt =====
-- Reading the record of a generation of the history: `decode_history` of src/browsing_history.rs.
use zorya.Common.{
  ℕ, zero, suc, ◌-◌, not, Bool, true, false, List, [], ◌∷◌, Outcome, ok, err, panicked, ◌>>=◌, ◌>>◌,
  pure, raise_if, debug_assert, gets, ◌==◌, ltb, leb, ◌||◌, length, take, drop, if◌then◌else◌,
}
use zorya.Record.{
  Bytes, Reader, DecodeError, corrupt, unsupported_schema, from_le_bytes, same_bytes, checksum64,
  new, take_bytes, take_word, take_text, is_finished,
}
use zorya.History.{
  BrowsingHistoryVisit, BrowsingHistorySnapshot, BrowsingHistoryError, max_browsing_history_visits,
  max_history_location_bytes, validate_location,
}
use zorya.History.Encode.{magic, schema_version, checksum_bytes, min_record_bytes, max_record_bytes}

abbrev pub is_err : Outcome BrowsingHistoryError (Unit {0}) → Bool
is_err (ok a) = false
is_err (err e) = true
is_err panicked = true

-- A round of the loop of `decode_history`, after a visit with the identifier `previous`.
unfoldable pub decode_visit : ℕ → ℕ → Reader BrowsingHistoryVisit
decode_visit next previous = do
  id ← take_word 8
  visited_unix_millis ← take_word 8
  location_len ← take_word 4
  raise_if
      (id == 0
        || leb id previous
        || leb next id
        || location_len == 0
        || ltb max_history_location_bytes location_len)
      corrupt
  location ← take_text location_len
  raise_if (is_err (validate_location location)) corrupt
  pure (record { id = id; visited_unix_millis = visited_unix_millis; location = location })

-- The loop.
unfoldable pub decode_visits : ℕ → ℕ → ℕ → Reader (List BrowsingHistoryVisit)
decode_visits zero next previous = pure []
decode_visits (suc count) next previous = do
  visit ← decode_visit next previous
  visits ← decode_visits count next visit.id
  pure (visit ∷ visits)

-- `decode_history` from the cursor on.
unfoldable pub decode_payload : ℕ → Reader BrowsingHistorySnapshot
decode_payload expected_generation = do
  found ← take_bytes 8
  raise_if (not (same_bytes found magic)) corrupt
  decoded_schema ← take_word 4
  debug_assert (decoded_schema == schema_version)
  generation ← take_word 8
  raise_if (generation == 0 || not (generation == expected_generation)) corrupt
  next_visit_id ← take_word 8
  raise_if (next_visit_id == 0) corrupt
  count ← take_word 4
  raise_if (ltb max_browsing_history_visits count) corrupt
  visits ← decode_visits count next_visit_id 0
  finished ← gets is_finished
  raise_if (not finished) corrupt
  pure (record { generation = generation; next_visit_id = next_visit_id; visits = visits })

unfoldable pub decode_history : Bytes → ℕ → Outcome DecodeError BrowsingHistorySnapshot
decode_history bytes expected_generation =
    if ltb (length bytes) 12 || not (same_bytes (take 8 bytes) magic)
    then err corrupt
    else let schema = from_le_bytes (take 4 (drop 8 bytes)) in
      if not (schema == schema_version)
      then err (unsupported_schema schema)
      else if ltb (length bytes) min_record_bytes || ltb max_record_bytes (length bytes)
      then err corrupt
      else let payload_len = length bytes - checksum_bytes in
        let payload = take payload_len bytes in
        if not (checksum64 payload == from_le_bytes (drop payload_len bytes))
        then err corrupt
        else (decode_payload expected_generation (new payload)).0
