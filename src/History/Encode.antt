-- ===== src/History/Encode.antt =====
-- The record of a generation of the history: `validate_snapshot` and `encode_history` of
-- src/browsing_history.rs.
use zorya.Common.{ℕ, List, [], ◌∷◌, ◌++◌, ◌==◌, ◌||◌, leb, Outcome, ok, ltb, length, saturating_add}
use zorya.Record.{Bytes, extend, to_le_bytes, checksum64}
use zorya.Record.Check.{◌>>=◌, ◌>>◌, fail_if}
use zorya.History.{
  BrowsingHistoryVisit, BrowsingHistorySnapshot, BrowsingHistoryError, record_too_large,
  visit_limit_exceeded, visit_id_exhausted, max_browsing_history_visits, validate_location,
}

-- `HISTORY_MAGIC`
abbrev pub magic : Bytes
magic = 90 ∷ 82 ∷ 89 ∷ 72 ∷ 83 ∷ 84 ∷ 48 ∷ 49 ∷ []

abbrev pub schema_version : ℕ
schema_version = 1

abbrev pub checksum_bytes : ℕ
checksum_bytes = 8

abbrev pub min_record_bytes : ℕ
min_record_bytes = 40

abbrev pub max_record_bytes : ℕ
max_record_bytes = 9437184

-- The loop of `validate_snapshot`.
unfoldable pub validate_visits :
    ℕ → ℕ → List BrowsingHistoryVisit → Outcome BrowsingHistoryError (Unit {0})
validate_visits next previous [] = ok tt
validate_visits next previous (v ∷ vs) =
    validate_location v.location
    >> fail_if (v.id == 0 || leb v.id previous || leb next v.id) visit_id_exhausted
    >> validate_visits next v.id vs

unfoldable pub validate_snapshot : BrowsingHistorySnapshot → Outcome BrowsingHistoryError (Unit {0})
validate_snapshot snapshot =
    fail_if (ltb max_browsing_history_visits (length snapshot.visits))
      (visit_limit_exceeded (length snapshot.visits) max_browsing_history_visits)
    >> fail_if (snapshot.next_visit_id == 0) visit_id_exhausted
    >> validate_visits snapshot.next_visit_id 0 snapshot.visits

-- The bytes of one visit, and of those after it.
unfoldable pub encode_visits : List BrowsingHistoryVisit → Bytes
encode_visits [] = []
encode_visits (v ∷ vs) =
    extend
      (to_le_bytes 8 v.id
        ∷ to_le_bytes 8 v.visited_unix_millis
        ∷ to_le_bytes 4 (length v.location)
        ∷ v.location
        ∷ [])
      (encode_visits vs)

-- What `encode_history` has written before the checksum.
unfoldable pub encode_payload : BrowsingHistorySnapshot → ℕ → Bytes
encode_payload snapshot generation =
    extend
      (magic
        ∷ to_le_bytes 4 schema_version
        ∷ to_le_bytes 8 generation
        ∷ to_le_bytes 8 snapshot.next_visit_id
        ∷ to_le_bytes 4 (length snapshot.visits)
        ∷ [])
      (encode_visits snapshot.visits)

unfoldable pub encode_history : BrowsingHistorySnapshot → ℕ → Outcome BrowsingHistoryError Bytes
encode_history snapshot generation = validate_snapshot snapshot >>= λ _.
    let bytes = encode_payload snapshot generation in
    let final_size = saturating_add (length bytes) checksum_bytes in
    fail_if (ltb max_record_bytes final_size) (record_too_large final_size max_record_bytes)
    >>= λ _. ok (bytes ++ to_le_bytes 8 (checksum64 bytes))
