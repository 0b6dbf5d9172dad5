-- ===== src/History/RoundTrip.antt =====
-- Writing a record of the history and reading it back: src/browsing_history.rs.
use zorya.Common.{
  ℕ, ◌+◌, ◌-◌, ◌*◌, ◌<◌, ◌≤◌, ◌^◌, ◌≡◌, refl, true, false, not, List, [], ◌∷◌, ◌++◌, ◌||◌, ◌==◌,
  ==_refl, leb, ltb, length, length-append, take, drop, ok, arith, All, saturating_add,
}
use zorya.Record.{Bytes, to_le_bytes, from_le_bytes, checksum64, new, is_utf8}
use zorya.Record.Words.{
  bound, bound_8, bound_4, checksum64-lt, same_bytes_refl, length-to_le_bytes,
  from_le_bytes-to_le_bytes,
}
use zorya.Record.Cursor.{
  at, new-at, take_bytes_lem, take_word_lem, take_text_lem, is_finished_lem, take-append,
  drop-append_length,
}
use zorya.History.{BrowsingHistoryVisit, BrowsingHistorySnapshot, validate_location}
use zorya.History.Encode.{
  magic, validate_visits, validate_snapshot, encode_visits, encode_payload, encode_history,
}
use zorya.History.Decode.{decode_visit, decode_visits, decode_payload, decode_history}

-- Each identifier is above the one before and below the next free one, and each location within its limit.
abbrev pub Visits : ℕ → ℕ → List BrowsingHistoryVisit → Type 0
Visits next previous [] = Unit
Visits next previous (v ∷ vs) =
    (0 < length v.location)
    × (length v.location ≤ 4096)
    × (previous < v.id)
    × (v.id < next)
    × Visits next v.id vs

pub record IsRecord (snapshot : BrowsingHistorySnapshot) : Type 0 where
  pub bounded : length snapshot.visits ≤ 2048
  pub next_positive : 0 < snapshot.next_visit_id
  pub next_fits : snapshot.next_visit_id < 2 ^ 64
  pub visits_ : Visits snapshot.next_visit_id 0 snapshot.visits

-- The location is a string, and the time a `u64`.
abbrev pub IsVisit : BrowsingHistoryVisit → Type 0
IsVisit v = (is_utf8 v.location ≡ true) × (v.visited_unix_millis < 2 ^ 64)

validate_location_lem :
    (v : BrowsingHistoryVisit)
    → 0 < length v.location
    → length v.location ≤ 4096
    → validate_location v.location ≡ ok tt
unfolding validate_location
validate_location_lem v h k = ground arith

validate_visits_lem :
    (vs : List BrowsingHistoryVisit) (next previous : ℕ)
    → Visits next previous vs
    → validate_visits next previous vs ≡ ok tt
unfolding validate_visits
validate_visits_lem [] next previous h = refl
validate_visits_lem (v ∷ vs) next previous (nonempty, location, above, below, rest) =
    let guard : (v.id == 0 || leb v.id previous || leb next v.id) ≡ false = ground arith in
    simp (validate_location_lem v nonempty location, guard, validate_visits_lem vs next v.id rest)

validate_snapshot_lem : (s : BrowsingHistorySnapshot) → IsRecord s → validate_snapshot s ≡ ok tt
unfolding validate_snapshot
validate_snapshot_lem s v =
    let size = v.bounded in
    let positive = v.next_positive in
    let few : ltb 2048 (length s.visits) ≡ false = ground arith in
    let some_next : (s.next_visit_id == 0) ≡ false = ground arith in
    simp (few, some_next, validate_visits_lem s.visits s.next_visit_id 0 v.visits_)

-- The visits of a record read back, and nothing is left.
decode_visits-encode_visits :
    (vs : List BrowsingHistoryVisit) (next previous : ℕ) (front : Bytes)
    → next < 2 ^ 64
    → Visits next previous vs
    → All IsVisit vs
    → (front' : Bytes) × (decode_visits (length vs) next previous (at front (encode_visits vs))
        ≡ (ok vs, at front' []))
unfolding decode_visits decode_visit encode_visits
decode_visits-encode_visits [] next previous front fits h text = (front, refl)
decode_visits-encode_visits (v ∷ vs) next previous front fits
      (nonempty, location, above, below, rest) (text, texts) =
    let id_fits : v.id < bound 8 = rw bound_8 (omega arith) in
    let time_fits : v.visited_unix_millis < bound 8 = rw bound_8 text.1 in
    let location_fits : length v.location < bound 4 = rw bound_4 (omega arith) in
    let after_id = front ++ to_le_bytes 8 v.id in
    let after_time = after_id ++ to_le_bytes 8 v.visited_unix_millis in
    let after_length = after_time ++ to_le_bytes 4 (length v.location) in
    let (front', tail_) =
      decode_visits-encode_visits vs next v.id (after_length ++ v.location) fits rest texts in
    let guard : (v.id == 0
          || leb v.id previous
          || leb next v.id
          || length v.location == 0
          || ltb 4096 (length v.location))
        ≡ false =
      ground arith in
    (
      front',
      simp (
        take_word_lem 8 front v.id _ id_fits,
        take_word_lem 8 after_id v.visited_unix_millis _ time_fits,
        take_word_lem 4 after_time (length v.location) _ location_fits,
        guard,
        take_text_lem (length v.location) after_length v.location _ refl text.0,
        validate_location_lem v nonempty location,
        tail_,
      ),
    )

length-encode_visits :
    (vs : List BrowsingHistoryVisit) (next previous : ℕ)
    → Visits next previous vs
    → length (encode_visits vs) ≤ 4116 * length vs
unfolding encode_visits
length-encode_visits [] next previous h = omega arith
length-encode_visits (v ∷ vs) next previous (nonempty, location, above, below, rest) =
    let w8 = length-to_le_bytes 8 v.id in
    let t8 = length-to_le_bytes 8 v.visited_unix_millis in
    let l4 = length-to_le_bytes 4 (length v.location) in
    let tail_ = length-encode_visits vs next v.id rest in simp length-append (omega arith)

decode_payload-encode_payload :
    (s : BrowsingHistorySnapshot) (generation : ℕ)
    → IsRecord s
    → All IsVisit s.visits
    → 0 < generation
    → generation < 2 ^ 64
    → (decode_payload generation (new (encode_payload s generation))).0
      ≡ ok (record s { generation = generation })
unfolding decode_payload encode_payload
decode_payload-encode_payload s generation v texts positive fits =
    let size = v.bounded in
    let next_positive = v.next_positive in
    let next_fits : s.next_visit_id < bound 8 = rw bound_8 v.next_fits in
    let generation_fits : generation < bound 8 = rw bound_8 fits in
    let schema_fits : 1 < bound 4 = rw bound_4 (omega arith) in
    let count_fits : length s.visits < bound 4 = rw bound_4 (omega arith) in
    let after_schema = magic ++ to_le_bytes 4 1 in
    let after_generation = after_schema ++ to_le_bytes 8 generation in
    let after_next = after_generation ++ to_le_bytes 8 s.next_visit_id in
    let (front, entries) =
      decode_visits-encode_visits s.visits s.next_visit_id 0
        (after_next ++ to_le_bytes 4 (length s.visits)) v.next_fits v.visits_ texts in
    let right : (generation == 0 || not (generation == generation)) ≡ false =
      ground (arith, ==_refl generation) in
    let some_next : (s.next_visit_id == 0) ≡ false = ground arith in
    let few : ltb 2048 (length s.visits) ≡ false = ground arith in
    simp (
      new-at,
      take_bytes_lem 8 [] magic _ refl,
      same_bytes_refl magic,
      take_word_lem 4 magic 1 _ schema_fits,
      take_word_lem 8 after_schema generation _ generation_fits,
      right,
      take_word_lem 8 after_generation s.next_visit_id _ next_fits,
      some_next,
      take_word_lem 4 after_next (length s.visits) _ count_fits,
      few,
      entries,
      is_finished_lem front,
    )

length-encode_payload :
    (s : BrowsingHistorySnapshot) (generation : ℕ)
    → IsRecord s
    → (32 ≤ length (encode_payload s generation))
      × (length (encode_payload s generation) ≤ 32 + 4116 * 2048)
unfolding encode_payload
length-encode_payload s generation v =
    let size = v.bounded in
    let entries = length-encode_visits s.visits s.next_visit_id 0 v.visits_ in
    simp length-append (simp length-to_le_bytes (omega arith, omega arith))

-- The magic and the schema stand first.
header :
    (s : BrowsingHistorySnapshot) (generation : ℕ) (rest : Bytes)
    → (take 8 (encode_payload s generation ++ rest) ≡ magic)
      × (from_le_bytes (take 4 (drop 8 (encode_payload s generation ++ rest))) ≡ 1)
unfolding encode_payload to_le_bytes from_le_bytes
header s generation rest = (refl, refl)

-- A valid snapshot, its locations being UTF-8 and its times 64-bit words, is encoded at every
-- generation from 1 to 2^64 - 1, and what `decode_history` reads from the record for that generation
-- is the snapshot with it.
pub decode_history-encode_history :
    (s : BrowsingHistorySnapshot) (generation : ℕ)
    → IsRecord s
    → All IsVisit s.visits
    → 0 < generation
    → generation < 2 ^ 64
    → (bytes : Bytes) × (encode_history s generation ≡ ok bytes)
      × (decode_history bytes generation ≡ ok (record s { generation = generation }))
unfolding encode_history decode_history
decode_history-encode_history s generation v texts positive fits =
    let payload = encode_payload s generation in
    let checksum = to_le_bytes 8 (checksum64 payload) in
    let (low, high) = length-encode_payload s generation v in
    let small : ltb 9437184 (saturating_add (length payload) 8) ≡ false = ground arith in
    let size : length (payload ++ checksum) ≡ length payload + 8 =
      omega (arith, length-append payload checksum, length-to_le_bytes 8 (checksum64 payload)) in
    let long : ltb (length payload + 8) 12 ≡ false = ground arith in
    let in_range : (ltb (length payload + 8) 40 || ltb 9437184 (length payload + 8)) ≡ false =
      ground arith in
    let cut : length payload + 8 - 8 ≡ length payload = omega arith in
    let (starts, schema) = header s generation checksum in
    (
      payload ++ checksum,
      simp (validate_snapshot_lem s v, small),
      simp (
        size,
        long,
        starts,
        same_bytes_refl magic,
        schema,
        in_range,
        cut,
        take-append payload checksum,
        drop-append_length payload checksum,
        from_le_bytes-to_le_bytes 8 (checksum64 payload) (checksum64-lt payload),
        ==_refl (checksum64 payload),
        decode_payload-encode_payload s generation v texts positive fits,
      ),
    )
