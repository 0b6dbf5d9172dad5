-- ===== src/History.antt =====
-- `BrowsingHistorySnapshot` of src/browsing_history.rs: the visits of a profile, oldest first.
pub mod Bounds
pub mod Encode
pub mod Decode
pub mod RoundTrip
pub mod Stored
use zorya.Common.{
  ℕ, suc, ◌+◌, Bool, true, false, Option, none, some, List, [], ◌∷◌, ◌++◌, ◌==◌, ◌||◌, ltb, leb,
  length, get_elem?, position, remove_at, checked_add, if◌then◌else◌, Call, ◌>>=◌, ◌>>◌, pure,
  raise, gets, modify, or_raise, raise_if, check, Outcome, ok, err,
}
use zorya.Navigation.{Text}

abbrev pub max_browsing_history_visits : ℕ
max_browsing_history_visits = 2048

abbrev pub max_history_location_bytes : ℕ
max_history_location_bytes = 4096

pub record BrowsingHistoryVisit : Type 0 where
  pub id : ℕ
  pub visited_unix_millis : ℕ
  pub location : Text

pub record BrowsingHistoryRecord : Type 0 where
  pub id : ℕ
  pub evicted : Option BrowsingHistoryVisit

-- The errors of the snapshot and of its record.
pub data BrowsingHistoryError : Type 0 where
  empty_location visit_id_exhausted : BrowsingHistoryError
  location_too_large : (bytes limit : ℕ) → BrowsingHistoryError
  visit_limit_exceeded : (found limit : ℕ) → BrowsingHistoryError
  record_too_large : (bytes limit : ℕ) → BrowsingHistoryError

pub record BrowsingHistorySnapshot : Type 0 where
  pub generation : ℕ
  pub next_visit_id : ℕ
  pub visits : List BrowsingHistoryVisit

abbrev pub Action : Type 0 → Type 0
Action A = Call BrowsingHistorySnapshot BrowsingHistoryError A

unfoldable pub default : BrowsingHistorySnapshot
default = record { generation = 0; next_visit_id = 1; visits = [] }

unfoldable pub validate_location : Text → Outcome BrowsingHistoryError (Unit {0})
validate_location location =
    if length location == 0
    then err empty_location
    else if ltb max_history_location_bytes (length location)
    then err (location_too_large (length location) max_history_location_bytes)
    else ok tt

-- `self.visits.remove(0)` at the limit.
abbrev pub evict :
    List BrowsingHistoryVisit → Option BrowsingHistoryVisit × List BrowsingHistoryVisit
evict visits =
    if length visits == max_browsing_history_visits
    then (get_elem? visits 0, remove_at 0 visits)
    else (none, visits)

unfoldable pub record_visit : ℕ → Text → Action BrowsingHistoryRecord
record_visit visited_unix_millis location = do
  check (validate_location location)
  s ← gets (λ s. s)
  next_visit_id ← or_raise (checked_add s.next_visit_id 1) visit_id_exhausted
  let visit : BrowsingHistoryVisit = record {
    id = s.next_visit_id;
    visited_unix_millis = visited_unix_millis;
    location = location;
  }
  modify
      (λ s. record s { visits = (evict s.visits).1 ++ visit ∷ []; next_visit_id = next_visit_id })
  pure (record { id = s.next_visit_id; evicted = (evict s.visits).0 })

unfoldable pub remove_visit :
    BrowsingHistorySnapshot → ℕ → Option BrowsingHistoryVisit × BrowsingHistorySnapshot
remove_visit s id = elim (position (λ visit. visit.id == id) s.visits) [
  | none ↦ (none, s)
  | some index ↦ (get_elem? s.visits index, record s { visits = remove_at index s.visits })
]

unfoldable pub clear : BrowsingHistorySnapshot → BrowsingHistorySnapshot
clear s = record s { visits = [] }

unfoldable pub advance_generation_after_save :
    BrowsingHistorySnapshot → ℕ → ℕ → Bool × BrowsingHistorySnapshot
advance_generation_after_save s expected saved =
    if (if s.generation == expected then leb saved expected else true)
    then (false, s)
    else (true, record s { generation = saved })
