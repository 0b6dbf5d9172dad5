-- ===== src/History/Bounds.antt =====
-- The bounds of the visits of `BrowsingHistorySnapshot`.
use zorya.Common.{
  ℕ, ◌+◌, ◌-◌, ◌≤◌, ◌<◌, ◌≡◌, refl, inl, inr, ◌⊎◌, false, List, [], ◌∷◌, ◌++◌, arith, ◌==◌,
  Bool-cases, Option-cases, u64_max, ltb, ok, err, length, position, remove_at, length-append, All,
  All-append, All-remove_at, Rising, Rising-append, Rising-le, remove_at-Rising, drop,
  length-remove_at, position-eq-some,
}
use zorya.Navigation.{Text}
use zorya.History.{
  BrowsingHistoryVisit, BrowsingHistoryError, empty_location, location_too_large,
  visit_id_exhausted, BrowsingHistorySnapshot, max_browsing_history_visits,
  max_history_location_bytes, default, validate_location, evict, record_visit, remove_visit, clear,
}

abbrev pub LocationValid : BrowsingHistoryVisit → Type 0
LocationValid visit =
    (1 ≤ length visit.location) × (length visit.location ≤ max_history_location_bytes)

pub record IsValid (s : BrowsingHistorySnapshot) : Type 0 where
  pub rising : Rising (λ (v : BrowsingHistoryVisit). v.id) 1 s.visits s.next_visit_id
  pub limited : length s.visits ≤ max_browsing_history_visits
  pub locations : All LocationValid s.visits

pub default-IsValid : IsValid default
unfolding default
default-IsValid = record { rising = omega arith; limited = omega arith; locations = tt }

-- What `record_visit` does: an error that changes nothing, or the visit is added last.
pub record_visit_cases :
    (millis : ℕ) (location : Text) (s : BrowsingHistorySnapshot)
    → ((e : BrowsingHistoryError) × (record_visit millis location s ≡ (err e, s)))
      ⊎ ((1 ≤ length location)
          × (length location ≤ max_history_location_bytes)
          × (s.next_visit_id < u64_max)
          × (record_visit millis location s ≡ (
            ok (record { id = s.next_visit_id; evicted = (evict s.visits).0 }),
            record s {
              visits =
                  (evict s.visits).1
                  ++ record {
                    id = s.next_visit_id;
                    visited_unix_millis = millis;
                    location = location;
                  }
                    ∷ [];
              next_visit_id = s.next_visit_id + 1;
            },
          )))
unfolding record_visit validate_location
record_visit_cases millis location s = elim (Bool-cases (length location == 0)) [
  | inl empty ↦ inl (empty_location, rw (empty, record_visit))
  | inr some_bytes ↦ elim (Bool-cases (ltb max_history_location_bytes (length location))) [
    | inl long ↦ inl (
      location_too_large (length location) max_history_location_bytes,
      rw (some_bytes, long, record_visit),
    )
    | inr short ↦ elim (Bool-cases (ltb u64_max (s.next_visit_id + 1))) [
      | inl full ↦ inl (visit_id_exhausted, rw (some_bytes, short, full, record_visit))
      | inr free ↦
          inr (ground arith, ground arith, ground arith, rw (some_bytes, short, free, record_visit))
    ]
  ]
]

evict_lem :
    (lo hi : ℕ) (visits : List BrowsingHistoryVisit)
    → Rising (λ (v : BrowsingHistoryVisit). v.id) lo visits hi
    → length visits ≤ max_browsing_history_visits
    → All LocationValid visits
    → Rising (λ (v : BrowsingHistoryVisit). v.id) lo (evict visits).1 hi
      × (length (evict visits).1 < max_browsing_history_visits)
      × All LocationValid (evict visits).1
unfolding remove_at
evict_lem lo hi visits r l a = elim (Bool-cases (length visits == max_browsing_history_visits)) [
  | inl full ↦ rw full (
    remove_at-Rising _ 0 lo visits hi r,
    shorter visits (ground arith),
    All-remove_at LocationValid 0 visits a,
  )
  | inr free ↦ rw free (r, ground arith, a)
]
  where
    shorter :
        (visits : List BrowsingHistoryVisit)
        → length visits ≡ max_browsing_history_visits
        → length (remove_at 0 visits) < max_browsing_history_visits
    shorter [] h = omega arith
    shorter (x ∷ xs) h = omega arith

-- Recording a visit keeps a history valid, whatever its outcome.
pub record_visit-IsValid :
    (millis : ℕ) (location : Text) (s : BrowsingHistorySnapshot)
    → IsValid s
    → IsValid (record_visit millis location s).1
record_visit-IsValid millis location s v = elim (record_visit_cases millis location s) [
  | inl (e, f) ↦ rw f v
  | inr (some_bytes, short, room, f) ↦
      let (r, l, a) = evict_lem 1 s.next_visit_id s.visits v.rising v.limited v.locations in
      let visit : BrowsingHistoryVisit = record {
        id = s.next_visit_id;
        visited_unix_millis = millis;
        location = location;
      } in
      rw f (record {
        rising =
            Rising-append _ 1 (evict s.visits).1 s.next_visit_id (visit ∷ []) (s.next_visit_id + 1)
              r (omega arith, omega arith);
        limited = omega (arith, length-append (evict s.visits).1 (visit ∷ []), l);
        locations =
            All-append LocationValid (evict s.visits).1 (visit ∷ []) a ((some_bytes, short), tt);
      })
]

pub remove_visit-IsValid :
    (s : BrowsingHistorySnapshot) (id : ℕ) → IsValid s → IsValid (remove_visit s id).1
unfolding remove_visit
remove_visit-IsValid s id v = elim (Option-cases (position (λ visit. visit.id == id) s.visits)) [
  | inl e ↦ rw (e, remove_visit) v
  | inr (index, e) ↦
      let (visit, at, hit) = position-eq-some (λ visit. visit.id == id) s.visits index e in
      rw (e, remove_visit)
        (record {
          rising = remove_at-Rising _ index 1 s.visits s.next_visit_id v.rising;
          limited = omega (arith, length-remove_at s.visits index visit at, v.limited);
          locations = All-remove_at LocationValid index s.visits v.locations;
        })
]

pub clear-IsValid : (s : BrowsingHistorySnapshot) → IsValid s → IsValid (clear s)
unfolding clear
clear-IsValid s v = record {
  rising = Rising-le _ 1 s.visits s.next_visit_id v.rising;
  limited = omega arith;
  locations = tt;
}

evict-drop :
    (visits : List BrowsingHistoryVisit) (visit : BrowsingHistoryVisit)
    → length visits ≤ max_browsing_history_visits
    → (evict visits).1 ++ visit ∷ []
      ≡ drop (length visits + 1 - max_browsing_history_visits) (visits ++ visit ∷ [])
unfolding remove_at
evict-drop visits visit l = elim (Bool-cases (length visits == max_browsing_history_visits)) [
  | inl full ↦
      let e : length visits + 1 - max_browsing_history_visits ≡ 1 = ground arith in
      rw (full, e) (first visits (ground arith))
  | inr free ↦
      let e : length visits + 1 - max_browsing_history_visits ≡ 0 = ground arith in rw (free, e)
]
  where
    first :
        (visits : List BrowsingHistoryVisit)
        → length visits ≡ max_browsing_history_visits
        → remove_at 0 visits ++ visit ∷ [] ≡ drop 1 (visits ++ visit ∷ [])
    first [] h = absurd (omega arith)
    first (x ∷ xs) h = refl

-- A visit with a location of 1 to 4096 bytes, given to a valid history whose identifiers are not
-- used up, is recorded under the next identifier. The history is then the last 2048 of the visits
-- that it had, with the new one after them.
pub record_visit_lem :
    (millis : ℕ) (location : Text) (s : BrowsingHistorySnapshot)
    → IsValid s
    → 1 ≤ length location
    → length location ≤ max_history_location_bytes
    → s.next_visit_id < u64_max
    → let visit : BrowsingHistoryVisit = record {
      id = s.next_visit_id;
      visited_unix_millis = millis;
      location = location;
    } in
      ((record_visit millis location s).0
        ≡ ok (record { id = s.next_visit_id; evicted = (evict s.visits).0 }))
      × ((record_visit millis location s).1.visits
          ≡ drop (length s.visits + 1 - max_browsing_history_visits) (s.visits ++ visit ∷ []))
unfolding record_visit validate_location
record_visit_lem millis location s v some_bytes short room =
    let a : (length location == 0) ≡ false = ground arith in
    let b : ltb max_history_location_bytes (length location) ≡ false = ground arith in
    let c : ltb u64_max (s.next_visit_id + 1) ≡ false = ground arith in
    rw (a, b, c, record_visit) (refl, evict-drop s.visits _ v.limited)
