-- ===== src/Tests/History.antt =====
-- A tab with three pages, the middle one shown, and a profile's history with one visit.
use zorya.Common.{
  ℕ, ◌≡◌, ◌≢◌, refl, none, some, [], ◌∷◌, ◌++◌, ◌+◌, ◌-◌, All, any, find, position, drop, length,
  ok, arith,
}
use zorya.Navigation.{
  HistoryEntry, TabNavigation, NavigationIntent, NavigationIntentKind, new_document, reload,
  traverse_history, commit_new, commit_existing, fail, back_target, forward_target, reload_target,
  current_index, current_entry,
}
use zorya.Navigation.Shape.{IsValid, KindKnown}
use zorya.History.{
  BrowsingHistoryVisit, BrowsingHistorySnapshot, evict, record_visit, max_browsing_history_visits,
}
use zorya.History.Encode.{encode_history}
use zorya.History.Decode.{decode_history}
use zorya.History.RoundTrip.{IsRecord, IsVisit, decode_history-encode_history}
use zorya.Record.{Bytes, is_utf8}
use zorya.History.Bounds as Bounds
use zorya.Navigation.Late as Late
use zorya.Navigation.Late.{late_completion}
use zorya.Navigation.Session.{session, visit}
use zorya.Navigation.Traverse as Traverse
use zorya.Navigation.Traverse.{step_back, step_forward, refresh}

abbrev page : ℕ → HistoryEntry
page id = record { id = id; location = 97 ∷ id ∷ [] }

abbrev intent : NavigationIntentKind → NavigationIntent
intent kind = record { id = 7; requested_location = 98 ∷ []; kind = kind }

abbrev three_pages : NavigationIntentKind → TabNavigation
three_pages kind = record {
  history = page 1 ∷ page 2 ∷ page 3 ∷ [];
  current = some 2;
  pending = some (intent kind);
  last_failure = none;
}

three_pages-IsValid :
    (kind : NavigationIntentKind)
    → KindKnown (three_pages kind).history kind
    → IsValid 4 (three_pages kind)
unfolding any
three_pages-IsValid kind known = record {
  rising = (omega arith, (omega arith, (omega arith, omega arith)));
  limited = omega arith;
  current_known = refl;
  pending_known = known;
}

commit_new-visit_example :
    session (commit_new (three_pages new_document) 7 (page 4)).1
    ≡ visit (page 4) (session (three_pages new_document))
commit_new-visit_example =
    Traverse.commit_new-visit (three_pages new_document) (intent new_document) (page 4)
      (three_pages-IsValid new_document tt) refl (omega arith)

known_first : KindKnown (three_pages (traverse_history 1)).history (traverse_history 1)
unfolding any
known_first = refl

back_first : back_target (three_pages (traverse_history 1)) ≡ some (1, 97 ∷ 1 ∷ [])
unfolding back_target current_index position
back_first = refl

commit_existing-back_example :
    session (commit_existing (three_pages (traverse_history 1)) 7 1 (99 ∷ [])).1
    ≡ step_back (99 ∷ []) (session (three_pages (traverse_history 1)))
commit_existing-back_example =
    Traverse.commit_existing-back (three_pages (traverse_history 1)) (intent (traverse_history 1)) 1
      (97 ∷ 1 ∷ []) (99 ∷ []) (three_pages-IsValid (traverse_history 1) known_first) refl back_first

known_last : KindKnown (three_pages (traverse_history 3)).history (traverse_history 3)
unfolding any
known_last = refl

forward_last : forward_target (three_pages (traverse_history 3)) ≡ some (3, 97 ∷ 3 ∷ [])
unfolding forward_target current_index position
forward_last = refl

commit_existing-forward_example :
    session (commit_existing (three_pages (traverse_history 3)) 7 3 (99 ∷ [])).1
    ≡ step_forward (99 ∷ []) (session (three_pages (traverse_history 3)))
commit_existing-forward_example =
    Traverse.commit_existing-forward (three_pages (traverse_history 3))
      (intent (traverse_history 3)) 3 (97 ∷ 3 ∷ []) (99 ∷ [])
      (three_pages-IsValid (traverse_history 3) known_last) refl forward_last

known_shown : KindKnown (three_pages (reload 2)).history (reload 2)
unfolding any
known_shown = refl

reload_shown : reload_target (three_pages (reload 2)) ≡ some (2, 97 ∷ 2 ∷ [])
unfolding reload_target current_entry find
reload_shown = refl

commit_existing-reload_example :
    session (commit_existing (three_pages (reload 2)) 7 2 (99 ∷ [])).1
    ≡ refresh (99 ∷ []) (session (three_pages (reload 2)))
commit_existing-reload_example =
    Traverse.commit_existing-reload (three_pages (reload 2)) (intent (reload 2)) 2 (97 ∷ 2 ∷ [])
      (99 ∷ []) (three_pages-IsValid (reload 2) known_shown) refl reload_shown

-- Navigation 7 is superseded, and another one fails.
abbrev later : NavigationIntent
later = record (intent new_document) { id = 8 }

other_id : later.id ≢ 7
other_id e = absurd (omega arith)

late_completion_example :
    let t' =
      Late.run
        (Late.Event.fail 8 [] ∷ [])
        (Late.step (Late.Event.start later) (three_pages new_document)) in
    (commit_new t' 7 (page 4) ≡ (none, t'))
    × (commit_existing t' 7 1 (99 ∷ []) ≡ (none, t'))
    × (fail t' 7 (99 ∷ []) ≡ (none, t'))
late_completion_example =
    late_completion 7 (three_pages new_document) (Late.Event.start later)
      (Late.Event.fail 8 [] ∷ []) 1 (page 4) (99 ∷ []) other_id (tt, tt)

-- A profile's history with one visit.
abbrev one_visit : BrowsingHistorySnapshot
one_visit = record {
  generation = 1;
  next_visit_id = 2;
  visits = record { id = 1; visited_unix_millis = 5; location = 97 ∷ [] } ∷ [];
}

one_visit-IsValid : Bounds.IsValid one_visit
one_visit-IsValid = record {
  rising = (omega arith, omega arith);
  limited = omega arith;
  locations = ((omega arith, omega arith), tt);
}

record_visit-IsValid_example : Bounds.IsValid (record_visit 6 (98 ∷ []) one_visit).1
record_visit-IsValid_example = Bounds.record_visit-IsValid 6 (98 ∷ []) one_visit one_visit-IsValid

abbrev second : BrowsingHistoryVisit
second = record { id = 2; visited_unix_millis = 6; location = 98 ∷ [] }

record_visit_lem_example :
    ((record_visit 6 (98 ∷ []) one_visit).0
      ≡ ok (record { id = 2; evicted = (evict one_visit.visits).0 }))
    × ((record_visit 6 (98 ∷ []) one_visit).1.visits
        ≡ drop
            (length one_visit.visits + 1 - max_browsing_history_visits)
            (one_visit.visits ++ second ∷ []))
record_visit_lem_example =
    Bounds.record_visit_lem 6 (98 ∷ []) one_visit one_visit-IsValid (omega arith) (omega arith)
      (omega arith)

-- Two visits of one page, as a record.
abbrev two_visits : BrowsingHistorySnapshot
two_visits = record {
  generation = 3;
  next_visit_id = 9;
  visits =
      record { id = 4; visited_unix_millis = 1700000000000; location = 97 ∷ 195 ∷ 171 ∷ [] }
      ∷ record { id = 8; visited_unix_millis = 1700000000000; location = 97 ∷ [] }
      ∷ [];
}

two_visits-IsRecord : IsRecord two_visits
two_visits-IsRecord = record {
  bounded = omega arith;
  next_positive = omega arith;
  next_fits = omega arith;
  visits_ = (
    omega arith,
    omega arith,
    omega arith,
    omega arith,
    (omega arith, omega arith, omega arith, omega arith, tt),
  );
}

two_visits_texts : All IsVisit two_visits.visits
unfolding is_utf8
two_visits_texts = ((refl, omega arith), ((refl, omega arith), tt))

decode_history-encode_history_example :
    (bytes : Bytes) × (encode_history two_visits 4 ≡ ok bytes)
    × (decode_history bytes 4 ≡ ok (record two_visits { generation = 4 }))
decode_history-encode_history_example =
    decode_history-encode_history two_visits 4 two_visits-IsRecord two_visits_texts (omega arith)
      (omega arith)
