-- ===== src/Tests/Tabs.antt =====
-- A window with two tabs, the first one active, and a handoff between them.
use zorya.Common.{
  map, ℕ, ◌+◌, ◌≡◌, refl, sym, subst, ◌⊎◌, false, Option, none, some, [], ◌∷◌, not, ◌==◌, any,
  position, is_just, if◌then◌else◌, retain, ok, err, arith,
}
use zorya.Navigation
use zorya.Navigation.Shape as NavShape
use zorya.Activation.{TabActivationIntent, next}
use zorya.Window.{
  BrowserWindow, Tab, activation_id, close_tab, find_tab, move_tab_before, cycle_target, touches,
}
use zorya.Window.Shape.{Counters, TabValid, IsValid, HasTab, activated, settle}
use zorya.Window.Close.{successor, close_tab_lem}
use zorya.Window.Order.{others, placed, move_tab_before_lem}
use zorya.Window.Cycle.{opposite, cycle_target-opposite}
use zorya.App.{BrowserModelError, stale_tab_activation}
use zorya.App.Tabs.{commit_activation}
use zorya.App.Activate.{commit_activation_lem}
use zorya.Snapshots.{tab_strip_snapshot}
use zorya.Snapshots.Marks.{marked, tab_strip_snapshot_lem}
use zorya.Handoff
use zorya.Handoff.{
  TabPresentationHandoff, tab, PresentationHandoffError, PresentationTransitionStart,
  TargetFramePermit, current_intent, next_generation, begin_activation, confirm_neutral,
  acknowledge_chrome_commit, authorize_target_frame, present_target_frame,
}
use zorya.Handoff.Shape.{Event, Owned, run, run-new-Owned}
use zorya.Handoff.Protocol.{stale_permit, handoff_lem}

abbrev counters : Counters
counters = record { tab = 3; activation = 2; navigation = 1; entry = 1 }

abbrev blank : ℕ → Tab
blank id = record { id = id; navigation = Navigation.new }

abbrev two_tabs : Option TabActivationIntent → BrowserWindow
two_tabs pending = record {
  id = 1;
  tabs = blank 1 ∷ blank 2 ∷ [];
  active_tab = some 1;
  pending_activation = pending;
  address_bar = record { edit = none };
}

blank-TabValid : TabValid counters (blank 1) × TabValid counters (blank 2)
unfolding Navigation.new
blank-TabValid = (
  record {
    id_below = omega arith;
    navigation_valid = NavShape.new-IsValid 1 (omega arith);
    intent_below = tt;
  },
  record {
    id_below = omega arith;
    navigation_valid = NavShape.new-IsValid 1 (omega arith);
    intent_below = tt;
  },
)

first_there : HasTab (two_tabs none).tabs 1
unfolding any
first_there = refl

second_there : HasTab (two_tabs none).tabs 2
unfolding any
second_there = refl

idle-IsValid : IsValid counters (two_tabs none)
unfolding any
idle-IsValid = record {
  tabs_distinct = (refl, (refl, tt));
  tabs_valid = (blank-TabValid.0, (blank-TabValid.1, tt));
  active_known = refl;
  pending_known = tt;
  edit_known = tt;
}

abbrev to_second : TabActivationIntent
to_second = record { id = 1; from = 1; to = 2 }

pending-IsValid : IsValid counters (two_tabs (some to_second))
unfolding any
pending-IsValid = record {
  tabs_distinct = (refl, (refl, tt));
  tabs_valid = (blank-TabValid.0, (blank-TabValid.1, tt));
  active_known = refl;
  pending_known = (refl, second_there, omega arith);
  edit_known = tt;
}

commit_activation_lem_example :
    ((intent : TabActivationIntent) × ((two_tabs (some to_second)).pending_activation ≡ some intent)
      × (intent.id ≡ 1)
      × HasTab (two_tabs (some to_second)).tabs intent.to
      × (commit_activation 1 1 (two_tabs (some to_second))
          ≡ (ok intent.to, activated intent.to (settle (two_tabs (some to_second))))))
    ⊎ ((is_just (activation_id (two_tabs (some to_second)).pending_activation) 1 ≡ false)
        × (commit_activation 1 1 (two_tabs (some to_second)) ≡ (
          err (
              stale_tab_activation 1
                (activation_id (two_tabs (some to_second)).pending_activation)
                1),
          two_tabs (some to_second),
        )))
commit_activation_lem_example =
    commit_activation_lem 1 1 (two_tabs (some to_second)) pending-IsValid

move_tab_before_lem_example :
    (t : Tab) × (find_tab (two_tabs none) 2 ≡ some t)
    × (move_tab_before {E = BrowserModelError} 2 (some 1) (two_tabs none) ≡ (
      ok tt,
      record (two_tabs none) { tabs = placed (some 1) t (others 2 (two_tabs none).tabs) },
    ))
move_tab_before_lem_example =
    move_tab_before_lem {E = BrowserModelError} (two_tabs none) 2 (some 1) idle-IsValid second_there
      first_there refl

next_is_second : cycle_target (two_tabs none) next ≡ some 2
unfolding cycle_target position
next_is_second = refl

cycle_target-opposite_example :
    cycle_target (record (two_tabs none) { active_tab = some 2 }) (opposite next) ≡ some 1
cycle_target-opposite_example =
    cycle_target-opposite (two_tabs none) next 2 idle-IsValid refl next_is_second

close_tab_lem_example :
    let w = two_tabs (some to_second) in
    let w' = (close_tab w 1).1 in
    let next_tab = if is_just w.active_tab 1 then successor none 1 w.tabs else w.active_tab in
    (w'.tabs ≡ retain (λ t. not (t.id == 1)) w.tabs)
    × (w'.active_tab ≡ next_tab)
    × (w'.pending_activation
        ≡ (if touches w.pending_activation 1 then none else w.pending_activation))
    × ((removed : Tab) × (find_tab w 1 ≡ some removed)
        × (removed.id ≡ 1)
        × ((close_tab w 1).0
            ≡ some (record {
              tab = removed;
              invalidated_activation =
                  if touches w.pending_activation 1 then w.pending_activation else none;
              active_tab = next_tab;
            })))
close_tab_lem_example = close_tab_lem (two_tabs (some to_second)) 1 pending-IsValid first_there

-- The chrome shows tab 2 and no content, on the way from tab 1.
abbrev neutral_second : TabPresentationHandoff
neutral_second = record {
  represented_tab = 2;
  content = Handoff.neutral;
  pending_activation = some to_second;
  generation = 1;
}

abbrev second_permit : TargetFramePermit
second_permit = record { activation = 1; tab = 2; generation = 1 }

abbrev back_to_first : TabActivationIntent
back_to_first = record { id = 2; from = 2; to = 1 }

permit_given : (authorize_target_frame 1 2 neutral_second).0 ≡ ok second_permit
unfolding authorize_target_frame current_intent
permit_given = refl

abbrev started : PresentationTransitionStart
started = record { intent = back_to_first; superseded = some to_second; generation = 2 }

superseded : (begin_activation back_to_first neutral_second).0 ≡ ok started
unfolding begin_activation next_generation
superseded = refl

run-nil : (s : TabPresentationHandoff) → run [] s ≡ s
unfolding run
run-nil s = refl

stale_permit_example :
    let s' =
      run
        (Event.confirm_neutral 2 ∷ [])
        (begin_activation back_to_first (run [] neutral_second)).1 in
    (e : PresentationHandoffError) × (present_target_frame second_permit s' ≡ (err e, s'))
stale_permit_example =
    stale_permit neutral_second 1 2 second_permit [] (Event.confirm_neutral 2 ∷ []) back_to_first
      started permit_given
      (subst (λ s. (begin_activation back_to_first s).0 ≡ ok started) (sym (run-nil neutral_second))
        superseded)

run-new-Owned_example : Owned (
    run
      (Event.begin_activation to_second
        ∷ Event.confirm_neutral 1
        ∷ Event.acknowledge_chrome_commit 1 2
        ∷ Event.present_target_frame second_permit
        ∷ [])
      (Handoff.new 1))
run-new-Owned_example = run-new-Owned 1 (
    Event.begin_activation to_second
    ∷ Event.confirm_neutral 1
    ∷ Event.acknowledge_chrome_commit 1 2
    ∷ Event.present_target_frame second_permit
    ∷ [])

abbrev on_first : TabPresentationHandoff
on_first = record {
  represented_tab = 1;
  content = tab 1;
  pending_activation = none;
  generation = 0;
}

handoff_lem_example :
    let s1 = (begin_activation to_second on_first).1 in
    let s2 = (confirm_neutral 1 s1).1 in
    let s3 = (acknowledge_chrome_commit 1 2 s2).1 in
    (permit : TargetFramePermit) × ((authorize_target_frame 1 2 s3).0 ≡ ok permit)
    × (present_target_frame permit s3 ≡ (
      ok 2,
      record {
        represented_tab = 2;
        content = tab 2;
        pending_activation = none;
        generation = 0 + 1;
      },
    ))
handoff_lem_example = handoff_lem on_first to_second refl refl (omega arith)

tab_strip_snapshot_lem_example :
    (map (λ i. i.tab) (tab_strip_snapshot (two_tabs (some to_second))).items
      ≡ map (λ (t : Tab). t.id) (two_tabs (some to_second)).tabs)
    × (marked (λ i. i.committed_active) (tab_strip_snapshot (two_tabs (some to_second))).items
        ≡ 1 ∷ [])
    × (marked
          (λ i. i.pending_activation_target)
          (tab_strip_snapshot (two_tabs (some to_second))).items
        ≡ 2 ∷ [])
tab_strip_snapshot_lem_example =
    tab_strip_snapshot_lem counters (two_tabs (some to_second)) pending-IsValid
