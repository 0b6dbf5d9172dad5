-- ===== src/Tests/Saves.antt =====
-- A profile with two unsaved mutations.
use zorya.Common.{ℕ, ◌-◌, ◌≡◌, refl, none, some, List, [], ◌∷◌, leb, if◌then◌else◌, ok, arith}
use zorya.History.{BrowsingHistorySnapshot}
use zorya.Saving.{
  ActiveProfile, PendingProfileHistorySave, ProfileRuntime, complete_browsing_history_save,
  browsing_history_unsaved_mutations,
}
use zorya.Saving.Shape as Shape
use zorya.Saving.Completion as Completion
use zorya.Saving.Saves.{begun, intent_of}
use zorya.Saving.Completion.{durable, answer}
use zorya.Scheduler.{ProfileHistorySaveScheduler, normal, flush, poll, next_save_due_millis}
use zorya.Scheduler.Due as Due
use zorya.Scheduler.Window.{PollFine, poll-Fine}
use zorya.Saving.Events.{Event, run, run-Reached}

abbrev snapshot : BrowsingHistorySnapshot
snapshot = record { generation = 3; next_visit_id = 1; visits = [] }

abbrev profile : ActiveProfile
profile = record {
  id = 1;
  root = 47 ∷ [];
  browsing_history = snapshot;
  browsing_history_revision = 5;
  durable_browsing_history_revision = 3;
}

profile-ActiveValid : Shape.ActiveValid profile
profile-ActiveValid = record {
  history_valid = record { rising = omega arith; limited = omega arith; locations = tt };
  durable_le = omega arith;
}

-- A save of revision 4 is pending.
abbrev pending : PendingProfileHistorySave
pending = record { id = 1; profile = 1; base_generation = 3; mutation_revision = 4 }

abbrev saving : ProfileRuntime
saving = record {
  next_history_save_id = 2;
  active = some profile;
  pending_history_save = some pending;
}

saving-IsValid : Shape.IsValid saving
saving-IsValid = record {
  active_valid = profile-ActiveValid;
  pending_valid = (refl, refl, omega arith, omega arith);
}

complete_browsing_history_save_lem_example :
    let s' = durable saving profile pending 4 in
    (complete_browsing_history_save (answer profile pending 4) saving
      ≡ (ok (answer profile pending 4), s'))
    × (browsing_history_unsaved_mutations 1 s' ≡ (ok (5 - 4), s'))
complete_browsing_history_save_lem_example =
    Completion.complete_browsing_history_save_lem saving profile pending 4 saving-IsValid refl refl
      (omega arith)

abbrev resting : ProfileRuntime
resting = record { next_history_save_id = 2; active = some profile; pending_history_save = none }

resting-IsValid : Shape.IsValid resting
resting-IsValid = record { active_valid = profile-ActiveValid; pending_valid = tt }

abbrev scheduler : ProfileHistorySaveScheduler
scheduler = record {
  policy = record { debounce_millis = 100; max_dirty_millis = 1000; mutation_threshold = 8 };
  profile = some 1;
  observed_mutation_revision = 5;
  first_dirty_millis = some 10;
  last_mutation_millis = some 50;
  last_now_millis = some 60;
}

poll-flush_example :
    ((poll 1 70 flush (scheduler, resting)).0 ≡ ok (some (intent_of resting profile)))
    × ((poll 1 70 flush (scheduler, resting)).1.1 ≡ begun resting profile)
poll-flush_example =
    Due.poll-flush resting profile resting-IsValid refl scheduler 70 (omega arith) refl
      (omega arith)

scheduler-Open : Due.Open scheduler 1 5 10 50 60
scheduler-Open = record {
  followed = refl;
  observed = refl;
  first_known = refl;
  last_known = refl;
  now_known = refl;
  first_le = omega arith;
  last_le = omega arith;
}

poll-due_example :
    (due : ℕ) × (next_save_due_millis scheduler ≡ some due)
    × ((poll 1 150 normal (scheduler, resting)).0
        ≡ (if leb due 150 then ok (some (intent_of resting profile)) else ok none))
poll-due_example =
    Due.poll-due resting profile resting-IsValid refl scheduler 150 10 50 60 scheduler-Open
      (omega arith) (omega arith) (omega arith) (omega arith) refl (omega arith)

poll-Fine_example : PollFine (poll 1 150 normal (scheduler, saving))
poll-Fine_example =
    poll-Fine 1 150 normal scheduler saving (omega arith, omega arith) saving-IsValid

-- A visit while a save is pending, the answer of the store, and another save.
abbrev events : List Event
events =
    Event.record_committed_navigation 1 9 (97 ∷ [])
    ∷ Event.complete_browsing_history_save (answer profile pending 4)
    ∷ Event.begin_browsing_history_save 1
    ∷ []

run-Reached_example : (s' : ProfileRuntime) × (run events saving ≡ some s') × Shape.IsValid s'
run-Reached_example = run-Reached events saving saving-IsValid
