-- ===== src/Tests/Browser.antt =====
-- Commands of the browser model, and asynchronous requests.
use zorya.Common.{◌+◌, ◌≡◌, none, some, List, [], ◌∷◌, u64_max, Rising}
use zorya.App.{BrowserApp, new}
use zorya.App.Shape.{IsValid, Fine}
use zorya.Commands.{BrowserCommand, dispatch_browser_command}
use zorya.Commands.Dispatch.{dispatch_browser_command-Fine}
use zorya.App.Command.{Command, step, run, step-Fine, run-new}
use zorya.Async as Async
use zorya.Async.{AsyncTarget, PendingRequest, is_target}
use zorya.Async.Requests as Requests
use zorya.Async.Requests.{Event, one_if}

-- Two tabs, a page in the first, a switch to the second, and the close of the first.
abbrev script : List Command
script =
    Command.create_window
    ∷ Command.create_tab 1
    ∷ Command.create_tab 1
    ∷ Command.begin_navigation 1 1 (97 ∷ [])
    ∷ Command.commit_navigation 1 1 1 (97 ∷ [])
    ∷ Command.begin_reload 1 1
    ∷ Command.begin_tab_activation 1 2
    ∷ []

run-new_example : (app : BrowserApp) × (run script new ≡ some app) × IsValid app
run-new_example = run-new script

step-Fine_example : Fine (step (Command.commit_tab_activation 1 1) (run-new script).0)
step-Fine_example =
    step-Fine (Command.commit_tab_activation 1 1) (run-new script).0 (run-new script).2

allocate_all-Rising_example :
    Rising
      (λ (t : AsyncTarget). t.request)
      1
      (Requests.allocate_all ((1, 1) ∷ (1, 2) ∷ []) Async.new)
      (u64_max + 1)
allocate_all-Rising_example = Requests.allocate_all-Rising ((1, 1) ∷ (1, 2) ∷ [])

abbrev target : AsyncTarget
target = record { request = 1; window = 1; tab = 1 }

-- The completion comes twice.
abbrev twice : List Event
twice =
    Event.begin target ∷ Event.complete_if_current target ∷ Event.complete_if_current target ∷ []

begins-completions_example :
    let p : PendingRequest = record { current = none } in
    Requests.begins target twice p + one_if (is_target p.current target)
    ≡ Requests.completions target twice p
      + Requests.drops target twice p
      + Requests.waits target twice p
begins-completions_example = Requests.begins-completions target twice (record { current = none })

dispatch_browser_command-Fine_example :
    Fine (dispatch_browser_command 1 BrowserCommand.reload_or_stop (run-new script).0)
dispatch_browser_command-Fine_example =
    dispatch_browser_command-Fine 1 BrowserCommand.reload_or_stop (run-new script).0
      (run-new script).2
