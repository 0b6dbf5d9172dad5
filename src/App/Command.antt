-- ===== src/App/Command.antt =====
-- Every command of `BrowserApp` as one step, and runs of commands.
use zorya.Common.{ℕ, ◌≡◌, refl, Option, none, some, List, [], ◌∷◌, Outcome, ok, err, panicked}
use zorya.Navigation.{Text}
use zorya.Activation.{TabCycleDirection}
use zorya.App
use zorya.App.{BrowserModelError, BrowserApp, new}
use zorya.App.Tabs
use zorya.App.Navigate
use zorya.App.Shape.{IsValid, Fine, new-IsValid}
use zorya.App.Safe
use zorya.App.Activate
use zorya.App.Browse
use zorya.App.Commit

pub data Command : Type 0 where
  create_window : Command
  close_window reset_window create_tab : (window : ℕ) → Command
  close_tab set_active_tab : (window tab : ℕ) → Command
  move_tab_before : (window tab : ℕ) → (before : Option ℕ) → Command
  begin_tab_cycle : (window : ℕ) → TabCycleDirection → Command
  begin_tab_activation commit_tab_activation cancel_tab_activation : (window id : ℕ) → Command
  begin_address_bar_edit cancel_address_bar_edit submit_address_bar_edit : (window : ℕ) → Command
  set_address_bar_text : (window : ℕ) → Text → Command
  begin_navigation : (window tab : ℕ) → Text → Command
  begin_back begin_forward begin_reload stop_navigation : (window tab : ℕ) → Command
  commit_navigation fail_navigation : (window tab navigation : ℕ) → Text → Command

-- The outcome of a command, its value left out.
abbrev forget :
    {A : Type 0}
    → Outcome BrowserModelError A × BrowserApp
    → Outcome BrowserModelError (Unit {0}) × BrowserApp
forget (ok a, app) = (ok tt, app)
forget (err e, app) = (err e, app)
forget (panicked, app) = (panicked, app)

forget-Fine : {A : Type 0} (r : Outcome BrowserModelError A × BrowserApp) → Fine r → Fine (forget r)
forget-Fine (ok a, app) f = f
forget-Fine (err e, app) f = f
forget-Fine (panicked, app) f = f

unfoldable pub step : Command → BrowserApp → Outcome BrowserModelError (Unit {0}) × BrowserApp
step create_window app = forget (App.create_window app)
step (close_window w) app = forget (App.close_window w app)
step (reset_window w) app = forget (App.reset_window_for_profile_switch w app)
step (create_tab w) app = forget (App.create_tab w app)
step (close_tab w t) app = forget (App.close_tab w t app)
step (set_active_tab w t) app = forget (Tabs.set_active_tab w t app)
step (move_tab_before w t b) app = forget (Tabs.move_tab_before w t b app)
step (begin_tab_cycle w d) app = forget (Tabs.begin_tab_cycle w d app)
step (begin_tab_activation w t) app = forget (Tabs.begin_tab_activation w t app)
step (commit_tab_activation w a) app = forget (Tabs.commit_tab_activation w a app)
step (cancel_tab_activation w a) app = forget (Tabs.cancel_tab_activation w a app)
step (begin_address_bar_edit w) app = forget (Tabs.begin_address_bar_edit w app)
step (cancel_address_bar_edit w) app = forget (Tabs.cancel_address_bar_edit w app)
step (submit_address_bar_edit w) app = forget (Tabs.submit_address_bar_edit w app)
step (set_address_bar_text w x) app = forget (Tabs.set_address_bar_text w x app)
step (begin_navigation w t x) app = forget (Navigate.begin_navigation w t x app)
step (begin_back w t) app = forget (Navigate.begin_back_navigation w t app)
step (begin_forward w t) app = forget (Navigate.begin_forward_navigation w t app)
step (begin_reload w t) app = forget (Navigate.begin_reload w t app)
step (stop_navigation w t) app = forget (Navigate.stop_navigation w t app)
step (commit_navigation w t n x) app = forget (Navigate.commit_navigation w t n x app)
step (fail_navigation w t n x) app = forget (Navigate.fail_navigation w t n x app)

-- Every command, given to a valid application, ends without a panic and leaves it valid.
pub step-Fine : (c : Command) (app : BrowserApp) → IsValid app → Fine (step c app)
unfolding step
step-Fine create_window app v = forget-Fine _ (Safe.create_window-Fine app v)
step-Fine (close_window w) app v = forget-Fine _ (Safe.close_window-Fine w app v)
step-Fine (reset_window w) app v = forget-Fine _ (Safe.reset_window-Fine w app v)
step-Fine (create_tab w) app v = forget-Fine _ (Safe.create_tab-Fine w app v)
step-Fine (close_tab w t) app v = forget-Fine _ (Safe.close_tab-Fine w t app v)
step-Fine (set_active_tab w t) app v = forget-Fine _ (Safe.set_active_tab-Fine w t app v)
step-Fine (move_tab_before w t b) app v = forget-Fine _ (Activate.move_tab_before-Fine w t b app v)
step-Fine (begin_tab_cycle w d) app v = forget-Fine _ (Activate.begin_tab_cycle-Fine w d app v)
step-Fine (begin_tab_activation w t) app v =
    forget-Fine _ (Activate.begin_tab_activation-Fine w t app v)
step-Fine (commit_tab_activation w a) app v =
    forget-Fine _ (Activate.commit_tab_activation-Fine w a app v)
step-Fine (cancel_tab_activation w a) app v =
    forget-Fine _ (Activate.cancel_tab_activation-Fine w a app v)
step-Fine (begin_address_bar_edit w) app v =
    forget-Fine _ (Activate.begin_address_bar_edit-Fine w app v)
step-Fine (cancel_address_bar_edit w) app v =
    forget-Fine _ (Activate.cancel_address_bar_edit-Fine w app v)
step-Fine (submit_address_bar_edit w) app v =
    forget-Fine _ (Activate.submit_address_bar_edit-Fine w app v)
step-Fine (set_address_bar_text w x) app v =
    forget-Fine _ (Activate.set_address_bar_text-Fine w x app v)
step-Fine (begin_navigation w t x) app v = forget-Fine _ (Browse.begin_navigation-Fine w t x app v)
step-Fine (begin_back w t) app v = forget-Fine _ (Browse.begin_back_navigation-Fine w t app v)
step-Fine (begin_forward w t) app v = forget-Fine _ (Browse.begin_forward_navigation-Fine w t app v)
step-Fine (begin_reload w t) app v = forget-Fine _ (Browse.begin_reload-Fine w t app v)
step-Fine (stop_navigation w t) app v = forget-Fine _ (Browse.stop_navigation-Fine w t app v)
step-Fine (commit_navigation w t n x) app v =
    forget-Fine _ (Commit.commit_navigation-Fine w t n x app v)
step-Fine (fail_navigation w t n x) app v =
    forget-Fine _ (Commit.fail_navigation-Fine w t n x app v)

-- A run of commands: those that fail leave what they reached, and a panic ends the run.
abbrev go_on :
    Outcome BrowserModelError (Unit {0}) × BrowserApp
    → (BrowserApp → Option BrowserApp)
    → Option BrowserApp
go_on (ok _, app) rest = rest app
go_on (err _, app) rest = rest app
go_on (panicked, app) rest = none

unfoldable pub run : List Command → BrowserApp → Option BrowserApp
run [] app = some app
run (c ∷ cs) app = go_on (step c app) (run cs)

go_on-IsValid :
    (r : Outcome BrowserModelError (Unit {0}) × BrowserApp) (rest : BrowserApp → Option BrowserApp)
    → ((app : BrowserApp)
        → IsValid app
        → (app' : BrowserApp) × (rest app ≡ some app') × IsValid app')
    → Fine r
    → (app' : BrowserApp) × (go_on r rest ≡ some app') × IsValid app'
go_on-IsValid (ok _, app) rest keep f = keep app f.1
go_on-IsValid (err _, app) rest keep f = keep app f.1
go_on-IsValid (panicked, app) rest keep f = absurd f.0

run-IsValid :
    (cs : List Command) (app : BrowserApp)
    → IsValid app
    → (app' : BrowserApp) × (run cs app ≡ some app') × IsValid app'
unfolding run
run-IsValid [] app v = (app, refl, v)
run-IsValid (c ∷ cs) app v =
    go_on-IsValid (step c app) (run cs) (run-IsValid cs) (step-Fine c app v)

-- From the empty application every run of commands, whatever they are, comes to its end without a
-- panic, in a valid application.
pub run-new : (cs : List Command) → (app : BrowserApp) × (run cs new ≡ some app) × IsValid app
run-new cs = run-IsValid cs new new-IsValid
