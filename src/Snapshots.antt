-- ===== src/Snapshots.antt =====
-- What the shell draws of a window: `WindowChromeSnapshot` of src/chrome.rs and `TabStripSnapshot` of
-- src/tab_strip.rs.
pub mod Marks
use zorya.Common.{ℕ, Bool, Option, none, some, List, map, is_just}
use zorya.Navigation.{
  Text, NavigationControls, ReloadControl, stop, reload, controls, display_location, is_loading,
}
use zorya.AddressBar.{editing_tab}
use zorya.Activation.{TabActivationIntent}
use zorya.Window.{BrowserWindow, Tab, active, address_bar_text}

pub record WindowChromeSnapshot : Type 0 where
  pub active_tab : ℕ
  pub address_text : Text
  pub address_bar_editing : Bool
  pub navigation_controls : NavigationControls

unfoldable pub chrome_snapshot : BrowserWindow → Option WindowChromeSnapshot
chrome_snapshot w = elim (active w) [
  | none ↦ none
  | some active_tab ↦ some (record {
    active_tab = active_tab.id;
    address_text = address_bar_text w;
    address_bar_editing = is_just (editing_tab w.address_bar) active_tab.id;
    navigation_controls = controls active_tab.navigation;
  })
]

pub record TabStripItemSnapshot : Type 0 where
  pub tab : ℕ
  pub committed_active : Bool
  pub pending_activation_target : Bool
  pub display_location : Option Text
  pub loading : Bool

pub record TabStripSnapshot : Type 0 where
  pub items : List TabStripItemSnapshot
  pub committed_active : Option ℕ
  pub pending_activation : Option TabActivationIntent

abbrev pub target_of : Option TabActivationIntent → Option ℕ
target_of none = none
target_of (some intent) = some intent.to

-- `TabStripSnapshot::pending_target`
abbrev pub pending_target : TabStripSnapshot → Option ℕ
pending_target snapshot = target_of snapshot.pending_activation

abbrev pub item : Option ℕ → Option ℕ → Tab → TabStripItemSnapshot
item committed pending tab = record {
  tab = tab.id;
  committed_active = is_just committed tab.id;
  pending_activation_target = is_just pending tab.id;
  display_location = display_location tab.navigation;
  loading = is_loading tab.navigation;
}

unfoldable pub tab_strip_snapshot : BrowserWindow → TabStripSnapshot
tab_strip_snapshot w = record {
  items = map (item w.active_tab (target_of w.pending_activation)) w.tabs;
  committed_active = w.active_tab;
  pending_activation = w.pending_activation;
}
