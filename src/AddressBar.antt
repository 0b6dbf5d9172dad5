-- ===== src/AddressBar.antt =====
-- `AddressBarState` of src/chrome.rs: the text that the user is editing, bound to a tab.
use zorya.Common.{ℕ, Bool, true, false, Option, none, some, is_just, is_some, if◌then◌else◌}
use zorya.Navigation.{Text}

pub record AddressBarEdit : Type 0 where
  pub tab : ℕ
  pub text : Text

pub record AddressBarSubmission : Type 0 where
  pub tab : ℕ
  pub text : Text

pub record AddressBarState : Type 0 where
  pub edit : Option AddressBarEdit

unfoldable pub default : AddressBarState
default = record { edit = none }

abbrev pub editing_tab : AddressBarState → Option ℕ
editing_tab bar = elim bar.edit [ none ↦ none | some edit ↦ some edit.tab ]

unfoldable pub is_editing : AddressBarState → Bool
is_editing bar = is_some bar.edit

unfoldable pub begin : ℕ → Text → AddressBarState
begin tab text = record { edit = some (record { tab = tab; text = text }) }

unfoldable pub set_text : AddressBarState → Text → Bool × AddressBarState
set_text bar text = elim bar.edit [
  | none ↦ (false, bar)
  | some edit ↦ (true, record { edit = some (record edit { text = text }) })
]

unfoldable pub cancel : AddressBarState → Bool × AddressBarState
cancel bar = (is_some bar.edit, record { edit = none })

unfoldable pub submit : AddressBarState → Option AddressBarSubmission × AddressBarState
submit bar = (
  elim bar.edit [ none ↦ none | some edit ↦ some (record { tab = edit.tab; text = edit.text }) ],
  record { edit = none },
)

unfoldable pub cancel_for_tab : AddressBarState → ℕ → Bool × AddressBarState
unfolding cancel
cancel_for_tab bar tab = if is_just (editing_tab bar) tab then cancel bar else (false, bar)
