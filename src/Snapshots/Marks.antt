-- ===== src/Snapshots/Marks.antt =====
-- The marks of the tab strip in a valid window: src/tab_strip.rs.
use zorya.Common.{
  ℕ, ◌≡◌, refl, ap, subst, inl, inr, Bool, Bool-cases, true, false, Option, none, some, List, [],
  ◌∷◌, map, ◌==◌, any, Distinct, arith, if◌then◌else◌,
}
use zorya.Activation.{TabActivationIntent}
use zorya.Window.{BrowserWindow, Tab, has_id}
use zorya.Window.Shape.{Counters, ActiveKnown, PendingKnown, IsValid}
use zorya.Snapshots.{TabStripItemSnapshot, item, target_of, tab_strip_snapshot}

-- The tabs of the items that pass the test, in their order.
unfoldable pub marked : (TabStripItemSnapshot → Bool) → List TabStripItemSnapshot → List ℕ
marked p [] = []
marked p (i ∷ items) = let others = marked p items in if p i then i.tab ∷ others else others

abbrev at_most_one : Option ℕ → List ℕ
at_most_one none = []
at_most_one (some id) = id ∷ []

-- A mark at the tab `id`, whatever is marked at the others.
module _ (c p : Option ℕ) (mark : TabStripItemSnapshot → Bool) (id : ℕ)
    (marks : (t : Tab) → mark (item c p t) ≡ (id == t.id)) where
  marked-away : (ts : List Tab) → any (has_id id) ts ≡ false → marked mark (map (item c p) ts) ≡ []
  unfolding marked any
  marked-away [] h = refl
  marked-away (t ∷ ts) h =
      let off : (id == t.id) ≡ false = ground arith in
      rw (marks t, off) (marked-away ts (ground arith))

  marked-there :
      (ts : List Tab)
      → Distinct (λ (t : Tab). t.id) ts
      → any (has_id id) ts ≡ true
      → marked mark (map (item c p) ts) ≡ id ∷ []
  unfolding marked any
  marked-there [] d h = cc
  marked-there (t ∷ ts) (fresh, d) h = elim (Bool-cases (id == t.id)) [
    | inl here ↦
        let same : t.id ≡ id = ground arith in
        let rest : any (has_id id) ts ≡ false =
          subst (λ k. any (λ y. y.id == k) ts ≡ false) same fresh in
        rw (marks t, here, marked-away ts rest, same) refl
    | inr other ↦ rw (marks t, other) (marked-there ts d (ground arith))
  ]

-- No mark at all.
marked-none :
    (c p : Option ℕ) (mark : TabStripItemSnapshot → Bool) (ts : List Tab)
    → ((t : Tab) → mark (item c p t) ≡ false)
    → marked mark (map (item c p) ts) ≡ []
unfolding marked
marked-none c p mark [] off = refl
marked-none c p mark (t ∷ ts) off = rw (off t) (marked-none c p mark ts off)

map-item :
    (c p : Option ℕ) (ts : List Tab)
    → map (λ i. i.tab) (map (item c p) ts) ≡ map (λ (t : Tab). t.id) ts
map-item c p [] = refl
map-item c p (t ∷ ts) = ap (◌∷◌ t.id) (map-item c p ts)

active_marks :
    (ts : List Tab) (c p : Option ℕ)
    → Distinct (λ (t : Tab). t.id) ts
    → ActiveKnown ts c
    → marked (λ i. i.committed_active) (map (item c p) ts) ≡ at_most_one c
active_marks ts none p d known = marked-none none p (λ i. i.committed_active) ts (λ t. refl)
active_marks ts (some a) p d known =
    marked-there (some a) p (λ i. i.committed_active) a (λ t. refl) ts d known

target_marks :
    (n : ℕ) (ts : List Tab) (c : Option ℕ) (p : Option TabActivationIntent)
    → Distinct (λ (t : Tab). t.id) ts
    → PendingKnown n ts c p
    → marked (λ i. i.pending_activation_target) (map (item c (target_of p)) ts)
      ≡ at_most_one (target_of p)
target_marks n ts c none d known =
    marked-none c none (λ i. i.pending_activation_target) ts (λ t. refl)
target_marks n ts c (some intent) d known =
    marked-there c (some intent.to) (λ i. i.pending_activation_target) intent.to (λ t. refl) ts d
      known.1

-- In a valid window the strip shows the tabs in their order, marks the active tab, if there is one, and
-- no other as active, and marks the target of the pending activation, if there is one, and no other.
pub tab_strip_snapshot_lem :
    (counters : Counters) (w : BrowserWindow)
    → IsValid counters w
    → (map (λ i. i.tab) (tab_strip_snapshot w).items ≡ map (λ (t : Tab). t.id) w.tabs)
      × (marked (λ i. i.committed_active) (tab_strip_snapshot w).items ≡ at_most_one w.active_tab)
      × (marked (λ i. i.pending_activation_target) (tab_strip_snapshot w).items
          ≡ at_most_one (target_of w.pending_activation))
unfolding tab_strip_snapshot
tab_strip_snapshot_lem counters w v = (
  map-item w.active_tab (target_of w.pending_activation) w.tabs,
  active_marks w.tabs w.active_tab (target_of w.pending_activation) v.tabs_distinct v.active_known,
  target_marks counters.activation w.tabs w.active_tab w.pending_activation v.tabs_distinct
      v.pending_known,
)
