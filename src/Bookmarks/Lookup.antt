-- ===== src/Bookmarks/Lookup.antt =====
-- What a lookup finds after a bookmark is added: src/bookmarks.rs.
use zorya.Common.{
  ℕ, ◌≡◌, ◌≢◌, refl, subst, inl, inr, Bool, true, false, none, some, List, [], ◌∷◌, ◌++◌, ◌==◌,
  ==_refl, find, ok, arith,
}
use zorya.Record.{Bytes}
use zorya.Bookmarks.{Bookmark, BookmarksSnapshot}
use zorya.Bookmarks.Shape.{Entries, IsValid}
use zorya.Bookmarks.Edit.{has_id, bookmark, add_bookmark}
use zorya.Bookmarks.Edits.{entry_of, added, add_bookmark-cases}

-- The next identifier is on no entry.
find-eq-none :
    (next previous : ℕ) (bs : List Bookmark)
    → Entries next previous bs
    → find (has_id next) bs ≡ none
unfolding find
find-eq-none next previous [] h = refl
find-eq-none next previous (b ∷ bs) (t, n, l, above, below, rest) =
    ground (arith, find-eq-none next b.id bs rest)

find-append_hit :
    (p : Bookmark → Bool) (bs : List Bookmark) (b : Bookmark)
    → find p bs ≡ none
    → p b ≡ true
    → find p (bs ++ (b ∷ [])) ≡ some b
unfolding find
find-append_hit p [] b h hit = ground arith
find-append_hit p (a ∷ bs) b h hit = ground (arith, find-append_hit p bs b)

find-append_miss :
    (p : Bookmark → Bool) (bs : List Bookmark) (b : Bookmark)
    → p b ≡ false
    → find p (bs ++ (b ∷ [])) ≡ find p bs
unfolding find
find-append_miss p [] b miss = ground arith
find-append_miss p (a ∷ bs) b miss = ground (arith, find-append_miss p bs b)

-- `id` was free, finds the new bookmark, and nothing else changes.
abbrev FoundAfter : Bytes → Bytes → BookmarksSnapshot → BookmarksSnapshot → ℕ → Type 0
FoundAfter title location s s' id =
    (bookmark s id ≡ none)
    × (bookmark s' id ≡ some (entry_of id title location))
    × ((other : ℕ) → other ≢ id → bookmark s' other ≡ bookmark s other)

added_lem :
    (title location : Bytes) (s : BookmarksSnapshot)
    → IsValid s
    → FoundAfter title location s (added title location s) s.next_bookmark_id
unfolding bookmark
added_lem title location s v =
    let entry = entry_of s.next_bookmark_id title location in
    let fresh = find-eq-none s.next_bookmark_id 0 s.bookmarks v.entries in
    (
      fresh,
      find-append_hit (has_id s.next_bookmark_id) s.bookmarks entry fresh
          (==_refl s.next_bookmark_id),
      λ other differs.
          let miss : (s.next_bookmark_id == other) ≡ false = ground arith in
          find-append_miss (has_id other) s.bookmarks entry miss,
    )

-- When `add_bookmark` returns an identifier for a valid snapshot, no bookmark had it, the new snapshot
-- finds the title and the location given under it, and every other identifier finds what it found.
pub bookmark-add_bookmark :
    (title location : Bytes) (s s' : BookmarksSnapshot) (id : ℕ)
    → IsValid s
    → add_bookmark title location s ≡ (ok id, s')
    → (bookmark s id ≡ none)
      × (bookmark s' id ≡ some (record { id = id; title = title; location = location }))
      × ((other : ℕ) → other ≢ id → bookmark s' other ≡ bookmark s other)
bookmark-add_bookmark title location s s' id v h = elim (add_bookmark-cases title location s) [
  | inl (e, fits, room, free) ↦
      let same_id : s.next_bookmark_id ≡ id = cc in
      let result : added title location s ≡ s' = cc in
      subst (λ i. FoundAfter title location s s' i) same_id
        (subst (λ t. FoundAfter title location s t s.next_bookmark_id) result
          (added_lem title location s v))
  | inr (x, e) ↦ absurd cc
]
