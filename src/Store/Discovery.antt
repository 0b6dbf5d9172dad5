-- ===== src/Store/Discovery.antt =====
-- What is discovered in a directory: the generations of its files, newest first.
use zorya.Common.{
  ℕ, ◌+◌, ◌≤◌, ◌≡◌, refl, subst, ◌∙◌, inl, inr, Bool, Bool-cases, false, Option, none, some, List,
  [], ◌∷◌, ◌++◌, ◌==◌, ◌||◌, ltb, leb, any, any-append, All, All-map, length, length-append,
  is_some, ok, arith,
}
use zorya.Store.Directory.{
  ErrorKind, generation_file, pending_file, other_entry, Directory, contents, insert_descending,
  sort_descending, discover, discover_generations_with_reserve,
}
use zorya.Record.{Bytes}
use zorya.Record.Check.{guard-ok}

abbrev pub has : ℕ → List ℕ → Bool
has g gs = any (λ h. h == g) gs

abbrev pub Descending : List ℕ → Type 0
Descending [] = Unit
Descending (g ∷ gs) = All (λ h. h ≤ g) gs × Descending gs

has-insert_descending :
    (g h : ℕ) (hs : List ℕ) → has g (insert_descending h hs) ≡ (h == g || has g hs)
unfolding insert_descending any
has-insert_descending g h [] = ground arith
has-insert_descending g h (k ∷ ks) = ground (arith, has-insert_descending g h ks)

has-sort_descending : (g : ℕ) (gs : List ℕ) → has g (sort_descending gs) ≡ has g gs
unfolding sort_descending any
has-sort_descending g [] = refl
has-sort_descending g (h ∷ hs) =
    has-insert_descending g h (sort_descending hs) ∙ rw (has-sort_descending g hs) (ground arith)

length-insert_descending : (h : ℕ) (hs : List ℕ) → length (insert_descending h hs) ≡ length hs + 1
unfolding insert_descending
length-insert_descending h [] = refl
length-insert_descending h (k ∷ ks) = ground (arith, length-insert_descending h ks)

insert_descending-All :
    (P : ℕ → Type 0) (h : ℕ) (hs : List ℕ) → P h → All P hs → All P (insert_descending h hs)
unfolding insert_descending
insert_descending-All P h [] p ps = (p, tt)
insert_descending-All P h (k ∷ ks) p (q, ps) = elim (Bool-cases (leb k h)) [
  | inl before ↦ rw before (p, (q, ps))
  | inr after ↦ rw after (q, insert_descending-All P h ks p ps)
]

insert_descending-Descending :
    (h : ℕ) (hs : List ℕ) → Descending hs → Descending (insert_descending h hs)
unfolding insert_descending
insert_descending-Descending h [] d = (tt, tt)
insert_descending-Descending h (k ∷ ks) (below, d) = elim (Bool-cases (leb k h)) [
  | inl before ↦ rw before (
    (ground arith, All-map (λ i. i ≤ k) (λ i. i ≤ h) ks (λ i le. ground arith) below),
    (below, d),
  )
  | inr after ↦ rw after (
    insert_descending-All (λ i. i ≤ k) h ks (ground arith) below,
    insert_descending-Descending h ks d,
  )
]

pub sort_descending-Descending : (gs : List ℕ) → Descending (sort_descending gs)
unfolding sort_descending
sort_descending-Descending [] = tt
sort_descending-Descending (g ∷ gs) =
    insert_descending-Descending g (sort_descending gs) (sort_descending-Descending gs)

-- A file's generation counts as found once it is read.
member_step :
    (w g : ℕ) (bytes : Bytes) (found : List ℕ) (entries : Directory)
    → (has w (found ++ (g ∷ [])) || is_some (contents w entries))
      ≡ (has w found || is_some (contents w (generation_file g bytes ∷ entries)))
unfolding contents any
member_step w g bytes found entries = ground (arith, any-append (λ h. h == w) found (g ∷ []))

module _ {E : Type 0} where
  discover-ok :
      (reserved count : ℕ) (found : List ℕ) (entries : Directory) (gs : List ℕ)
      → discover {E = E} reserved count found entries ≡ ok gs
      → Descending gs × ((g : ℕ) → has g gs ≡ (has g found || is_some (contents g entries)))
  unfolding discover contents
  discover-ok reserved count found [] gs h =
      let sorted : sort_descending found ≡ gs = cc in
      subst (λ xs. Descending xs × ((g : ℕ) → has g xs ≡ (has g found || false))) sorted
        (sort_descending-Descending found, λ g. has-sort_descending g found ∙ ground arith)
  discover-ok reserved count found (generation_file g bytes ∷ entries) gs h =
      let (room, rest) = guard-ok (ltb 128 (count + 1 + reserved)) _ _ h in
      let (few, others) = guard-ok (ltb 64 (length found + 1)) _ _ rest in
      let (sorted, members) =
        discover-ok reserved (count + 1) (found ++ (g ∷ [])) entries gs others in
      (sorted, λ w. members w ∙ member_step w g bytes found entries)
  discover-ok reserved count found (pending_file generation sequence ∷ entries) gs h =
      let (room, rest) = guard-ok (ltb 128 (count + 1 + reserved)) _ _ h in
      discover-ok reserved (count + 1) found entries gs rest
  discover-ok reserved count found (other_entry ∷ entries) gs h =
      let (room, rest) = guard-ok (ltb 128 (count + 1 + reserved)) _ _ h in
      discover-ok reserved (count + 1) found entries gs rest

  -- What is discovered is in descending order, and is there exactly when the directory has its file.
  pub discover_generations-ok :
      (fault : Option ErrorKind) (reserved : ℕ) (entries : Directory) (gs : List ℕ)
      → discover_generations_with_reserve {E = E} fault reserved entries ≡ ok gs
      → Descending gs × ((g : ℕ) → has g gs ≡ is_some (contents g entries))
  unfolding discover_generations_with_reserve any
  discover_generations-ok (some kind) reserved entries gs h = absurd cc
  discover_generations-ok none reserved entries gs h = discover-ok reserved 0 [] entries gs h

  pub discover_total :
      (reserved count : ℕ) (found : List ℕ) (entries : Directory)
      → length found + length entries ≤ 64
      → count + length entries + reserved ≤ 128
      → (gs : List ℕ) × (discover {E = E} reserved count found entries ≡ ok gs)
  unfolding discover
  discover_total reserved count found [] few room = (sort_descending found, refl)
  discover_total reserved count found (generation_file g bytes ∷ entries) few room =
      let small : ltb 64 (length found + 1) ≡ false = ground arith in
      let fits : ltb 128 (count + 1 + reserved) ≡ false = ground arith in
      let rest =
        discover_total reserved (count + 1) (found ++ (g ∷ [])) entries
          (omega (arith, length-append found (g ∷ []))) (omega arith) in
      (rest.0, rw (fits, small) rest.1)
  discover_total reserved count found (pending_file g sequence ∷ entries) few room =
      let fits : ltb 128 (count + 1 + reserved) ≡ false = ground arith in
      let rest = discover_total reserved (count + 1) found entries (omega arith) (omega arith) in
      (rest.0, rw fits rest.1)
  discover_total reserved count found (other_entry ∷ entries) few room =
      let fits : ltb 128 (count + 1 + reserved) ≡ false = ground arith in
      let rest = discover_total reserved (count + 1) found entries (omega arith) (omega arith) in
      (rest.0, rw fits rest.1)

  -- A directory of at most 64 entries is discovered.
  pub discover_generations_total :
      (entries : Directory)
      → length entries ≤ 64
      → (gs : List ℕ) × (discover_generations_with_reserve {E = E} none 0 entries ≡ ok gs)
  unfolding discover_generations_with_reserve
  discover_generations_total entries few = discover_total 0 0 [] entries (omega arith) (omega arith)
