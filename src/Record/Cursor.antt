-- ===== src/Record/Cursor.antt =====
-- Cursors that have read some bytes and have others left.
use mathlib.Core.List.{append_assoc}
use zorya.Common.{
  ℕ, ◌+◌, ◌<◌, ◌≡◌, refl, ap, subst, true, [], ◌∷◌, ◌++◌, arith, leb, length, take, drop,
  length-append, ok,
}
use zorya.Record.{
  Bytes, RecordCursor, new, take_bytes, take_word, take_text, is_finished, is_utf8, to_le_bytes,
}
use zorya.Record.Words.{bound, from_le_bytes-to_le_bytes, length-to_le_bytes}

-- The cursor that has read `front` of `front ++ rest`.
unfoldable pub at : Bytes → Bytes → RecordCursor
at front rest = record { bytes = front ++ rest; position = length front }

pub take-append : (xs ys : Bytes) → take (length xs) (xs ++ ys) ≡ xs
take-append [] ys = refl
take-append (x ∷ xs) ys = ap (◌∷◌ x) (take-append xs ys)

pub drop-append_length : (xs ys : Bytes) → drop (length xs) (xs ++ ys) ≡ ys
drop-append_length [] ys = refl
drop-append_length (x ∷ xs) ys = drop-append_length xs ys

pub new-at : (bytes : Bytes) → new bytes ≡ at [] bytes
unfolding new at
new-at bytes = refl

pub at_lem :
    (front rest : Bytes) → at front rest ≡ record { bytes = front ++ rest; position = length front }
unfolding at
at_lem front rest = refl

pub take_bytes_lem :
    (n : ℕ) (front xs rest : Bytes)
    → length xs ≡ n
    → take_bytes n (at front (xs ++ rest)) ≡ (ok xs, at (front ++ xs) rest)
unfolding take_bytes
take_bytes_lem n front xs rest h =
    let fits : leb (length (front ++ xs)) (length (front ++ (xs ++ rest))) ≡ true =
      ground
        (arith, length-append front (xs ++ rest), length-append xs rest, length-append front xs) in
    let here : take n (xs ++ rest) ≡ xs =
      subst (λ k. take k (xs ++ rest) ≡ xs) h (take-append xs rest) in
    let end_ : length front + n ≡ length (front ++ xs) = omega (arith, length-append front xs) in
    simp (
      at_lem front (xs ++ rest),
      at_lem (front ++ xs) rest,
      end_,
      fits,
      drop-append_length front (xs ++ rest),
      here,
      append_assoc front xs rest,
    )

pub take_word_lem :
    (n : ℕ) (front : Bytes) (v : ℕ) (rest : Bytes)
    → v < bound n
    → take_word n (at front (to_le_bytes n v ++ rest)) ≡ (ok v, at (front ++ to_le_bytes n v) rest)
unfolding take_word
take_word_lem n front v rest h = simp (
  take_bytes_lem n front (to_le_bytes n v) rest (length-to_le_bytes n v),
  from_le_bytes-to_le_bytes n v h,
)

pub take_text_lem :
    (n : ℕ) (front xs rest : Bytes)
    → length xs ≡ n
    → is_utf8 xs ≡ true
    → take_text n (at front (xs ++ rest)) ≡ (ok xs, at (front ++ xs) rest)
unfolding take_text
take_text_lem n front xs rest h u = simp (take_bytes_lem n front xs rest h, u)

pub is_finished_lem : (front : Bytes) → is_finished (at front []) ≡ true
unfolding is_finished
is_finished_lem front = ground (arith, at_lem front [], length-append front [])

pub is_finished-eq : (front rest : Bytes) → is_finished (at front rest) ≡ true → rest ≡ []
unfolding is_finished
is_finished-eq front [] h = refl
is_finished-eq front (b ∷ bs) h =
    absurd (ground (arith, at_lem front (b ∷ bs), length-append front (b ∷ bs)))
