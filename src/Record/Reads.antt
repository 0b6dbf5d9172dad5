-- ===== src/Record/Reads.antt =====
-- What a read that returns says of the bytes that it has read.
use zorya.Common.{
  ◌∙◌, Bool, Call, ℕ, zero, suc, ◌+◌, ◌<◌, ◌≡◌, refl, sym, subst, inl, inr, true, false, Bool-cases,
  [], ◌∷◌, ◌++◌, ap, leb, length, take, drop, length-append, Outcome, ok, err, arith, if◌then◌else◌,
  length-take, raise, pure, ◌>>=◌,
}
use zorya.Common.Calls.{bind-ok}
use zorya.Record.{
  Bytes, Reader, RecordCursor, DecodeError, corrupt, take_bytes, take_word, take_text, is_utf8,
  to_le_bytes, from_le_bytes,
}
use zorya.Record.Words.{AreBytes, bound, from_le_bytes-lt, to_le_bytes-from_le_bytes}
use zorya.Record.Cursor.{at, at_lem, take_bytes_lem}

pub take-drop : (n : ℕ) (xs : Bytes) → xs ≡ take n xs ++ drop n xs
take-drop zero xs = refl
take-drop (suc n) [] = refl
take-drop (suc n) (x ∷ xs) = ap (◌∷◌ x) (take-drop n xs)

-- A read of more bytes than there are fails.
take_bytes-err :
    (n : ℕ) (front rest : Bytes)
    → length rest < n
    → take_bytes n (at front rest) ≡ (err corrupt, at front rest)
unfolding take_bytes
take_bytes-err n front rest h =
    let over : leb (length front + n) (length (front ++ rest)) ≡ false =
      ground (arith, length-append front rest) in
    simp (at_lem front rest, over)

pub take_bytes-ok :
    (n : ℕ) (front rest xs : Bytes) (c : RecordCursor)
    → take_bytes n (at front rest) ≡ (ok xs, c)
    → (rest' : Bytes) × (rest ≡ xs ++ rest') × (length xs ≡ n) × (c ≡ at (front ++ xs) rest')
take_bytes-ok n front rest xs c h = elim (Bool-cases (leb n (length rest))) [
  | inl few ↦
      let size : length (take n rest) ≡ n = ground (arith, length-take n rest) in
      let read : take_bytes n (at front rest)
          ≡ (ok (take n rest), at (front ++ take n rest) (drop n rest)) =
        subst
          (λ r.
            take_bytes n (at front r) ≡ (ok (take n rest), at (front ++ take n rest) (drop n rest)))
          (sym (take-drop n rest)) (take_bytes_lem n front (take n rest) (drop n rest) size) in
      let same : xs ≡ take n rest = cc in let split_ = take-drop n rest in (drop n rest, cc, cc, cc)
  | inr many ↦ absurd (let failed = take_bytes-err n front rest (ground arith) in cc)
]

pub AreBytes-append : (xs ys : Bytes) → AreBytes (xs ++ ys) → AreBytes xs × AreBytes ys
AreBytes-append [] ys h = (tt, h)
AreBytes-append (x ∷ xs) ys (low, h) =
    let (front, back) = AreBytes-append xs ys h in ((low, front), back)

-- What a read of `piece` leaves of `rest`.
pub record After (front rest piece : Bytes) (c : RecordCursor) : Type 0 where
  pub left : Bytes
  pub was : rest ≡ piece ++ left
  pub left_bytes : AreBytes left
  pub now : c ≡ at (front ++ piece) left

pub take_word-ok :
    (n : ℕ) (front rest : Bytes) (v : ℕ) (c : RecordCursor)
    → AreBytes rest
    → take_word n (at front rest) ≡ (ok v, c)
    → (v < bound n) × After front rest (to_le_bytes n v) c
unfolding take_word
take_word-ok n front rest v c all h =
    let (xs, t, read, returned) =
      bind-ok (take_bytes n) (λ bytes. pure (from_le_bytes bytes)) (at front rest) h in
    let (left, was, size, now) = take_bytes-ok n front rest xs t read in
    let (these, others) = AreBytes-append xs left (subst AreBytes was all) in
    let value : from_le_bytes xs ≡ v = cc in
    let end_ : t ≡ c = cc in
    let piece : to_le_bytes n v ≡ xs =
      subst (λ k. to_le_bytes k v ≡ xs) size
        (subst (λ w. to_le_bytes (length xs) w ≡ xs) value (to_le_bytes-from_le_bytes xs these)) in
    (
      subst (λ k. v < bound k) size
          (subst (λ w. w < bound (length xs)) value (from_le_bytes-lt xs these)),
      record {
        left = left;
        was = rw piece was;
        left_bytes = others;
        now = rw piece (sym end_ ∙ now);
      },
    )

text_test-ok :
    (text : Bool) (ys : Bytes) (t : RecordCursor) {xs : Bytes} {c : RecordCursor}
    → if◌then◌else◌ {A = Call RecordCursor DecodeError Bytes} text (pure ys) (raise corrupt) t
      ≡ (ok xs, c)
    → (text ≡ true) × (ys ≡ xs) × (t ≡ c)
text_test-ok true ys t h = (refl, cc, cc)
text_test-ok false ys t h = absurd cc

pub take_text-ok :
    (n : ℕ) (front rest xs : Bytes) (c : RecordCursor)
    → AreBytes rest
    → take_text n (at front rest) ≡ (ok xs, c)
    → (length xs ≡ n) × (is_utf8 xs ≡ true) × After front rest xs c
unfolding take_text
take_text-ok n front rest xs c all h =
    let (ys, t, read, returned) =
      bind-ok (take_bytes n) (λ bytes. if is_utf8 bytes then pure bytes else raise corrupt)
        (at front rest) h in
    let (left, was, size, now) = take_bytes-ok n front rest ys t read in
    let (these, others) = AreBytes-append ys left (subst AreBytes was all) in
    let (text, same, end_) = text_test-ok (is_utf8 ys) ys t returned in
    (
      subst (λ w. length w ≡ n) same size,
      subst (λ w. is_utf8 w ≡ true) same text,
      record {
        left = left;
        was = subst (λ w. rest ≡ w ++ left) same was;
        left_bytes = others;
        now = sym end_ ∙ subst (λ w. t ≡ at (front ++ w) left) same now;
      },
    )

-- A read of `piece` at the head of a chain that returns, and the rest of the chain.
pub record Then {B : Type 0} (front rest piece : Bytes)
    (next : RecordCursor → Outcome DecodeError B × RecordCursor)
    (r : Outcome DecodeError B × RecordCursor) : Type 0 where
  pub left : Bytes
  pub was : rest ≡ piece ++ left
  pub left_bytes : AreBytes left
  pub goes_on : next (at (front ++ piece) left) ≡ r

module _ {B : Type 0} where
  resume :
      (front rest piece : Bytes) (next : RecordCursor → Outcome DecodeError B × RecordCursor)
      (c : RecordCursor) (r : Outcome DecodeError B × RecordCursor)
      → After front rest piece c
      → next c ≡ r
      → Then front rest piece next r
  resume front rest piece next c r after h = record {
    left = after.left;
    was = after.was;
    left_bytes = after.left_bytes;
    goes_on = subst (λ s. next s ≡ r) after.now h;
  }

  pub read_bytes :
      (n : ℕ) (f : Bytes → Reader B) (front rest : Bytes) {b : B} {c : RecordCursor}
      → AreBytes rest
      → (take_bytes n >>= f) (at front rest) ≡ (ok b, c)
      → (xs : Bytes) × Then front rest xs (f xs) (ok b, c)
  read_bytes n f front rest {b} {c} all h =
      let (xs, t, read, k) = bind-ok (take_bytes n) f (at front rest) h in
      let (left, was, size, now) = take_bytes-ok n front rest xs t read in
      let (these, others) = AreBytes-append xs left (subst AreBytes was all) in
      let after : After front rest xs t = record {
        left = left;
        was = was;
        left_bytes = others;
        now = now;
      } in
      (xs, resume front rest xs (f xs) t (ok b, c) after k)

  pub read_word :
      (n : ℕ) (f : ℕ → Reader B) (front rest : Bytes) {b : B} {c : RecordCursor}
      → AreBytes rest
      → (take_word n >>= f) (at front rest) ≡ (ok b, c)
      → (v : ℕ) × (v < bound n) × Then front rest (to_le_bytes n v) (f v) (ok b, c)
  read_word n f front rest {b} {c} all h =
      let (v, t, read, k) = bind-ok (take_word n) f (at front rest) h in
      let (fits, after) = take_word-ok n front rest v t all read in
      (v, fits, resume front rest (to_le_bytes n v) (f v) t (ok b, c) after k)

  pub read_text :
      (n : ℕ) (f : Bytes → Reader B) (front rest : Bytes) {b : B} {c : RecordCursor}
      → AreBytes rest
      → (take_text n >>= f) (at front rest) ≡ (ok b, c)
      → (xs : Bytes) × (length xs ≡ n) × (is_utf8 xs ≡ true) × Then front rest xs (f xs) (ok b, c)
  read_text n f front rest {b} {c} all h =
      let (xs, t, read, k) = bind-ok (take_text n) f (at front rest) h in
      let (size, text, after) = take_text-ok n front rest xs t all read in
      (xs, size, text, resume front rest xs (f xs) t (ok b, c) after k)
