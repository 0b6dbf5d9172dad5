-- ===== src/Record/Words.antt =====
-- Little-endian words, the checksum and the equality of byte strings.
use zorya.Common.{
  ℕ, zero, suc, ◌+◌, ◌*◌, ◌/◌, ◌%◌, ◌^◌, ◌<◌, ◌≡◌, refl, ap, true, [], ◌∷◌, arith, ==_refl, length,
  All,
}
use zorya.Record.{
  Bytes, to_le_bytes, from_le_bytes, same_bytes, checksum64, hash_byte, checksum_from,
}

abbrev pub AreBytes : Bytes → Type 0
AreBytes = All (λ b. b < 256)

pub length-to_le_bytes : (n v : ℕ) → length (to_le_bytes n v) ≡ n
unfolding to_le_bytes
length-to_le_bytes zero v = refl
length-to_le_bytes (suc n) v = omega (arith, length-to_le_bytes n (v / 256))

pub to_le_bytes-AreBytes : (n v : ℕ) → AreBytes (to_le_bytes n v)
unfolding to_le_bytes
to_le_bytes-AreBytes zero v = tt
to_le_bytes-AreBytes (suc n) v = (omega arith, to_le_bytes-AreBytes n (v / 256))

-- The numbers of `n` bytes.
pub bound : ℕ → ℕ
bound zero = 1
bound (suc n) = 256 * bound n

pub from_le_bytes-to_le_bytes : (n v : ℕ) → v < bound n → from_le_bytes (to_le_bytes n v) ≡ v
unfolding to_le_bytes from_le_bytes bound
from_le_bytes-to_le_bytes zero v h = omega arith
from_le_bytes-to_le_bytes (suc n) v h =
    omega (arith, from_le_bytes-to_le_bytes n (v / 256) (omega arith))

pub to_le_bytes-from_le_bytes :
    (bytes : Bytes) → AreBytes bytes → to_le_bytes (length bytes) (from_le_bytes bytes) ≡ bytes
unfolding to_le_bytes from_le_bytes
to_le_bytes-from_le_bytes [] h = refl
to_le_bytes-from_le_bytes (b ∷ bs) h =
    let low : (b + 256 * from_le_bytes bs) % 256 ≡ b = omega arith in
    let high : (b + 256 * from_le_bytes bs) / 256 ≡ from_le_bytes bs = omega arith in
    rw (low, high) (ap (◌∷◌ b) (to_le_bytes-from_le_bytes bs h.1))

pub from_le_bytes-lt : (bytes : Bytes) → AreBytes bytes → from_le_bytes bytes < bound (length bytes)
unfolding from_le_bytes bound
from_le_bytes-lt [] h = omega arith
from_le_bytes-lt (b ∷ bs) h = omega (arith, from_le_bytes-lt bs h.1)

pub bound_8 : bound 8 ≡ 2 ^ 64
unfolding bound
bound_8 = refl

pub bound_4 : bound 4 ≡ 2 ^ 32
unfolding bound
bound_4 = refl

checksum_from-lt : (hash : ℕ) (bytes : Bytes) → hash < 2 ^ 64 → checksum_from hash bytes < 2 ^ 64
unfolding checksum_from hash_byte
checksum_from-lt hash [] h = h
checksum_from-lt hash (b ∷ bs) h = checksum_from-lt (hash_byte hash b) bs (omega arith)

pub checksum64-lt : (bytes : Bytes) → checksum64 bytes < bound 8
unfolding checksum64
checksum64-lt bytes = rw bound_8 (checksum_from-lt 0xcbf29ce484222325 bytes (omega arith))

pub same_bytes_refl : (bytes : Bytes) → same_bytes bytes bytes ≡ true
unfolding same_bytes
same_bytes_refl [] = refl
same_bytes_refl (b ∷ bs) = rw (==_refl b) (same_bytes_refl bs)

pub same_bytes-eq : (xs ys : Bytes) → same_bytes xs ys ≡ true → xs ≡ ys
unfolding same_bytes
same_bytes-eq [] [] h = refl
same_bytes-eq [] (y ∷ ys) h = cc
same_bytes-eq (x ∷ xs) [] h = cc
same_bytes-eq (x ∷ xs) (y ∷ ys) h = ground (arith, same_bytes-eq xs ys)
