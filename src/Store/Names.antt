-- ===== src/Store/Names.antt =====
-- The names of the files of the generations: `bookmarks_file_name` and `parse_generation_file_name` of
-- src/bookmarks.rs. A name is the bytes of its UTF-8 string.
use zorya.Common.{
  ℕ, zero, suc, ◌+◌, ◌-◌, ◌*◌, ◌/◌, ◌%◌, ◌<◌, ◌^◌, ◌≡◌, refl, ◌∙◌, Bool, true, false, not, Option,
  none, some, [], ◌∷◌, ◌++◌, ◌==◌, ◌||◌, ◌&&◌, leb, ltb, length, length-append, take, drop, arith,
  if◌then◌else◌, u64_max,
}
use zorya.Record.{Bytes, same_bytes}
use zorya.Record.Words.{same_bytes_refl}
use zorya.Record.Cursor.{take-append, drop-append_length}

-- "bookmarks-"
abbrev pub file_prefix : Bytes
file_prefix = 98 ∷ 111 ∷ 111 ∷ 107 ∷ 109 ∷ 97 ∷ 114 ∷ 107 ∷ 115 ∷ 45 ∷ []

-- ".bin"
abbrev pub file_suffix : Bytes
file_suffix = 46 ∷ 98 ∷ 105 ∷ 110 ∷ []

-- The last `n` decimal digits of a number, as `{generation:020}` prints a number of at most 20 digits.
unfoldable pub print_digits : ℕ → ℕ → Bytes
print_digits zero v = []
print_digits (suc n) v = print_digits n (v / 10) ++ ((48 + v % 10) ∷ [])

unfoldable pub bookmarks_file_name : ℕ → Bytes
bookmarks_file_name generation = file_prefix ++ (print_digits 20 generation ++ file_suffix)

-- `str::strip_prefix`
unfoldable pub strip_prefix : Bytes → Bytes → Option Bytes
strip_prefix start name =
    if same_bytes (take (length start) name) start then some (drop (length start) name) else none

-- `str::strip_suffix`
unfoldable pub strip_suffix : Bytes → Bytes → Option Bytes
strip_suffix end_ name =
    let front = length name - length end_ in
    if same_bytes (drop front name) end_ then some (take front name) else none

abbrev is_ascii_digit : ℕ → Bool
is_ascii_digit byte = leb 48 byte && leb byte 57

unfoldable pub all_digits : Bytes → Bool
all_digits [] = true
all_digits (b ∷ bs) = is_ascii_digit b && all_digits bs

-- The number that decimal digits write after the number `value`.
unfoldable pub digits_value : ℕ → Bytes → ℕ
digits_value value [] = value
digits_value value (b ∷ bs) = digits_value (value * 10 + (b - 48)) bs

-- `digits.parse::<u64>().ok()` of digits, and `(generation != 0).then_some(generation)`.
unfoldable pub parse_digits : Bytes → Option ℕ
parse_digits digits =
    if not (length digits == 20) || not (all_digits digits)
    then none
    else let generation = digits_value 0 digits in
      if ltb u64_max generation then none else if generation == 0 then none else some generation

abbrev pub and_then : {A B : Type 0} → Option A → (A → Option B) → Option B
and_then none f = none
and_then (some a) f = f a

unfoldable pub parse_generation_file_name : Bytes → Option ℕ
parse_generation_file_name name =
    and_then (strip_prefix file_prefix name)
      λ rest. and_then (strip_suffix file_suffix rest) λ digits. parse_digits digits

length-print_digits : (n v : ℕ) → length (print_digits n v) ≡ n
unfolding print_digits
length-print_digits zero v = refl
length-print_digits (suc n) v = omega (
  arith,
  length-append (print_digits n (v / 10)) ((48 + v % 10) ∷ []),
  length-print_digits n (v / 10),
)

all_digits-append : (xs ys : Bytes) → all_digits (xs ++ ys) ≡ (all_digits xs && all_digits ys)
unfolding all_digits
all_digits-append [] ys = refl
all_digits-append (x ∷ xs) ys = ground (arith, all_digits-append xs ys)

print_digits_digits : (n v : ℕ) → all_digits (print_digits n v) ≡ true
unfolding print_digits all_digits
print_digits_digits zero v = refl
print_digits_digits (suc n) v =
    all_digits-append (print_digits n (v / 10)) ((48 + v % 10) ∷ [])
    ∙ ground (arith, print_digits_digits n (v / 10))

digits_value-append :
    (value : ℕ) (xs : Bytes) (b : ℕ)
    → digits_value value (xs ++ (b ∷ [])) ≡ digits_value value xs * 10 + (b - 48)
unfolding digits_value
digits_value-append value [] b = refl
digits_value-append value (x ∷ xs) b = digits_value-append (value * 10 + (x - 48)) xs b

-- The numbers of `n` digits.
decimal_bound : ℕ → ℕ
decimal_bound zero = 1
decimal_bound (suc n) = 10 * decimal_bound n

digits_value-print_digits : (n v : ℕ) → v < decimal_bound n → digits_value 0 (print_digits n v) ≡ v
unfolding digits_value print_digits decimal_bound
digits_value-print_digits zero v h = omega arith
digits_value-print_digits (suc n) v h =
    digits_value-append 0 (print_digits n (v / 10)) (48 + v % 10)
    ∙ omega (arith, digits_value-print_digits n (v / 10) (omega arith))

strip_prefix_lem : (start rest : Bytes) → strip_prefix start (start ++ rest) ≡ some rest
unfolding strip_prefix
strip_prefix_lem start rest =
    simp (take-append start rest, drop-append_length start rest, same_bytes_refl start)

strip_suffix_lem : (front end_ : Bytes) → strip_suffix end_ (front ++ end_) ≡ some front
unfolding strip_suffix
strip_suffix_lem front end_ =
    let cut : length (front ++ end_) - length end_ ≡ length front =
      omega (arith, length-append front end_) in
    simp (cut, take-append front end_, drop-append_length front end_, same_bytes_refl end_)

decimal_bound_20 : decimal_bound 20 ≡ 100000000000000000000
unfolding decimal_bound
decimal_bound_20 = refl

parse_digits_lem : (v : ℕ) → 0 < v → v < 2 ^ 64 → parse_digits (print_digits 20 v) ≡ some v
unfolding parse_digits
parse_digits_lem v positive fits =
    let value = digits_value-print_digits 20 v (rw decimal_bound_20 (omega arith)) in
    let in_range : ltb u64_max v ≡ false = ground arith in
    let nonzero : (v == 0) ≡ false = ground arith in
    simp (length-print_digits 20 v, print_digits_digits 20 v, value, in_range, nonzero)

-- The name of the file of a generation from 1 to 2^64 - 1 is parsed to that generation.
pub parse_generation_file_name-bookmarks_file_name :
    (generation : ℕ)
    → 0 < generation
    → generation < 2 ^ 64
    → parse_generation_file_name (bookmarks_file_name generation) ≡ some generation
unfolding parse_generation_file_name bookmarks_file_name
parse_generation_file_name-bookmarks_file_name generation positive fits = simp (
  bookmarks_file_name,
  strip_prefix_lem file_prefix (print_digits 20 generation ++ file_suffix),
  strip_suffix_lem (print_digits 20 generation) file_suffix,
  parse_digits_lem generation positive fits,
)
