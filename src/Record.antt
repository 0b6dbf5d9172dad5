-- ===== src/Record.antt =====
-- What the record files of a profile are made of, as src/bookmarks.rs has it: little-endian words,
-- the checksum, the cursor that reads a record, and UTF-8 text. src/browsing_history.rs has the same
-- functions, over an error of its own.
pub mod Check
pub mod Words
pub mod Cursor
pub mod Reads
use Prim.Native.Nat.{bit_xor}
use zorya.Common.{
  ℕ, zero, suc, ◌+◌, ◌-◌, ◌*◌, ◌/◌, ◌%◌, ◌^◌, Bool, true, false, not, Option, none, some, List, [],
  ◌∷◌, ◌++◌, ◌&&◌, ◌==◌, ltb, leb, length, take, drop, checked_add, if◌then◌else◌, Outcome, ok, err,
  Call, ◌>>=◌, pure, raise, gets, modify, ◌>>◌,
}

-- A byte string.
abbrev pub Bytes : Type 0
Bytes = List ℕ

-- `to_le_bytes` of a word of `n` bytes.
unfoldable pub to_le_bytes : ℕ → ℕ → Bytes
to_le_bytes zero v = []
to_le_bytes (suc n) v = v % 256 ∷ to_le_bytes n (v / 256)

-- `from_le_bytes`
unfoldable pub from_le_bytes : Bytes → ℕ
from_le_bytes [] = 0
from_le_bytes (b ∷ bs) = b + 256 * from_le_bytes bs

-- `==` on byte strings.
unfoldable pub same_bytes : Bytes → Bytes → Bool
same_bytes [] [] = true
same_bytes [] (b ∷ bs) = false
same_bytes (a ∷ rest) [] = false
same_bytes (a ∷ rest) (b ∷ bs) = a == b && same_bytes rest bs

unfoldable pub hash_byte : ℕ → ℕ → ℕ
hash_byte hash byte = bit_xor hash byte * 0x100000001b3 % 2 ^ 64

unfoldable pub checksum_from : ℕ → Bytes → ℕ
checksum_from hash [] = hash
checksum_from hash (b ∷ bs) = checksum_from (hash_byte hash b) bs

-- `checksum64`: `wrapping_mul` wraps at 2^64.
unfoldable pub checksum64 : Bytes → ℕ
unfolding checksum_from hash_byte
checksum64 bytes = checksum_from 0xcbf29ce484222325 bytes

-- `extend_from_slice` with each of the pieces, and then with the bytes that follow.
abbrev pub extend : List Bytes → Bytes → Bytes
extend [] rest = rest
extend (piece ∷ pieces) rest = piece ++ extend pieces rest

pub data DecodeError : Type 0 where
  corrupt : DecodeError
  unsupported_schema : ℕ → DecodeError

pub record RecordCursor : Type 0 where
  pub bytes : Bytes
  pub position : ℕ

abbrev pub Reader : Type 0 → Type 0
Reader A = Call RecordCursor DecodeError A

unfoldable pub new : Bytes → RecordCursor
new bytes = record { bytes = bytes; position = 0 }

-- `take` of the cursor. The sum is one of `usize` values that stay below the record's limit and 2^32.
unfoldable pub take_bytes : ℕ → Reader Bytes
take_bytes length_ cursor =
    let end_ = cursor.position + length_ in
    if leb end_ (length cursor.bytes)
    then (ok (take length_ (drop cursor.position cursor.bytes)), record cursor { position = end_ })
    else (err corrupt, cursor)

unfoldable pub is_finished : RecordCursor → Bool
is_finished cursor = cursor.position == length cursor.bytes

-- `u64::from_le_bytes(cursor.take_array::<8>()?)`, and the like for 4 bytes.
unfoldable pub take_word : ℕ → Reader ℕ
take_word n = do bytes ← take_bytes n; pure (from_le_bytes bytes)

-- The bytes that may come next: how many of the character are missing, and the range of the next.
pub record Utf8State : Type 0 where
  pub missing : ℕ
  pub low : ℕ
  pub high : ℕ

abbrev between : ℕ → ℕ → ℕ → Bool
between low high b = leb low b && leb b high

abbrev expect_bytes : ℕ → ℕ → ℕ → Option Utf8State
expect_bytes missing low high = some (record { missing = missing; low = low; high = high })

-- The first byte of a character.
first_byte : ℕ → Option Utf8State
first_byte b =
    if leb b 0x7f
    then expect_bytes 0 0 0
    else if between 0xc2 0xdf b
    then expect_bytes 1 0x80 0xbf
    else if b == 0xe0
    then expect_bytes 2 0xa0 0xbf
    else if b == 0xed
    then expect_bytes 2 0x80 0x9f
    else if between 0xe1 0xef b
    then expect_bytes 2 0x80 0xbf
    else if b == 0xf0
    then expect_bytes 3 0x90 0xbf
    else if between 0xf1 0xf3 b
    then expect_bytes 3 0x80 0xbf
    else if b == 0xf4
    then expect_bytes 3 0x80 0x8f
    else none

next_byte : Utf8State → ℕ → Option Utf8State
next_byte s b =
    if s.missing == 0
    then first_byte b
    else if between s.low s.high b
    then expect_bytes (s.missing - 1) 0x80 0xbf
    else none

utf8_from : Utf8State → Bytes → Bool
utf8_from s [] = s.missing == 0
utf8_from s (b ∷ bs) = elim (next_byte s b) [ none ↦ false | some s' ↦ utf8_from s' bs ]

-- `std::str::from_utf8(bytes).is_ok()`
unfoldable pub is_utf8 : Bytes → Bool
unfolding utf8_from next_byte first_byte
is_utf8 bytes = utf8_from (record { missing = 0; low = 0; high = 0 }) bytes

-- `str::from_utf8(cursor.take(length)?)`
unfoldable pub take_text : ℕ → Reader Bytes
take_text length_ = do
  bytes ← take_bytes length_
  if is_utf8 bytes then pure bytes else raise corrupt
