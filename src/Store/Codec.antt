-- ===== src/Store/Codec.antt =====
-- What a store needs of the record that it keeps.
use zorya.Common.{ℕ, ◌≤◌, length, ◌<◌, ◌^◌, ◌≡◌, Outcome, ok}
use zorya.Record.{Bytes, DecodeError}

-- The operations on a snapshot that a store calls, and the largest record that it reads whole.
pub record Codec (Snapshot E : Type 0) : Type 0 where
  pub default : Snapshot
  pub limit : ℕ
  pub generation : Snapshot → ℕ
  pub with_generation : Snapshot → ℕ → Snapshot
  pub validate : Snapshot → Outcome E (Unit {0})
  pub encode : Snapshot → ℕ → Outcome E Bytes
  pub decode : Bytes → ℕ → Outcome DecodeError Snapshot

-- A snapshot that can be saved is written if it is valid, and is read back from what is written, at the
-- generation it is written for.
pub record CodecLaws {Snapshot E : Type 0} (codec : Codec Snapshot E) (CanSave : Snapshot → Type 0)
    : Type 0 where
  pub generation-with_generation :
      (s : Snapshot) (g : ℕ) → codec.generation (codec.with_generation s g) ≡ g
  pub generation-decode :
      (s : Snapshot) (g : ℕ) (bytes : Bytes) → codec.decode bytes g ≡ ok s → codec.generation s ≡ g
  pub encode-ok :
      (s : Snapshot) (g : ℕ)
      → CanSave s
      → codec.validate s ≡ ok tt
      → 0 < g
      → g < 2 ^ 64
      → (bytes : Bytes) × (codec.encode s g ≡ ok bytes)
  pub length-encode :
      (s : Snapshot) (g : ℕ) (bytes : Bytes)
      → codec.encode s g ≡ ok bytes
      → length bytes ≤ codec.limit
  pub decode-encode :
      (s : Snapshot) (g : ℕ) (bytes : Bytes)
      → CanSave s
      → 0 < g
      → g < 2 ^ 64
      → codec.encode s g ≡ ok bytes
      → codec.decode bytes g ≡ ok (codec.with_generation s g)
