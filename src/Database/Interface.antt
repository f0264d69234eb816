-- ===== src/Database/Interface.antt =====
-- What the database takes from other libraries: `bincode`, which writes values as bytes and reads
-- them back, and the hash of a public key.
use blockscape.Event.{RawEvents}
use blockscape.Database.Key.{KeyBytes}
use blockscape.Base.{ℕ, ◌<◌, ◌^◌, ◌≡◌, [], ◌∷◌, Option, some, Bin}

-- `serialize` and `deserialize` at one type, on the values that fit what is written. What was
-- written is read back.
pub record Codec (A : Type 0) (Fits : A → Type 0) : Type 0 where
  pub serialize : A → Bin
  pub deserialize : Bin → Option A
  pub deserialize-serialize : (a : A) → Fits a → deserialize (serialize a) ≡ some a

-- A list of events has its ticks, numbers of 64 bits, and bytes.
abbrev pub TicksFit : RawEvents → Type 0
TicksFit [] = Unit {0}
TicksFit (entry ∷ events) = (entry.0 < 2 ^ 64) × TicksFit events

-- Different numbers of 160 and of 64 bits are written differently as keys.
pub record Externals : Type 0 where
  pub key_bytes : KeyBytes
  pub of_u160_inj :
      (a b : ℕ) → a < 2 ^ 160 → b < 2 ^ 160 → key_bytes.of_u160 a ≡ key_bytes.of_u160 b → a ≡ b
  pub of_u64_inj :
      (a b : ℕ) → a < 2 ^ 64 → b < 2 ^ 64 → key_bytes.of_u64 a ≡ key_bytes.of_u64 b → a ≡ b
  pub u64 : Codec ℕ (λ n. n < 2 ^ 64)
  pub events : Codec RawEvents TicksFit
  pub hash_pub_key : Bin → ℕ
