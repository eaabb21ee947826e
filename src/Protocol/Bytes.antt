-- ===== src/Protocol/Bytes.antt =====
-- encoding/binary in little-endian order, and bytes.Reader, as far as protocol.go uses them. A byte
-- is a number below 256; the reader's state is what it has not yet read.
use cat_tag.Common.{
  ℕ, ◌+◌, ◌-◌, ◌*◌, ◌/◌, ◌%◌, ◌<◌, List, [], ◌∷◌, ◌++◌, Option, none, some, length, take, drop,
  replicate,
}

abbrev pub IsByte : ℕ → Type 0
IsByte b = b < 256

abbrev pub IsU16 : ℕ → Type 0
IsU16 v = v < 65536

abbrev pub u32_mod : ℕ
u32_mod = 4294967296

abbrev pub IsU32 : ℕ → Type 0
IsU32 v = v < u32_mod

abbrev pub Bytes : Type 0
Bytes = List ℕ

infixl 5 ◌>>=◌
abbrev pub ◌>>=◌ {ℓ κ} : {A : Type ℓ} {B : Type κ} → Option A → (A → Option B) → Option B
none >>= f = none
some a >>= f = f a

abbrev pub put_u8 : ℕ → Bytes
put_u8 v = v % 256 ∷ []

abbrev pub put_u16 : ℕ → Bytes
put_u16 v = v % 256 ∷ v / 256 % 256 ∷ []

abbrev pub put_u32 : ℕ → Bytes
put_u32 v = v % 256 ∷ v / 256 % 256 ∷ v / 65536 % 256 ∷ v / 16777216 % 256 ∷ []

abbrev pub read_u8 : Bytes → Option (ℕ × Bytes)
read_u8 (a ∷ r) = some (a, r)
read_u8 _ = none

abbrev pub read_u16 : Bytes → Option (ℕ × Bytes)
read_u16 (a ∷ b ∷ r) = some (a + 256 * b, r)
read_u16 _ = none

abbrev pub read_u32 : Bytes → Option (ℕ × Bytes)
read_u32 (a ∷ b ∷ c ∷ d ∷ r) = some (a + 256 * b + 65536 * c + 16777216 * d, r)
read_u32 _ = none

-- `Read` into a fresh slice of `n` bytes: at the end of the input it fails; a short read leaves the
-- rest of the slice at zero.
abbrev pub read_into : ℕ → Bytes → Option (Bytes × Bytes)
read_into n [] = none
read_into n (b ∷ r) = some (take n (b ∷ r) ++ replicate (n - length (b ∷ r)) 0, drop n (b ∷ r))
