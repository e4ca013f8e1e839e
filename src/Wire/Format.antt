-- ===== src/Wire/Format.antt =====
-- The wire format, described forwards and with no buffer: what the code is held against.
use yui_ibc_solidity.Prelude.{
  ℕ, zero, suc, ◌+◌, ◌/◌, ◌%◌, ◌<◌, ◌^◌, Bytes, List, [], ◌∷◌, ◌++◌, ltb, ◌==◌, if◌then◌else◌,
  length, Option, none, some,
}
use yui_ibc_solidity.Wire.Writer.{sign_extend}

abbrev pub IsU64 : ℕ → Type 0
IsU64 v = v < 2 ^ 64

abbrev pub IsU32 : ℕ → Type 0
IsU32 v = v < 2 ^ 32

-- A length that an `int` holds.
abbrev pub IsLength : ℕ → Type 0
IsLength n = n < 2 ^ 63

-- Groups of seven bits, the lowest first; all but the last have the top bit set.
unfoldable pub groups : ℕ → ℕ → Bytes
groups zero v = v ∷ []
groups (suc k) v =
    let rest = groups k (v / 128) in if ltb v 128 then v ∷ [] else (v % 128 + 128) ∷ rest

unfoldable pub varint : ℕ → Bytes
unfolding groups
varint v = groups 9 v

-- A tag, the length of the bytes, and the bytes.
unfoldable pub chunk : ℕ → Bytes → Bytes
chunk tag s = tag ∷ (varint (length s) ++ s)

-- A string or bytes field; an empty one is left out.
unfoldable pub bytes_field : ℕ → Bytes → Bytes
unfolding chunk
bytes_field tag s = if ltb 0 (length s) then chunk tag s else []

-- An integer field; a zero is left out.
unfoldable pub uint_field : ℕ → ℕ → Bytes
uint_field tag v = if v == 0 then [] else tag ∷ varint v

-- An enum field: an int32, written as the 64-bit number of the same sign.
unfoldable pub enum_field : ℕ → ℕ → Bytes
unfolding sign_extend
enum_field tag x = if x == 0 then [] else tag ∷ varint (sign_extend x)

unfoldable pub repeated_field : ℕ → List Bytes → Bytes
unfolding chunk
repeated_field tag [] = []
repeated_field tag (s ∷ ss) = chunk tag s ++ repeated_field tag ss

-- A message field behind a pointer; a null pointer is left out.
unfoldable pub option_field {ℓ} : {F : Type ℓ} → ℕ → (F → Bytes) → Option F → Bytes
unfolding chunk
option_field tag encoding none = []
option_field tag encoding (some x) = chunk tag (encoding x)

unfoldable pub messages_field {ℓ} : {F : Type ℓ} → ℕ → (F → Bytes) → List F → Bytes
unfolding chunk
messages_field tag encoding [] = []
messages_field tag encoding (x ∷ xs) = chunk tag (encoding x) ++ messages_field tag encoding xs
