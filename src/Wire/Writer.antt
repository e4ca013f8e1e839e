-- ===== src/Wire/Writer.antt =====
-- The writing half of the generated code: `encodeVarint…`, `sov…` and the statements that each
-- `MarshalToSizedBuffer` repeats. The buffer is written from its end towards its front.
use yui_ibc_solidity.Prelude.{
  ℕ, zero, suc, ◌+◌, ◌-◌, ◌/◌, ◌%◌, Bytes, List, [], ◌∷◌, ◌++◌, Option, none, some, ltb, leb, ◌==◌,
  if◌then◌else◌, length, take, replicate, bit_or,
}

-- The slice `dAtA` with the index `i`: `i` bytes in front, still zero, and the bytes from `i` on.
pub record Buffer : Type 0 where
  pub index : ℕ
  pub tail : Bytes

-- Statements that move `i` down. `none` is a panic: an index out of range.
abbrev pub Writer : Type 0
Writer = Buffer → Option Buffer

infixl 5 ◌>>=◌ ◌>>◌
abbrev pub ◌>>=◌ {ℓ κ} : {A : Type ℓ} {B : Type κ} → Option A → (A → Option B) → Option B
none >>= f = none
some a >>= f = f a

unfoldable pub ◌>>◌ : Writer → Writer → Writer
◌>>◌ f g b = f b >>= g

-- Nothing to write.
abbrev pub pass : Writer
pass b = some b

-- `math/bits.Len64`: the number of binary digits, 64 at most.
unfoldable pub bit_length : ℕ → ℕ → ℕ
bit_length zero x = 0
bit_length (suc k) x = if x == 0 then 0 else suc (bit_length k (x / 2))

-- `sov…`: the bytes that a varint takes.
unfoldable pub sov : ℕ → ℕ
sov x = (bit_length 64 (bit_or x 1) + 6) / 7

-- The loop of `encodeVarint…`, on the bytes from `offset` on.
unfoldable pub store_varint : Bytes → ℕ → Option Bytes
store_varint [] v = none
store_varint (x ∷ xs) v =
    let more = store_varint xs (v / 128) in
    if leb 128 v then (more >>= λ ys. some (bit_or (v % 128) 0x80 ∷ ys)) else some (v % 256 ∷ xs)

unfoldable pub encode_varint : ℕ → Writer
unfolding store_varint
encode_varint v b =
    if ltb b.index (sov v)
    then none
    else (store_varint (replicate (sov v) 0 ++ b.tail) v >>= λ ys.
        some (record { index = b.index - sov v; tail = ys }))

-- `i--; dAtA[i] = x`
unfoldable pub put_byte : ℕ → Writer
put_byte x b =
    if b.index == 0 then none else some (record { index = b.index - 1; tail = x ∷ b.tail })

-- `i -= len(s); copy(dAtA[i:], s)`
unfoldable pub put_slice : Bytes → Writer
put_slice s b =
    if ltb b.index (length s)
    then none
    else some (record { index = b.index - length s; tail = s ++ b.tail })

-- A non-empty string or bytes field.
unfoldable pub put_chunk : ℕ → Bytes → Writer
unfolding ◌>>◌ put_slice encode_varint put_byte
put_chunk tag s = do put_slice s; encode_varint (length s); put_byte tag

-- `if len(s) > 0 { … }`
unfoldable pub put_bytes : ℕ → Bytes → Writer
unfolding put_chunk
put_bytes tag s = if ltb 0 (length s) then put_chunk tag s else pass

-- `if v != 0 { … }`
unfoldable pub put_uint : ℕ → ℕ → Writer
unfolding ◌>>◌ encode_varint put_byte
put_uint tag v = if v == 0 then pass else do encode_varint v; put_byte tag

-- `uint64(x)` of an int32 bit pattern: the sign bit is extended.
unfoldable pub sign_extend : ℕ → ℕ
sign_extend x = if ltb x 0x8000_0000 then x else x + 0xffff_ffff_0000_0000

-- `if x != 0 { … uint64(x) … }` for an enum.
unfoldable pub put_enum : ℕ → ℕ → Writer
unfolding ◌>>◌ encode_varint put_byte sign_extend
put_enum tag x = if x == 0 then pass else do encode_varint (sign_extend x); put_byte tag

-- The loop over a repeated string or bytes field, from its last element to its first.
unfoldable pub put_repeated : ℕ → List Bytes → Writer
unfolding ◌>>◌ put_chunk
put_repeated tag [] = pass
put_repeated tag (s ∷ ss) = do put_repeated tag ss; put_chunk tag s

-- An embedded message, written by its own `MarshalToSizedBuffer` to `dAtA[:i]`.
unfoldable pub put_message : ℕ → Writer → Writer
unfolding ◌>>◌ encode_varint put_byte
put_message tag marshal b = do
  sub ← marshal (record { index = b.index; tail = [] })
  let size = b.index - sub.index
  (encode_varint size >> put_byte tag)
      (record { index = b.index - size; tail = sub.tail ++ b.tail })

-- A pointer to a message: `if m.F != nil { … }`.
unfoldable pub put_option {ℓ} : {F : Type ℓ} → ℕ → (F → Writer) → Option F → Writer
unfolding put_message
put_option tag marshal none = pass
put_option tag marshal (some x) = put_message tag (marshal x)

-- The loop over a repeated message field.
unfoldable pub put_messages {ℓ} : {F : Type ℓ} → ℕ → (F → Writer) → List F → Writer
unfolding ◌>>◌ put_message
put_messages tag marshal [] = pass
put_messages tag marshal (x ∷ xs) = do put_messages tag marshal xs; put_message tag (marshal x)

-- `Marshal`: a buffer of `Size()` zeros is filled, and `dAtA[:n]` returned for the `n` bytes written.
unfoldable pub marshal : ℕ → Writer → Option Bytes
marshal size write = do
  b ← write (record { index = size; tail = [] })
  some (take (size - b.index) (replicate b.index 0 ++ b.tail))

-- The terms of `Size()`: of a string, of an integer, of an embedded message of size `l`.
unfoldable pub size_chunk : ℕ → ℕ
unfolding sov
size_chunk l = 1 + l + sov l

unfoldable pub size_bytes : Bytes → ℕ
unfolding size_chunk
size_bytes s = if ltb 0 (length s) then size_chunk (length s) else 0

unfoldable pub size_uint : ℕ → ℕ
unfolding sov
size_uint v = if v == 0 then 0 else 1 + sov v

unfoldable pub size_repeated : List Bytes → ℕ
unfolding size_chunk
size_repeated [] = 0
size_repeated (s ∷ ss) = size_chunk (length s) + size_repeated ss

unfoldable pub size_enum : ℕ → ℕ
unfolding sov sign_extend
size_enum x = if x == 0 then 0 else 1 + sov (sign_extend x)

unfoldable pub size_option {ℓ} : {F : Type ℓ} → (F → ℕ) → Option F → ℕ
unfolding size_chunk
size_option size none = 0
size_option size (some x) = size_chunk (size x)

unfoldable pub size_messages {ℓ} : {F : Type ℓ} → (F → ℕ) → List F → ℕ
unfolding size_chunk
size_messages size [] = 0
size_messages size (x ∷ xs) = size_chunk (size x) + size_messages size xs
