-- ===== src/Wire/Size.antt =====
-- The `Size()` terms count the bytes of the format.
use yui_ibc_solidity.Prelude.{ℕ, ◌≡◌, arith, Bytes, length, length-append}
use yui_ibc_solidity.Wire.Writer.{size_chunk, size_bytes, size_uint, size_enum, sign_extend}
use yui_ibc_solidity.Wire.Sov.{sov-varint}
use yui_ibc_solidity.Wire.WriterLaws.{sign_extend-lt}
use yui_ibc_solidity.Wire.Format.{IsU32, IsU64, enum_field, varint, chunk, bytes_field, uint_field}

-- The terms of `Size()` count the bytes of the format.
pub size_chunk-length :
    (tag : ℕ) (s : Bytes) → IsU64 (length s) → size_chunk (length s) ≡ length (chunk tag s)
unfolding size_chunk chunk
size_chunk-length tag s h =
    omega (arith, sov-varint (length s) h, length-append {0} (varint (length s)) s)

pub size_bytes-length :
    (tag : ℕ) (s : Bytes) → IsU64 (length s) → size_bytes s ≡ length (bytes_field tag s)
unfolding size_bytes bytes_field
size_bytes-length tag s h = unfold size_chunk chunk in ground (arith, size_chunk-length tag s h)

pub size_uint-length : (tag v : ℕ) → IsU64 v → size_uint v ≡ length (uint_field tag v)
unfolding size_uint uint_field
size_uint-length tag v h = ground (arith, sov-varint v h)

pub size_enum-length : (tag x : ℕ) → IsU32 x → size_enum x ≡ length (enum_field tag x)
unfolding size_enum enum_field
size_enum-length tag x h = ground (arith, sov-varint (sign_extend x) (sign_extend-lt x h))
