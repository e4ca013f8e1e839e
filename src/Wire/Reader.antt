-- ===== src/Wire/Reader.antt =====
-- The reading half of the generated code: the varint loop, the length-delimited block, `skip…` and
-- the loop of `Unmarshal`. The bytes that a decoder has not reached, `dAtA[iNdEx:]`, are a list; `l`
-- is `len(dAtA)`, so that `iNdEx` is `l` less the length of that list. A negative int is a number
-- from 2 ^ 63 on.
use yui_ibc_solidity.Prelude.{
  ℕ, zero, suc, ◌+◌, ◌-◌, ◌*◌, ◌/◌, ◌%◌, ◌^◌, Bytes, [], ◌∷◌, Option, none, some, Bool, ltb, leb,
  ◌==◌, ◌||◌, if◌then◌else◌, length, take, drop, bit_or,
}
use yui_ibc_solidity.Wire.Result.{
  Result, ok, err, panic, stuck, ◌>>=◌, int_overflow, unexpected_eof, invalid_length,
  unexpected_end_of_group, end_group, illegal_tag, wrong_wire_type, illegal_wire_type,
}

-- `for shift := uint(0); ; shift += 7 { … v |= T(b&0x7F) << shift … }` into an integer of `w` bits.
unfoldable pub read_varint : ℕ → Bytes → ℕ → ℕ → Result (ℕ × Bytes)
read_varint w [] v shift = if leb 64 shift then err int_overflow else err unexpected_eof
read_varint w (b ∷ rest) v shift =
    let v' = bit_or v (b % 128 * 2 ^ shift % 2 ^ w) in
    let more = read_varint w rest v' (shift + 7) in
    if leb 64 shift then err int_overflow else if ltb b 0x80 then ok (v', rest) else more

-- `a < b` of two ints.
unfoldable pub int_lt : ℕ → ℕ → Bool
int_lt a b = ltb ((a + 2 ^ 63) % 2 ^ 64) ((b + 2 ^ 63) % 2 ^ 64)

-- `dAtA[iNdEx:postIndex]` and the bytes from `postIndex` on, where `rest` is `dAtA[iNdEx:]`. Bounds that are
-- negative, in the wrong order or past the end panic; the slice's capacity is taken to be its length.
unfoldable pub slice : ℕ → ℕ → ℕ → Bytes → Result (Bytes × Bytes)
slice l index post_index rest =
    if leb (2 ^ 63) post_index || ltb post_index index || ltb l post_index
    then panic
    else ok (take (post_index - index) rest, drop (post_index - index) rest)

-- `postIndex` and the checks on it, for a length that has been read, and the slice up to it.
unfoldable pub read_slice : ℕ → ℕ → Bytes → Result (Bytes × Bytes)
unfolding int_lt slice
read_slice l n rest =
    let index = l - length rest in
    let post_index = (index + n) % 2 ^ 64 in
    if leb (2 ^ 63) n
    then err invalid_length
    else if leb (2 ^ 63) post_index
    then err invalid_length
    else if int_lt l post_index
    then err unexpected_eof
    else slice l index post_index rest

-- A string, bytes or message field behind its tag.
unfoldable pub read_bytes : ℕ → Bytes → Result (Bytes × Bytes)
unfolding read_varint read_slice
read_bytes l rest = do (n, behind) ← read_varint 64 rest 0 0; read_slice l n behind

-- Case 0 of `skip…`: the bytes up to the first below 0x80, at most ten.
unfoldable pub skip_varint : Bytes → ℕ → Result Bytes
skip_varint [] shift = if leb 64 shift then err int_overflow else err unexpected_eof
skip_varint (b ∷ rest) shift =
    let more = skip_varint rest (shift + 7) in
    if leb 64 shift then err int_overflow else if ltb b 0x80 then ok rest else more

-- The state of the loop of `skip…`: `iNdEx`, which may pass the end, and `depth`.
pub record SkipState : Type 0 where
  pub index : ℕ
  pub depth : ℕ

-- `iNdEx += n`
unfoldable pub advance : ℕ → SkipState → SkipState
advance n s = record s { index = (s.index + n) % 2 ^ 64 }

-- The bytes from `iNdEx` on, for a loop that reads `dAtA[iNdEx]` next: a negative index panics there, and past the
-- end there is none.
unfoldable pub bytes_at : Bytes → ℕ → Result Bytes
bytes_at src index = if leb (2 ^ 63) index then panic else ok (drop index src)

-- `switch wireType` of `skip…`.
unfoldable pub skip_value : Bytes → ℕ → SkipState → Result SkipState
unfolding skip_varint read_varint advance bytes_at
skip_value src ty s =
    if ty == 0
    then (do
      rest ← bytes_at src s.index
      behind ← skip_varint rest 0
      ok (advance (length rest - length behind) s))
    else if ty == 1
    then ok (advance 8 s)
    else if ty == 2
    then (do
      rest ← bytes_at src s.index
      (n, behind) ← read_varint 64 rest 0 0
      if leb (2 ^ 63) n
          then err invalid_length
          else ok (advance n (advance (length rest - length behind) s)))
    else if ty == 3
    then ok (record s { depth = s.depth + 1 })
    else if ty == 4
    then (if s.depth == 0
        then err unexpected_end_of_group
        else ok (record s { depth = s.depth - 1 }))
    else if ty == 5
    then ok (advance 4 s)
    else err illegal_wire_type

-- The loop of `skip…`, with fuel; it returns the number of bytes to skip.
unfoldable pub skip_loop : ℕ → Bytes → SkipState → Result ℕ
unfolding skip_value int_lt
skip_loop zero src s = stuck
skip_loop (suc fuel) src s =
    let round : Result ℕ = (do
      rest ← bytes_at src s.index
      (wire, behind) ← read_varint 64 rest 0 0
      t ← skip_value src (wire % 8) (advance (length rest - length behind) s)
      let next = skip_loop fuel src t
      if leb (2 ^ 63) t.index
          then err invalid_length
          else if t.depth == 0
          then ok t.index
          else next) in
    if int_lt s.index (length src) then round else err unexpected_eof

-- `skip…`: each round takes a byte at least, so one round more than there are bytes is enough.
unfoldable pub skip : Bytes → Result ℕ
unfolding skip_loop
skip src = skip_loop (suc (length src)) src (record { index = 0; depth = 0 })

-- `iNdEx = next` before the loop's test and its read of `dAtA[iNdEx]`: a negative index panics there, and one past
-- the end ends the loop, with the error behind it. The model does not follow a step backwards.
unfoldable pub move_to : ℕ → ℕ → ℕ → Bytes → Result Bytes
move_to l index next pre =
    if leb (2 ^ 63) next
    then panic
    else if ltb next index
    then stuck
    else if ltb l next
    then err unexpected_eof
    else ok (drop (next - index) pre)

-- `default:` of `Unmarshal`: an unknown field, from its tag on, is passed over.
unfoldable pub skip_field : ℕ → Bytes → Result Bytes
unfolding skip int_lt move_to
skip_field l pre = do
  skippy ← skip pre
  let index = l - length pre
  let next = (index + skippy) % 2 ^ 64
  if leb (2 ^ 63) skippy || leb (2 ^ 63) next
      then err invalid_length
      else if int_lt l next
      then err unexpected_eof
      else move_to l index next pre

-- `switch fieldNum` of a message: from `l`, the field's number, its wire type, the bytes behind the
-- tag and the message so far. `none` is the default case.
abbrev pub Switch {ℓ} : Type ℓ → Type ℓ
Switch M = ℕ → ℕ → ℕ → Bytes → M → Option (Result (M × Bytes))

module _ {ℓ} {M : Type ℓ} (switch : Switch M) where
  -- A field: its tag, the two checks on it, and the switch.
  unfoldable pub read_field : ℕ → Bytes → M → Result (M × Bytes)
  unfolding read_varint skip_field
  read_field l pre m = do
    (wire, rest) ← read_varint 64 pre 0 0
    let num = wire / 8 % 2 ^ 32
    let ty = wire % 8
    if ty == 4
        then err end_group
        else if num == 0 || leb (2 ^ 31) num
        then err illegal_tag
        else elim (switch l num ty rest m) [
          | none ↦ (do behind ← skip_field l pre; ok (m, behind))
          | some r ↦ r
        ]

  -- `for iNdEx < l { … }`, with fuel. The list never passes the end, so the test of `iNdEx` against
  -- `l` behind the loop does not fail.
  unfoldable pub unmarshal_loop : ℕ → ℕ → Bytes → M → Result M
  unfolding read_field
  unmarshal_loop fuel l [] m = ok m
  unmarshal_loop zero l (b ∷ bs) m = stuck
  unmarshal_loop (suc fuel) l (b ∷ bs) m = do
    (m', rest) ← read_field l (b ∷ bs) m
    unmarshal_loop fuel l rest m'

  -- `Unmarshal`, into the message `m`. Each round takes a byte at least.
  unfoldable pub unmarshal : Bytes → M → Result M
  unfolding unmarshal_loop
  unmarshal src m = unmarshal_loop (length src) (length src) src m

-- The cases of a switch. An integer field of `w` bits is read into the message by `set`.
unfoldable pub case_uint {ℓ} : {M : Type ℓ} → ℕ → ℕ → Bytes → (ℕ → M) → Result (M × Bytes)
unfolding read_varint
case_uint w ty rest set =
    if ty == 0
    then (do (v, behind) ← read_varint w rest 0 0; ok (set v, behind))
    else err wrong_wire_type

-- A string or bytes field.
unfoldable pub case_bytes {ℓ} : {M : Type ℓ} → ℕ → ℕ → Bytes → (Bytes → M) → Result (M × Bytes)
unfolding read_bytes
case_bytes l ty rest set =
    if ty == 2
    then (do (s, behind) ← read_bytes l rest; ok (set s, behind))
    else err wrong_wire_type

-- A message field: `decode` is the `Unmarshal` of its type into the value that the field has.
unfoldable pub case_message {ℓ κ} :
    {M : Type ℓ} {F : Type κ} → ℕ → ℕ → Bytes → (Bytes → Result F) → (F → M) → Result (M × Bytes)
unfolding read_bytes
case_message l ty rest decode set =
    if ty == 2
    then (do (s, behind) ← read_bytes l rest; f ← decode s; ok (set f, behind))
    else err wrong_wire_type

-- `if m.F == nil { m.F = &F{} }`
abbrev pub or_new {ℓ} : {F : Type ℓ} → F → Option F → F
or_new new none = new
or_new new (some x) = x
