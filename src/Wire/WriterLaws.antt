-- ===== src/Wire/WriterLaws.antt =====
-- The writers put exactly the bytes of the format, from the back of a buffer that has the room, and
-- the `Size()` terms count them.
use yui_ibc_solidity.Prelude.{
  ℕ, suc, ◌+◌, ◌-◌, ◌≡◌, sym, ap, arith, Bytes, List, [], ◌∷◌, ◌++◌, some, ◌==◌, length,
  length-append, append_assoc, append-nil, inl, inr, Bool-cases, lt→ltb,
}
use yui_ibc_solidity.Prelude.{take-length, All}
use yui_ibc_solidity.Wire.Writer.{
  Buffer, Writer, ◌>>◌, pass, encode_varint, put_byte, put_slice, put_chunk, put_bytes, put_uint,
  put_enum, put_repeated, put_message, marshal, sign_extend,
}
use native.Mathlib.Nat.{zero-add, add-zero, sub-zero}
use yui_ibc_solidity.Wire.Sov.{sov-varint, store_varint-varint}
use yui_ibc_solidity.Wire.Format.{
  IsU32, IsU64, enum_field, varint, chunk, bytes_field, uint_field, repeated_field,
}

abbrev pub buffer : ℕ → Bytes → Buffer
buffer o t = record { index = o; tail = t }

-- What a writer puts: from any buffer with the room for them, just the bytes `bs`.
pub record Writes (f : Writer) (bs : Bytes) : Type 0 where
  pub run : (o : ℕ) (t : Bytes) → f (buffer (length bs + o) t) ≡ some (buffer o (bs ++ t))

-- One writer behind another.
pub Writes-then :
    {f g : Writer} {xs ys : Bytes} → Writes f xs → Writes g ys → Writes (f >> g) (ys ++ xs)
unfolding ◌>>◌
Writes-then {f} {g} {xs} {ys} p q = record { run = λ o t. both o t }
  where
    regroup : (o : ℕ) → length ys + length xs + o ≡ length xs + (length ys + o)
    regroup o = omega arith

    both :
        (o : ℕ) (t : Bytes)
        → (f >> g) (buffer (length (ys ++ xs) + o) t) ≡ some (buffer o ((ys ++ xs) ++ t))
    both o t =
        rw (length-append ys xs, regroup o, p.run (length ys + o) t, q.run o (xs ++ t))
          (ap (λ (u : Bytes). some (buffer o u)) (sym (append_assoc ys xs t)))

pub pass_lem : Writes pass []
pass_lem = record { run = λ o t. ap (λ (u : ℕ). some (buffer u t)) (zero-add o) }

encode_varint_run :
    (v o : ℕ) (t : Bytes)
    → IsU64 v
    → encode_varint v (buffer (length (varint v) + o) t) ≡ some (buffer o (varint v ++ t))
unfolding encode_varint
encode_varint_run v o t h = rw (sov-varint v h) (ground (arith, store_varint-varint v t h))

pub encode_varint_lem : (v : ℕ) → IsU64 v → Writes (encode_varint v) (varint v)
encode_varint_lem v h = record { run = λ o t. encode_varint_run v o t h }

put_byte_lem : (x : ℕ) → Writes (put_byte x) (x ∷ [])
unfolding put_byte
put_byte_lem x = record { run = λ o t. ground arith }

put_slice_lem : (s : Bytes) → Writes (put_slice s) s
unfolding put_slice
put_slice_lem s = record { run = λ o t. ground arith }

pub put_chunk_lem :
    (tag : ℕ) (s : Bytes) → IsU64 (length s) → Writes (put_chunk tag s) (chunk tag s)
unfolding put_chunk chunk
put_chunk_lem tag s h =
    Writes-then {ys = tag ∷ varint (length s)} (put_slice_lem s)
      (Writes-then {ys = tag ∷ []} (encode_varint_lem (length s) h) (put_byte_lem tag))

pub put_bytes_lem :
    (tag : ℕ) (s : Bytes) → IsU64 (length s) → Writes (put_bytes tag s) (bytes_field tag s)
unfolding put_bytes bytes_field
put_bytes_lem tag [] h = pass_lem
put_bytes_lem tag (x ∷ s) h =
    unfold put_chunk chunk in
    rw (lt→ltb 0 (suc (length s)) (omega arith)) (put_chunk_lem tag (x ∷ s) h)

pub put_uint_lem : (tag v : ℕ) → IsU64 v → Writes (put_uint tag v) (uint_field tag v)
unfolding put_uint uint_field
put_uint_lem tag v h = elim (Bool-cases (v == 0)) [
  | inl z ↦ rw z pass_lem
  | inr nz ↦ rw nz (Writes-then {ys = tag ∷ []} (encode_varint_lem v h) (put_byte_lem tag))
]

pub sign_extend-lt : (x : ℕ) → IsU32 x → IsU64 (sign_extend x)
unfolding sign_extend
sign_extend-lt x h = ground arith

pub put_enum_lem : (tag x : ℕ) → IsU32 x → Writes (put_enum tag x) (enum_field tag x)
unfolding put_enum enum_field
put_enum_lem tag x h = elim (Bool-cases (x == 0)) [
  | inl z ↦ rw z pass_lem
  | inr nz ↦ rw nz (
      Writes-then {ys = tag ∷ []} (encode_varint_lem (sign_extend x) (sign_extend-lt x h))
        (put_byte_lem tag))
]

pub put_repeated_lem :
    (tag : ℕ) (ss : List Bytes)
    → All (λ s. IsU64 (length s)) ss
    → Writes (put_repeated tag ss) (repeated_field tag ss)
unfolding put_repeated repeated_field
put_repeated_lem tag [] h = pass_lem
put_repeated_lem tag (s ∷ ss) h =
    Writes-then (put_repeated_lem tag ss h.1) (put_chunk_lem tag s h.0)

pub put_message_lem :
    (tag : ℕ) {f : Writer} {bs : Bytes}
    → IsU64 (length bs)
    → Writes f bs
    → Writes (put_message tag f) (chunk tag bs)
unfolding put_message chunk
put_message_lem tag {f} {bs} h p = record { run = λ o t. go o t }
  where
    front : ℕ → ℕ
    front o = length (tag ∷ varint (length bs)) + o

    head : Writes (encode_varint (length bs) >> put_byte tag) (tag ∷ varint (length bs))
    head = Writes-then {ys = tag ∷ []} (encode_varint_lem (length bs) h) (put_byte_lem tag)

    room : (o : ℕ) → length (tag ∷ (varint (length bs) ++ bs)) + o ≡ length bs + front o
    room o = omega (arith, length-append {0} (varint (length bs)) bs)

    size : (o : ℕ) → length bs + front o - front o ≡ length bs
    size o = omega arith

    left : (o : ℕ) → length bs + front o - length bs ≡ front o
    left o = omega arith

    go :
        (o : ℕ) (t : Bytes)
        → put_message tag f (buffer (length (tag ∷ (varint (length bs) ++ bs)) + o) t)
          ≡ some (buffer o (tag ∷ ((varint (length bs) ++ bs) ++ t)))
    go o t =
        rw (room o, p.run (front o) [], append-nil bs, size o, left o, head.run o (bs ++ t))
          (ap (λ (u : Bytes). some (buffer o (tag ∷ u)))
            (sym (append_assoc (varint (length bs)) bs t)))

-- A marshaller that writes `bs` into a buffer of just their size returns them.
pub marshal_lem :
    (n : ℕ) {f : Writer} {bs : Bytes} → Writes f bs → n ≡ length bs → marshal n f ≡ some bs
unfolding marshal
marshal_lem n {f} {bs} p e =
    rw
      (
        e,
        ← add-zero (length bs),
        p.run 0 [],
        append-nil bs,
        add-zero (length bs),
        sub-zero (length bs),
      )
      (ap (λ (u : Bytes). some u) (take-length bs))
