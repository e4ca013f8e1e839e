-- ===== src/Wire/Field.antt =====
-- A field, or a row of fields, of a message: a writer, the term of `Size()` that goes with it, and the
-- bytes of the format. A message's marshaller is correct by one rule for each of its fields.
use yui_ibc_solidity.Prelude.{
  ℕ, ◌+◌, ◌≤◌, ◌≡◌, ap, ◌∙◌, refl, arith, Bytes, List, [], ◌∷◌, ◌++◌, Option, none, some, length,
  length-append,
}
use yui_ibc_solidity.Wire.Writer.{
  Writer, ◌>>◌, pass, put_chunk, put_bytes, put_uint, put_enum, put_repeated, put_message,
  put_option, put_messages, marshal, size_chunk, size_bytes, size_uint, size_enum, size_repeated,
  size_option, size_messages,
}
use yui_ibc_solidity.Wire.Format.{
  IsU32, IsU64, IsLength, chunk, bytes_field, uint_field, enum_field, repeated_field, option_field,
  messages_field,
}
use yui_ibc_solidity.Wire.WriterLaws.{
  Writes, Writes-then, pass_lem, put_chunk_lem, put_bytes_lem, put_uint_lem, put_enum_lem,
  put_message_lem, marshal_lem,
}
use yui_ibc_solidity.Wire.Size.{
  size_chunk-length, size_bytes-length, size_uint-length, size_enum-length,
}

-- Where the size fits an int, the writer puts the bytes and the size counts them.
pub record Field (n : ℕ) (f : Writer) (bs : Bytes) : Type 0 where
  pub writes : IsLength n → Writes f bs
  pub counts : IsLength n → n ≡ length bs

-- The fields of a message are written from the last to the first.
pub Field-then :
    {a b : ℕ} {f g : Writer} {xs ys : Bytes}
    → Field a f xs
    → Field b g ys
    → Field (b + a) (f >> g) (ys ++ xs)
Field-then {a} {b} {f} {g} {xs} {ys} p q = record {
  writes = λ h. Writes-then (p.writes (omega arith)) (q.writes (omega arith));
  counts =
      λ h. omega (arith, p.counts (omega arith), q.counts (omega arith), length-append {0} ys xs);
}

Field-pass : Field 0 pass []
Field-pass = record { writes = λ h. pass_lem; counts = λ h. refl }

pub Field-uint : (tag v : ℕ) → IsU64 v → Field (size_uint v) (put_uint tag v) (uint_field tag v)
Field-uint tag v h = record {
  writes = λ _. put_uint_lem tag v h;
  counts = λ _. size_uint-length tag v h;
}

pub Field-enum : (tag x : ℕ) → IsU32 x → Field (size_enum x) (put_enum tag x) (enum_field tag x)
Field-enum tag x h = record {
  writes = λ _. put_enum_lem tag x h;
  counts = λ _. size_enum-length tag x h;
}

-- A field is no shorter than the bytes that it holds.
le-size_chunk : (n : ℕ) → n ≤ size_chunk n
unfolding size_chunk
le-size_chunk n = omega arith

le-size_bytes : (s : Bytes) → length s ≤ size_bytes s
unfolding size_bytes
le-size_bytes [] = omega arith
le-size_bytes (x ∷ s) = unfold size_chunk in ground arith

pub Field-bytes : (tag : ℕ) (s : Bytes) → Field (size_bytes s) (put_bytes tag s) (bytes_field tag s)
Field-bytes tag s = record {
  writes = λ h. put_bytes_lem tag s (omega (arith, le-size_bytes s));
  counts = λ h. size_bytes-length tag s (omega (arith, le-size_bytes s));
}

Field-chunk : (tag : ℕ) (s : Bytes) → Field (size_chunk (length s)) (put_chunk tag s) (chunk tag s)
Field-chunk tag s = record {
  writes = λ h. put_chunk_lem tag s (omega (arith, le-size_chunk (length s)));
  counts = λ h. size_chunk-length tag s (omega (arith, le-size_chunk (length s)));
}

pub Field-repeated :
    (tag : ℕ) (ss : List Bytes)
    → Field (size_repeated ss) (put_repeated tag ss) (repeated_field tag ss)
unfolding size_repeated put_repeated repeated_field
Field-repeated tag [] = Field-pass
Field-repeated tag (s ∷ ss) = Field-then (Field-repeated tag ss) (Field-chunk tag s)

-- An embedded message, by the correctness of its own marshaller.
pub Field-message :
    (tag : ℕ) {n : ℕ} {f : Writer} {bs : Bytes}
    → Field n f bs
    → Field (size_chunk n) (put_message tag f) (chunk tag bs)
Field-message tag {n} {f} {bs} p = record {
  writes = λ h.
      let fits : IsLength n = omega (arith, le-size_chunk n) in
      put_message_lem tag (omega (arith, p.counts fits)) (p.writes fits);
  counts = λ h.
      let fits : IsLength n = omega (arith, le-size_chunk n) in
      ap size_chunk (p.counts fits) ∙ size_chunk-length tag bs (omega (arith, p.counts fits));
}

module _ {ℓ} {F : Type ℓ} {size : F → ℕ} {marshal_to : F → Writer} {encoding : F → Bytes} where
  pub Field-option :
      (tag : ℕ) (o : Option F)
      → ((x : F) → Field (size x) (marshal_to x) (encoding x))
      → Field (size_option size o) (put_option tag marshal_to o) (option_field tag encoding o)
  unfolding size_option put_option option_field
  Field-option tag none k = Field-pass
  Field-option tag (some x) k = Field-message tag (k x)

  pub Field-messages :
      (tag : ℕ) (xs : List F)
      → ((x : F) → Field (size x) (marshal_to x) (encoding x))
      → Field
          (size_messages size xs)
          (put_messages tag marshal_to xs)
          (messages_field tag encoding xs)
  unfolding size_messages put_messages messages_field
  Field-messages tag [] k = Field-pass
  Field-messages tag (x ∷ xs) k = Field-then (Field-messages tag xs k) (Field-message tag (k x))

-- `Marshal` returns the bytes of the format, `Size()` of them.
pub marshal-Field :
    {n : ℕ} {f : Writer} {bs : Bytes} → Field n f bs → IsLength n → marshal n f ≡ some bs
marshal-Field {n} p h = marshal_lem n (p.writes h) (p.counts h)
