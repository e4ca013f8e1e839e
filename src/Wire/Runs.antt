-- ===== src/Wire/Runs.antt =====
-- The loop of `Unmarshal`, from a field on: what it comes to, and one step of it. A field of the
-- format is one step.
use yui_ibc_solidity.Prelude.{
  ℕ, zero, suc, ◌+◌, ◌/◌, ◌%◌, ◌^◌, ◌≤◌, ◌<◌, ◌≡◌, ◌≢◌, refl, sym, ap, ◌∙◌, arith, Bytes, [], ◌∷◌,
  ◌++◌, some, length, length-append, append_assoc, append-nil, subst,
}
use yui_ibc_solidity.Wire.Result.{Result, ok}
use yui_ibc_solidity.Wire.Reader.{
  Switch, read_field, unmarshal_loop, unmarshal, case_uint, case_bytes, case_message,
}
use yui_ibc_solidity.Wire.ReaderLaws.{read_varint-varint, read_bytes-chunk, read_tag}
use yui_ibc_solidity.Wire.Format.{IsU64, IsLength, varint, chunk}

-- A decoder of `l` bytes that has `rest` left, and the message `m`, comes to `r`.
pub record Runs {ℓ} {M : Type ℓ} (switch : Switch M) (l : ℕ) (rest : Bytes) (m : M) (r : Result M)
    : Type ℓ where
  pub run :
      (fuel : ℕ) → length rest ≤ fuel → length rest ≤ l → unmarshal_loop switch fuel l rest m ≡ r

pub Runs-nil {ℓ} : {M : Type ℓ} (switch : Switch M) (l : ℕ) (m : M) → Runs switch l [] m (ok m)
unfolding unmarshal_loop
Runs-nil switch l m = record { run = λ fuel h hl. refl }

-- A decoder that starts on the whole of its bytes.
pub unmarshal-Runs {ℓ} :
    {M : Type ℓ} {switch : Switch M} (bs : Bytes) {m : M} {r : Result M}
    → Runs switch (length bs) (bs ++ []) m r
    → unmarshal switch bs m ≡ r
unfolding unmarshal
unmarshal-Runs {M} {switch} bs {m} {r} k =
    let whole = subst (λ (t : Bytes). Runs switch (length bs) t m r) (append-nil bs) k in
    whole.run (length bs) (omega arith) (omega arith)

module _ {ℓ} {M : Type ℓ} {switch : Switch M} {l : ℕ} where
  step :
      (pre rest : Bytes) (m m' : M) (r : Result M)
      → (length pre ≤ l → read_field switch l pre m ≡ ok (m', rest))
      → length rest < length pre
      → Runs switch l rest m' r
      → (fuel : ℕ) → length pre ≤ fuel
      → length pre ≤ l
      → unmarshal_loop switch fuel l pre m ≡ r
  unfolding unmarshal_loop
  step [] rest m m' r e h k fuel hf hl = elim h [ ]
  step (b ∷ bs) rest m m' r e h k zero hf hl = elim hf [ ]
  step (b ∷ bs) rest m m' r e h k (suc fuel) hf hl =
      rw (e hl) (k.run fuel (omega arith) (omega arith))

  -- A field that is read, and leaves less behind.
  pub Runs-field :
      {pre rest : Bytes} {m m' : M} {r : Result M}
      → (length pre ≤ l → read_field switch l pre m ≡ ok (m', rest))
      → length rest < length pre
      → Runs switch l rest m' r
      → Runs switch l pre m r
  Runs-field {pre} {rest} {m} {m'} {r} e h k = record { run = step pre rest m m' r e h k }

-- A field whose tag is a single byte and whose number the switch knows.
pub read_field_known {ℓ} :
    {M : Type ℓ} (switch : Switch M) (l tag : ℕ) (rest : Bytes) (m : M) (r : Result (M × Bytes))
    → tag < 128
    → 8 ≤ tag
    → tag % 8 ≢ 4
    → switch l (tag / 8) (tag % 8) rest m ≡ some r
    → read_field switch l (tag ∷ rest) m ≡ r
unfolding read_field
read_field_known switch l tag rest m r h lo ty e =
    let num : tag / 8 % 2 ^ 32 ≡ tag / 8 = omega arith in
    rw (read_tag tag rest h, num, e) (ground arith)

-- A tag of a single byte, of the wire type `ty`.
abbrev pub IsTag : ℕ → ℕ → Type 0
IsTag ty tag = (tag < 128) × (8 ≤ tag) × (tag % 8 ≡ ty)

module _ {ℓ} {M : Type ℓ} {switch : Switch M} {l : ℕ} where
  -- An integer, read at `w` bits and put into the message by `set`.
  pub Runs-varint :
      (w : ℕ) {tag v : ℕ} {rest : Bytes} {m : M} {r : Result M} (set : ℕ → M)
      → IsTag 0 tag
      → IsU64 v
      → ((t : Bytes) → switch l (tag / 8) (tag % 8) t m ≡ some (case_uint w (tag % 8) t set))
      → Runs switch l rest (set (v % 2 ^ w)) r
      → Runs switch l (tag ∷ (varint v ++ rest)) m r
  Runs-varint w {tag} {v} {rest} {m} {r} set ht hv e =
      Runs-field
        (λ _.
          read_field_known switch l tag (varint v ++ rest) m (ok (set (v % 2 ^ w), rest)) ht.0 ht.1
            (omega arith)
            (e (varint v ++ rest) ∙ ap (λ (t : Result (M × Bytes)). some t) (read ht.2)))
        (omega (arith, length-append {0} (varint v) rest))
    where
      read : tag % 8 ≡ 0 → case_uint w (tag % 8) (varint v ++ rest) set ≡ ok (set (v % 2 ^ w), rest)
      read ty = unfold case_uint in rw (ty, read_varint-varint w v rest hv)

  -- Bytes behind their length: the block is there, whatever the switch does with it.
  Runs-block :
      {tag : ℕ} (s : Bytes) {rest : Bytes} {m m' : M} {r : Result M}
      → IsTag 2 tag
      → (length s ≤ l
          → length (s ++ rest) ≤ l
          → switch l (tag / 8) (tag % 8) (varint (length s) ++ (s ++ rest)) m
            ≡ some (ok (m', rest)))
      → Runs switch l rest m' r
      → Runs switch l (chunk tag s ++ rest) m r
  unfolding chunk
  Runs-block {tag} s {rest} {m} {m'} {r} ht e =
      Runs-field
        (λ hl.
          read_field_known switch l tag ((varint (length s) ++ s) ++ rest) m (ok (m', rest)) ht.0
            ht.1 (omega arith)
            (subst (λ (t : Bytes). switch l (tag / 8) (tag % 8) t m ≡ some (ok (m', rest)))
              (sym (append_assoc (varint (length s)) s rest))
              (e (omega (arith, whole, length-append {0} s rest)) (omega (arith, whole)))))
        (omega (arith, whole, length-append {0} s rest))
    where
      whole :
          length ((varint (length s) ++ s) ++ rest)
          ≡ length (varint (length s)) + length (s ++ rest)
      whole = omega (
        arith,
        length-append {0} (varint (length s) ++ s) rest,
        length-append {0} (varint (length s)) s,
        length-append {0} s rest,
      )

  pub Runs-chunk :
      (fits : IsLength l) {tag : ℕ} (s : Bytes) {rest : Bytes} {m : M} {r : Result M}
      (set : Bytes → M)
      → IsTag 2 tag
      → ((t : Bytes) → switch l (tag / 8) (tag % 8) t m ≡ some (case_bytes l (tag % 8) t set))
      → Runs switch l rest (set s) r
      → Runs switch l (chunk tag s ++ rest) m r
  Runs-chunk fits {tag} s {rest} {m} {r} set ht e = Runs-block s {m' = set s} ht (λ _ hl.
      e (varint (length s) ++ (s ++ rest)) ∙ ap (λ (t : Result (M × Bytes)). some t) (read ht.2 hl))
    where
      read :
          tag % 8 ≡ 2
          → length (s ++ rest) ≤ l
          → case_bytes l (tag % 8) (varint (length s) ++ (s ++ rest)) set ≡ ok (set s, rest)
      read ty hl = unfold case_bytes in rw (ty, read_bytes-chunk l s rest hl fits)

  -- A message, that its own decoder reads from its bytes.
  pub Runs-message {κ} :
      {F : Type κ} (fits : IsLength l) {tag : ℕ} (bs : Bytes) {rest : Bytes} {m : M} {f : F}
      {r : Result M} (decode : Bytes → Result F) (set : F → M)
      → IsTag 2 tag
      → ((t : Bytes)
          → switch l (tag / 8) (tag % 8) t m ≡ some (case_message l (tag % 8) t decode set))
      → (IsLength (length bs) → decode bs ≡ ok f)
      → Runs switch l rest (set f) r
      → Runs switch l (chunk tag bs ++ rest) m r
  Runs-message fits {tag} bs {rest} {m} {f} {r} decode set ht e d =
      Runs-block bs {m' = set f} ht (λ small hl.
        e (varint (length bs) ++ (bs ++ rest))
        ∙ ap (λ (t : Result (M × Bytes)). some t) (read ht.2 (d (omega arith)) hl))
    where
      read :
          tag % 8 ≡ 2
          → decode bs ≡ ok f
          → length (bs ++ rest) ≤ l
          → case_message l (tag % 8) (varint (length bs) ++ (bs ++ rest)) decode set
            ≡ ok (set f, rest)
      read ty e' hl = unfold case_message in rw (ty, read_bytes-chunk l bs rest hl fits, e')
