-- ===== src/Wire/RunsFields.antt =====
-- One rule for each kind of field: the decoder reads what the format says of the field, into a message
-- that has its zero value so far.
use yui_ibc_solidity.Prelude.{
  ℕ, suc, ◌/◌, ◌%◌, ◌^◌, ◌≡◌, sym, ap, ◌∙◌, arith, Bytes, List, [], ◌∷◌, ◌++◌, some, none, Option,
  true, ◌==◌, length, append_assoc, append-nil, inl, inr, Bool-cases, lt→ltb, subst,
}
use native.Mathlib.Nat.{mod-eq_of_lt}
use yui_ibc_solidity.Wire.Result.{Result, ok}
use yui_ibc_solidity.Wire.Writer.{sign_extend}
use yui_ibc_solidity.Wire.WriterLaws.{sign_extend-lt}
use yui_ibc_solidity.Wire.Reader.{Switch, case_uint, case_bytes, case_message}
use yui_ibc_solidity.Wire.Runs.{Runs, IsTag, Runs-varint, Runs-chunk, Runs-message}
use yui_ibc_solidity.Wire.Format.{
  IsU32, IsU64, IsLength, chunk, bytes_field, uint_field, enum_field, repeated_field, option_field,
  messages_field,
}

==→eq : (a b : ℕ) → (a == b) ≡ true → a ≡ b
==→eq a b h = ground arith

sign_extend-mod : (x : ℕ) → IsU32 x → sign_extend x % 2 ^ 32 ≡ x
unfolding sign_extend
sign_extend-mod x h = ground arith

module _ {ℓ} {M : Type ℓ} {switch : Switch M} {l : ℕ} where
  -- A string or bytes field, left out when it is empty.
  pub Runs-bytes :
      (fits : IsLength l) {tag : ℕ} (s : Bytes) {rest : Bytes} {m : M} {r : Result M}
      (set : Bytes → M)
      → IsTag 2 tag
      → ((t : Bytes) → switch l (tag / 8) (tag % 8) t m ≡ some (case_bytes l (tag % 8) t set))
      → set [] ≡ m
      → Runs switch l rest (set s) r
      → Runs switch l (bytes_field tag s ++ rest) m r
  unfolding bytes_field
  Runs-bytes fits [] {rest} {m} {r} set ht e z k = subst (λ (n : M). Runs switch l rest n r) z k
  Runs-bytes fits (x ∷ s) set ht e z k =
      rw (lt→ltb 0 (suc (length s)) (omega arith)) (Runs-chunk fits (x ∷ s) set ht e k)

  -- A 64-bit integer field, left out when it is zero.
  pub Runs-uint :
      {tag v : ℕ} {rest : Bytes} {m : M} {r : Result M} (set : ℕ → M)
      → IsTag 0 tag
      → IsU64 v
      → ((t : Bytes) → switch l (tag / 8) (tag % 8) t m ≡ some (case_uint 64 (tag % 8) t set))
      → set 0 ≡ m
      → Runs switch l rest (set v) r
      → Runs switch l (uint_field tag v ++ rest) m r
  unfolding uint_field
  Runs-uint {tag} {v} {rest} {m} {r} set ht hv e z k = elim (Bool-cases (v == 0)) [
    | inl zero_v ↦
        rw zero_v (subst (λ (n : M). Runs switch l rest n r) (ap set (==→eq v 0 zero_v) ∙ z) k)
    | inr more ↦ rw more (
        Runs-varint 64 set ht hv e
          (subst (λ (t : ℕ). Runs switch l rest (set t) r) (sym (mod-eq_of_lt hv)) k))
  ]

  -- An enum field.
  pub Runs-enum :
      {tag x : ℕ} {rest : Bytes} {m : M} {r : Result M} (set : ℕ → M)
      → IsTag 0 tag
      → IsU32 x
      → ((t : Bytes) → switch l (tag / 8) (tag % 8) t m ≡ some (case_uint 32 (tag % 8) t set))
      → set 0 ≡ m
      → Runs switch l rest (set x) r
      → Runs switch l (enum_field tag x ++ rest) m r
  unfolding enum_field
  Runs-enum {tag} {x} {rest} {m} {r} set ht hx e z k = elim (Bool-cases (x == 0)) [
    | inl zero_x ↦
        rw zero_x (subst (λ (n : M). Runs switch l rest n r) (ap set (==→eq x 0 zero_x) ∙ z) k)
    | inr more ↦ rw more (
        Runs-varint 32 set ht (sign_extend-lt x hx) e
          (subst (λ (t : ℕ). Runs switch l rest (set t) r) (sym (sign_extend-mod x hx)) k))
  ]

  -- A repeated field: `set` gives the message that has the elements read so far.
  pub Runs-repeated :
      (fits : IsLength l) {tag : ℕ} (ss done : List Bytes) {rest : Bytes} {r : Result M}
      (set : List Bytes → M)
      → IsTag 2 tag
      → ((d : List Bytes) (t : Bytes)
          → switch l (tag / 8) (tag % 8) t (set d)
            ≡ some (case_bytes l (tag % 8) t (λ s. set (d ++ (s ∷ [])))))
      → Runs switch l rest (set (done ++ ss)) r
      → Runs switch l (repeated_field tag ss ++ rest) (set done) r
  unfolding repeated_field
  Runs-repeated fits [] done {rest} {r} set ht e k =
      subst (λ (d : List Bytes). Runs switch l rest (set d) r) (append-nil done) k
  Runs-repeated fits {tag} (s ∷ ss) done {rest} {r} set ht e k =
      subst (λ (t : Bytes). Runs switch l t (set done) r)
        (sym (append_assoc (chunk tag s) (repeated_field tag ss) rest))
        (Runs-chunk fits s (λ t. set (done ++ (t ∷ []))) ht (e done)
          (Runs-repeated fits ss (done ++ (s ∷ [])) set ht e (
            subst (λ (d : List Bytes). Runs switch l rest (set d) r)
              (sym (append_assoc done (s ∷ []) ss)) k)))

  -- A message behind a pointer.
  pub Runs-option {κ} :
      {F : Type κ} (fits : IsLength l) {tag : ℕ} {encoding : F → Bytes} (o : Option F)
      {rest : Bytes} {r : Result M} (decode : Bytes → Result F) (set : Option F → M)
      → IsTag 2 tag
      → ((t : Bytes)
          → switch l (tag / 8) (tag % 8) t (set none)
            ≡ some (case_message l (tag % 8) t decode (λ x. set (some x))))
      → ((x : F) → IsLength (length (encoding x)) → decode (encoding x) ≡ ok x)
      → Runs switch l rest (set o) r
      → Runs switch l (option_field tag encoding o ++ rest) (set none) r
  unfolding option_field
  Runs-option fits none decode set ht e d k = k
  Runs-option fits {encoding = encoding} (some x) decode set ht e d k =
      Runs-message fits (encoding x) decode (λ y. set (some y)) ht e (d x) k

  -- A repeated message field.
  pub Runs-messages {κ} :
      {F : Type κ} (fits : IsLength l) {tag : ℕ} {encoding : F → Bytes} (xs done : List F)
      {rest : Bytes} {r : Result M} (decode : Bytes → Result F) (set : List F → M)
      → IsTag 2 tag
      → ((d : List F) (t : Bytes)
          → switch l (tag / 8) (tag % 8) t (set d)
            ≡ some (case_message l (tag % 8) t decode (λ x. set (d ++ (x ∷ [])))))
      → ((x : F) → IsLength (length (encoding x)) → decode (encoding x) ≡ ok x)
      → Runs switch l rest (set (done ++ xs)) r
      → Runs switch l (messages_field tag encoding xs ++ rest) (set done) r
  unfolding messages_field
  Runs-messages {F} fits [] done {rest} {r} decode set ht e d k =
      subst (λ (y : List F). Runs switch l rest (set y) r) (append-nil done) k
  Runs-messages {F} fits {tag} {encoding} (x ∷ xs) done {rest} {r} decode set ht e d k =
      subst (λ (t : Bytes). Runs switch l t (set done) r)
        (sym (append_assoc (chunk tag (encoding x)) (messages_field tag encoding xs) rest))
        (Runs-message fits (encoding x) decode (λ y. set (done ++ (y ∷ []))) ht (e done) (d x)
          (Runs-messages fits xs (done ++ (x ∷ [])) decode set ht e d (
            subst (λ (y : List F). Runs switch l rest (set y) r)
              (sym (append_assoc done (x ∷ []) xs)) k)))
