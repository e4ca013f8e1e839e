-- ===== src/Wire/Terminates.antt =====
-- `Unmarshal` ends on every input whose length is an int: a switch whose cases end, and keep a property of the message, makes
-- a decoder that ends and keeps it.
use yui_ibc_solidity.Prelude.{
  ℕ, zero, suc, ◌/◌, ◌%◌, ◌^◌, ◌≤◌, ◌<◌, arith, Bytes, [], ◌∷◌, some, none, Option, Bool, true,
  false, leb, ◌==◌, ◌||◌, if◌then◌else◌, length,
}
use yui_ibc_solidity.Wire.Result.{Result, ok, ◌>>=◌}
use yui_ibc_solidity.Wire.Reader.{
  read_varint, read_bytes, skip_field, Switch, read_field, unmarshal_loop, unmarshal, case_uint,
  case_bytes, case_message,
}
use yui_ibc_solidity.Wire.Format.{IsLength}
use yui_ibc_solidity.Wire.Skips.{skip_field-Ends}
use yui_ibc_solidity.Wire.Total.{
  Ends, Ends-bind, Ends-if, Ends-weaken, Reads, Remains, read_varint-Ends, read_bytes-Ends,
}

module _ {M : Type 0} (P : M → Type 0) where
  -- A message with the property, and at most `n` bytes left.
  abbrev pub Keeps : ℕ → M × Bytes → Type 0
  Keeps n (m, rest) = P m × (length rest ≤ n)

-- What a switch of a decoder of `l` bytes makes of a field, with `n` bytes left: it passes on it, or it ends, keeping the
-- property, where the bytes left are of the decoder's and their number is an int.
pub data Handled {M : Type 0} (P : M → Type 0) (l n : ℕ)
    : Option (Result (M × Bytes)) → Type 0 where
  passed : Handled P l n none
  handled :
      (r : Result (M × Bytes)) → (l < 2 ^ 63 → n ≤ l → Ends (Keeps P n) r) → Handled P l n (some r)

pub Handled-if :
    {M : Type 0} {P : M → Type 0} {l n : ℕ} (b : Bool) (x y : Option (Result (M × Bytes)))
    → Handled P l n x
    → Handled P l n y
    → Handled P l n (if b then x else y)
Handled-if true x y p q = p
Handled-if false x y p q = q

module _ {M : Type 0} {P : M → Type 0} {l : ℕ} where
  pub case_uint-Handled :
      (w ty : ℕ) (src : Bytes) (set : ℕ → M)
      → ((v : ℕ) → v < 2 ^ w → P (set v))
      → Handled P l (length src) (some (case_uint w ty src set))
  unfolding case_uint
  case_uint-Handled w ty src set k = handled _ (λ _ _.
      Ends-if (Keeps P (length src)) (ty == 0) _ _
        (Ends-bind (Reads w (length src)) (Keeps P (length src)) (read_varint w src 0 0) _
          (read_varint-Ends w src) (λ (v, rest) h. (k v h.0, omega arith)))
        tt)

module _ {M : Type 0} {P : M → Type 0} where
  pub case_bytes-Handled :
      (l ty : ℕ) (src : Bytes) (set : Bytes → M)
      → ((s : Bytes) → P (set s))
      → Handled P l (length src) (some (case_bytes l ty src set))
  unfolding case_bytes
  case_bytes-Handled l ty src set k = handled _ (λ hl hs.
      Ends-if (Keeps P (length src)) (ty == 2) _ _
        (Ends-bind (Remains (length src)) (Keeps P (length src)) (read_bytes l src) _
          (read_bytes-Ends l src hl hs) (λ (s, rest) h. (k s, h.1)))
        tt)

  pub case_message-Handled :
      {F : Type 0} (Q : F → Type 0) (l ty : ℕ) (src : Bytes) (decode : Bytes → Result F)
      (set : F → M)
      → ((s : Bytes) → IsLength (length s) → Ends Q (decode s))
      → ((f : F) → Q f → P (set f))
      → Handled P l (length src) (some (case_message l ty src decode set))
  unfolding case_message
  case_message-Handled Q l ty src decode set d k = handled _ (λ hl hs.
      Ends-if (Keeps P (length src)) (ty == 2) _ _
        (Ends-bind (Remains (length src)) (Keeps P (length src)) (read_bytes l src) _
          (read_bytes-Ends l src hl hs)
          (λ (s, rest) h.
            Ends-bind Q (Keeps P (length src)) (decode s) _ (d s (omega arith))
              (λ f q. (k f q, h.1))))
        tt)

module _ {M : Type 0} (P : M → Type 0) where
  -- A switch whose every case ends and keeps the property.
  abbrev pub Total : Switch M → Type 0
  Total switch =
      (l num ty : ℕ) (rest : Bytes) (m : M)
      → P m
      → Handled P l (length rest) (switch l num ty rest m)

  abbrev Less : ℕ → M × Bytes → Type 0
  Less n (m, rest) = P m × (length rest < n)

  -- The field behind a tag, or the default case from the tag on.
  behind_tag-Ends :
      (l : ℕ) (pre rest : Bytes) (m : M) (o : Option (Result (M × Bytes)))
      → l < 2 ^ 63
      → length pre ≤ l
      → length rest < length pre
      → P m
      → Handled P l (length rest) o
      → Ends
          (Less (length pre))
          (elim o [ none ↦ skip_field l pre >>= (λ behind. ok (m, behind)) | some r ↦ r ])
  behind_tag-Ends l pre rest m none hl hp h p passed =
      Ends-bind (λ behind. length behind < length pre) (Less (length pre)) (skip_field l pre) _
        (skip_field-Ends l pre hl hp (omega arith)) (λ behind e. (p, e))
  behind_tag-Ends l pre rest m (some r) hl hp h p (handled _ t) =
      Ends-weaken (Keeps P (length rest)) (Less (length pre)) r
        (λ (n, behind) e. (e.0, omega arith)) (t hl (omega arith))

  read_field-Ends :
      (switch : Switch M) (l : ℕ) (pre : Bytes) (m : M)
      → Total switch
      → l < 2 ^ 63
      → length pre ≤ l
      → P m
      → Ends (Less (length pre)) (read_field switch l pre m)
  unfolding read_field
  read_field-Ends switch l pre m total hl hp p =
      let Q = Less (length pre) in
      Ends-bind (Reads 64 (length pre)) Q (read_varint 64 pre 0 0) _ (read_varint-Ends 64 pre)
        (λ (wire, rest) k.
          let num = wire / 8 % 2 ^ 32 in
          let ty = wire % 8 in
          Ends-if Q (ty == 4) _ _ tt (
            Ends-if Q (num == 0 || leb (2 ^ 31) num) _ _ tt (
              behind_tag-Ends l pre rest m (switch l num ty rest m) hl hp k.1 p
                (total l num ty rest m p))))

  unmarshal_loop-Ends :
      (switch : Switch M) (fuel l : ℕ) (src : Bytes) (m : M)
      → Total switch
      → l < 2 ^ 63
      → length src ≤ l
      → length src ≤ fuel
      → P m
      → Ends P (unmarshal_loop switch fuel l src m)
  unfolding unmarshal_loop
  unmarshal_loop-Ends switch fuel l [] m total hl hs h p = p
  unmarshal_loop-Ends switch zero l (b ∷ bs) m total hl hs h p = absurd (omega arith)
  unmarshal_loop-Ends switch (suc fuel) l (b ∷ bs) m total hl hs h p =
      Ends-bind (Less (suc (length bs))) P (read_field switch l (b ∷ bs) m) _
        (read_field-Ends switch l (b ∷ bs) m total hl hs p)
        (λ (n, rest) k.
          unmarshal_loop-Ends switch fuel l rest n total hl (omega arith) (omega arith) k.0)

  pub unmarshal-Ends :
      (switch : Switch M) (src : Bytes) (m : M)
      → Total switch
      → P m
      → IsLength (length src)
      → Ends P (unmarshal switch src m)
  unfolding unmarshal
  unmarshal-Ends switch src m total p h =
      unmarshal_loop-Ends switch (length src) (length src) src m total h (omega arith) (omega arith)
        p
