-- ===== src/Ibft2/Header.antt =====
-- `Header` of pkg/ibc/client/ibft2/IBFT2.pb.go: the header that updates an IBFT2 client.
use yui_ibc_solidity.Prelude.{
  Bytes, List, Option, [], append_assoc, arith, if◌then◌else◌, length, none, refl, some, sym, ℕ,
  ◌++◌, ◌+◌, ◌==◌, ◌∷◌, ◌≡◌,
}
use yui_ibc_solidity.Wire.Result.{Result, ok}
use yui_ibc_solidity.Wire.Writer as WireWriter
use yui_ibc_solidity.Wire.Writer.{
  Writer, put_bytes, put_repeated, put_uint, size_bytes, size_repeated, size_uint, ◌>>◌,
}
use yui_ibc_solidity.Wire.Reader as WireReader
use yui_ibc_solidity.Wire.Reader.{Switch, case_bytes, case_uint}
use yui_ibc_solidity.Wire.Format.{IsLength, IsU64, bytes_field, repeated_field, uint_field}
use yui_ibc_solidity.Wire.Field.{
  Field, Field-bytes, Field-repeated, Field-then, Field-uint, marshal-Field,
}
use yui_ibc_solidity.Wire.Runs.{Runs, Runs-nil, unmarshal-Runs}
use yui_ibc_solidity.Wire.RunsFields.{Runs-bytes, Runs-repeated, Runs-uint}
use yui_ibc_solidity.Wire.Total.{Ends}
use yui_ibc_solidity.Wire.Terminates.{
  Handled-if, Total, case_bytes-Handled, case_uint-Handled, passed, unmarshal-Ends as Ends_all,
}

pub record Header : Type 0 where
  pub besu_header_rlp : Bytes
  pub seals : List Bytes
  pub trusted_height : ℕ
  pub account_state_proof : Bytes

-- `Header{}`
abbrev pub empty : Header
empty = record { besu_header_rlp = []; seals = []; trusted_height = 0; account_state_proof = [] }

-- `MarshalToSizedBuffer`, from the last field to the first.
unfoldable pub marshal_to : Header → Writer
marshal_to m = do
  put_bytes 0x22 m.account_state_proof
  put_uint 0x18 m.trusted_height
  put_repeated 0x12 m.seals
  put_bytes 0xa m.besu_header_rlp

-- `Size`
unfoldable pub size : Header → ℕ
size m =
    size_bytes m.besu_header_rlp
    + size_repeated m.seals
    + size_uint m.trusted_height
    + size_bytes m.account_state_proof

unfoldable pub marshal : Header → Option Bytes
marshal m = WireWriter.marshal (size m) (marshal_to m)

-- `switch fieldNum` of `Unmarshal`.
unfoldable pub switch : Switch Header
switch l num ty rest m =
    if num == 1
    then some (case_bytes l ty rest (λ s. record m { besu_header_rlp = s }))
    else if num == 2
    then some (case_bytes l ty rest (λ s. record m { seals = m.seals ++ (s ∷ []) }))
    else if num == 3
    then some (case_uint 64 ty rest (λ x. record m { trusted_height = x }))
    else if num == 4
    then some (case_bytes l ty rest (λ s. record m { account_state_proof = s }))
    else none

unfoldable pub unmarshal : Bytes → Header → Result Header
unmarshal = WireReader.unmarshal switch

-- The numbers are what their Go types hold.
pub record IsValid (m : Header) : Type 0 where
  pub trusted_height : IsU64 m.trusted_height

-- The message in the wire format, its fields in ascending order.
unfoldable pub encoding : Header → Bytes
encoding m =
    bytes_field 0xa m.besu_header_rlp
    ++ repeated_field 0x12 m.seals
    ++ uint_field 0x18 m.trusted_height
    ++ bytes_field 0x22 m.account_state_proof

pub fields : (m : Header) → IsValid m → Field (size m) (marshal_to m) (encoding m)
unfolding size marshal_to encoding
fields m v = Field-then (Field-bytes 0x22 m.account_state_proof) (
    Field-then (Field-uint 0x18 m.trusted_height v.trusted_height)
      (Field-then (Field-repeated 0x12 m.seals) (Field-bytes 0xa m.besu_header_rlp)))

-- A decoder that reaches the encoding with an empty message leaves it with the message.
pub Runs-encoding :
    (m : Header) {l : ℕ} {rest : Bytes} {r : Result Header}
    → IsValid m
    → IsLength l
    → Runs switch l rest m r
    → Runs switch l (encoding m ++ rest) empty r
unfolding switch encoding
Runs-encoding m v fits k = simp append_assoc (
    Runs-bytes fits m.besu_header_rlp _ (omega arith) (λ t. refl) refl
      (Runs-repeated fits m.seals []
        (λ d. record empty { besu_header_rlp = m.besu_header_rlp; seals = d }) (omega arith)
        (λ d t. refl)
        (Runs-uint _ (omega arith) v.trusted_height (λ t. refl) refl
          (Runs-bytes fits m.account_state_proof _ (omega arith) (λ t. refl) refl k))))

pub unmarshal-encoding :
    (m : Header) → IsValid m → IsLength (length (encoding m)) → unmarshal (encoding m) empty ≡ ok m
unfolding unmarshal
unmarshal-encoding m v fits =
    unmarshal-Runs (encoding m) (Runs-encoding m v fits (Runs-nil switch _ m))

-- A message whose numbers fit their Go types and whose `Size()`
-- fits an int is marshalled with no panic, to `Size()` bytes, and these are
-- unmarshalled, into an empty message, to the same message.
pub unmarshal-marshal_ibft2_header :
    (m : Header)
    → IsValid m
    → IsLength (size m)
    → (bs : Bytes) × (marshal m ≡ some bs) × (length bs ≡ size m) × (unmarshal bs empty ≡ ok m)
unfolding marshal
unmarshal-marshal_ibft2_header m v fits =
    let f = fields m v in
    let exact = f.counts fits in
    (encoding m, marshal-Field f fits, sym exact, unmarshal-encoding m v (omega (arith, exact)))

switch-Total : Total IsValid switch
unfolding switch
switch-Total l num ty rest m v =
    Handled-if (num == 1) _ _
      (case_bytes-Handled l ty rest _ (λ s. record { trusted_height = v.trusted_height }))
      (Handled-if (num == 2) _ _
        (case_bytes-Handled l ty rest _ (λ s. record { trusted_height = v.trusted_height }))
        (Handled-if (num == 3) _ _
          (case_uint-Handled 64 ty rest _ (λ x h. record { trusted_height = h }))
          (Handled-if (num == 4) _ _
            (case_bytes-Handled l ty rest _ (λ s. record { trusted_height = v.trusted_height }))
            passed)))

-- On any bytes whose number fits an int `Unmarshal` ends, without a panic; where it succeeds, on a message
-- whose numbers fit their Go types, the numbers of the result fit them.
pub unmarshal-Ends_ibft2_header :
    (src : Bytes) (m : Header) → IsValid m → IsLength (length src) → Ends IsValid (unmarshal src m)
unfolding unmarshal
unmarshal-Ends_ibft2_header src m v = Ends_all IsValid switch src m switch-Total v
