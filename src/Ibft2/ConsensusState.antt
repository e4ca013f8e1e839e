-- ===== src/Ibft2/ConsensusState.antt =====
-- `ConsensusState` of pkg/ibc/client/ibft2/IBFT2.pb.go: the consensus state at a height.
use yui_ibc_solidity.Prelude.{
  Bytes, List, Option, [], append_assoc, arith, if◌then◌else◌, length, none, refl, some, sym, ℕ,
  ◌++◌, ◌+◌, ◌==◌, ◌∷◌, ◌≡◌,
}
use yui_ibc_solidity.Wire.Result.{Result, ok}
use yui_ibc_solidity.Wire.Writer as WireWriter
use yui_ibc_solidity.Wire.Writer.{
  Writer, put_bytes, put_repeated, put_uint, size_bytes, size_repeated, size_uint, ◌>>◌,
}
use yui_ibc_solidity.Wire.Reader as WireReader
use yui_ibc_solidity.Wire.Reader.{Switch, case_bytes, case_uint}
use yui_ibc_solidity.Wire.Format.{IsLength, IsU64, bytes_field, repeated_field, uint_field}
use yui_ibc_solidity.Wire.Field.{
  Field, Field-bytes, Field-repeated, Field-then, Field-uint, marshal-Field,
}
use yui_ibc_solidity.Wire.Runs.{Runs, Runs-nil, unmarshal-Runs}
use yui_ibc_solidity.Wire.RunsFields.{Runs-bytes, Runs-repeated, Runs-uint}
use yui_ibc_solidity.Wire.Total.{Ends}
use yui_ibc_solidity.Wire.Terminates.{
  Handled-if, Total, case_bytes-Handled, case_uint-Handled, passed, unmarshal-Ends as Ends_all,
}

pub record ConsensusState : Type 0 where
  pub timestamp : ℕ
  pub root : Bytes
  pub validators : List Bytes

-- `ConsensusState{}`
abbrev pub empty : ConsensusState
empty = record { timestamp = 0; root = []; validators = [] }

-- `MarshalToSizedBuffer`, from the last field to the first.
unfoldable pub marshal_to : ConsensusState → Writer
marshal_to m = do put_repeated 0x1a m.validators; put_bytes 0x12 m.root; put_uint 0x8 m.timestamp

-- `Size`
unfoldable pub size : ConsensusState → ℕ
size m = size_uint m.timestamp + size_bytes m.root + size_repeated m.validators

unfoldable pub marshal : ConsensusState → Option Bytes
marshal m = WireWriter.marshal (size m) (marshal_to m)

-- `switch fieldNum` of `Unmarshal`.
unfoldable pub switch : Switch ConsensusState
switch l num ty rest m =
    if num == 1
    then some (case_uint 64 ty rest (λ x. record m { timestamp = x }))
    else if num == 2
    then some (case_bytes l ty rest (λ s. record m { root = s }))
    else if num == 3
    then some (case_bytes l ty rest (λ s. record m { validators = m.validators ++ (s ∷ []) }))
    else none

unfoldable pub unmarshal : Bytes → ConsensusState → Result ConsensusState
unmarshal = WireReader.unmarshal switch

-- The numbers are what their Go types hold.
pub record IsValid (m : ConsensusState) : Type 0 where
  pub timestamp : IsU64 m.timestamp

-- The message in the wire format, its fields in ascending order.
unfoldable pub encoding : ConsensusState → Bytes
encoding m =
    uint_field 0x8 m.timestamp ++ bytes_field 0x12 m.root ++ repeated_field 0x1a m.validators

pub fields : (m : ConsensusState) → IsValid m → Field (size m) (marshal_to m) (encoding m)
unfolding size marshal_to encoding
fields m v =
    Field-then (Field-repeated 0x1a m.validators)
      (Field-then (Field-bytes 0x12 m.root) (Field-uint 0x8 m.timestamp v.timestamp))

-- A decoder that reaches the encoding with an empty message leaves it with the message.
pub Runs-encoding :
    (m : ConsensusState) {l : ℕ} {rest : Bytes} {r : Result ConsensusState}
    → IsValid m
    → IsLength l
    → Runs switch l rest m r
    → Runs switch l (encoding m ++ rest) empty r
unfolding switch encoding
Runs-encoding m v fits k = simp append_assoc (
    Runs-uint _ (omega arith) v.timestamp (λ t. refl) refl
      (Runs-bytes fits m.root _ (omega arith) (λ t. refl) refl
        (Runs-repeated fits m.validators []
          (λ d. record empty { timestamp = m.timestamp; root = m.root; validators = d })
          (omega arith) (λ d t. refl) k)))

pub unmarshal-encoding :
    (m : ConsensusState)
    → IsValid m
    → IsLength (length (encoding m))
    → unmarshal (encoding m) empty ≡ ok m
unfolding unmarshal
unmarshal-encoding m v fits =
    unmarshal-Runs (encoding m) (Runs-encoding m v fits (Runs-nil switch _ m))

-- A message whose numbers fit their Go types and whose `Size()`
-- fits an int is marshalled with no panic, to `Size()` bytes, and these are
-- unmarshalled, into an empty message, to the same message.
pub unmarshal-marshal_ibft2_consensus_state :
    (m : ConsensusState)
    → IsValid m
    → IsLength (size m)
    → (bs : Bytes) × (marshal m ≡ some bs) × (length bs ≡ size m) × (unmarshal bs empty ≡ ok m)
unfolding marshal
unmarshal-marshal_ibft2_consensus_state m v fits =
    let f = fields m v in
    let exact = f.counts fits in
    (encoding m, marshal-Field f fits, sym exact, unmarshal-encoding m v (omega (arith, exact)))

switch-Total : Total IsValid switch
unfolding switch
switch-Total l num ty rest m v =
    Handled-if (num == 1) _ _ (case_uint-Handled 64 ty rest _ (λ x h. record { timestamp = h })) (
      Handled-if (num == 2) _ _
        (case_bytes-Handled l ty rest _ (λ s. record { timestamp = v.timestamp }))
        (Handled-if (num == 3) _ _
          (case_bytes-Handled l ty rest _ (λ s. record { timestamp = v.timestamp })) passed))

-- On any bytes whose number fits an int `Unmarshal` ends, without a panic; where it succeeds, on a message
-- whose numbers fit their Go types, the numbers of the result fit them.
pub unmarshal-Ends_ibft2_consensus_state :
    (src : Bytes) (m : ConsensusState)
    → IsValid m
    → IsLength (length src)
    → Ends IsValid (unmarshal src m)
unfolding unmarshal
unmarshal-Ends_ibft2_consensus_state src m v = Ends_all IsValid switch src m switch-Total v
