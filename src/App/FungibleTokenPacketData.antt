-- ===== src/App/FungibleTokenPacketData.antt =====
-- `FungibleTokenPacketData` of pkg/ibc/app/App.pb.go: the data of an ICS20 transfer packet.
use yui_ibc_solidity.Prelude.{
  Bytes, Option, [], append_assoc, arith, if◌then◌else◌, length, none, refl, some, sym, ℕ, ◌++◌,
  ◌+◌, ◌==◌, ◌≡◌,
}
use yui_ibc_solidity.Wire.Result.{Result, ok}
use yui_ibc_solidity.Wire.Writer as WireWriter
use yui_ibc_solidity.Wire.Writer.{Writer, put_bytes, put_uint, size_bytes, size_uint, ◌>>◌}
use yui_ibc_solidity.Wire.Reader as WireReader
use yui_ibc_solidity.Wire.Reader.{Switch, case_bytes, case_uint}
use yui_ibc_solidity.Wire.Format.{IsLength, IsU64, bytes_field, uint_field}
use yui_ibc_solidity.Wire.Field.{Field, Field-bytes, Field-then, Field-uint, marshal-Field}
use yui_ibc_solidity.Wire.Runs.{Runs, Runs-nil, unmarshal-Runs}
use yui_ibc_solidity.Wire.RunsFields.{Runs-bytes, Runs-uint}
use yui_ibc_solidity.Wire.Total.{Ends}
use yui_ibc_solidity.Wire.Terminates.{
  Handled-if, Total, case_bytes-Handled, case_uint-Handled, passed, unmarshal-Ends as Ends_all,
}

pub record FungibleTokenPacketData : Type 0 where
  pub denom : Bytes
  pub amount : ℕ
  pub sender : Bytes
  pub receiver : Bytes

-- `FungibleTokenPacketData{}`
abbrev pub empty : FungibleTokenPacketData
empty = record { denom = []; amount = 0; sender = []; receiver = [] }

-- `MarshalToSizedBuffer`, from the last field to the first.
unfoldable pub marshal_to : FungibleTokenPacketData → Writer
marshal_to m = do
  put_bytes 0x22 m.receiver
  put_bytes 0x1a m.sender
  put_uint 0x10 m.amount
  put_bytes 0xa m.denom

-- `Size`
unfoldable pub size : FungibleTokenPacketData → ℕ
size m = size_bytes m.denom + size_uint m.amount + size_bytes m.sender + size_bytes m.receiver

unfoldable pub marshal : FungibleTokenPacketData → Option Bytes
marshal m = WireWriter.marshal (size m) (marshal_to m)

-- `switch fieldNum` of `Unmarshal`.
unfoldable pub switch : Switch FungibleTokenPacketData
switch l num ty rest m =
    if num == 1
    then some (case_bytes l ty rest (λ s. record m { denom = s }))
    else if num == 2
    then some (case_uint 64 ty rest (λ x. record m { amount = x }))
    else if num == 3
    then some (case_bytes l ty rest (λ s. record m { sender = s }))
    else if num == 4
    then some (case_bytes l ty rest (λ s. record m { receiver = s }))
    else none

unfoldable pub unmarshal : Bytes → FungibleTokenPacketData → Result FungibleTokenPacketData
unmarshal = WireReader.unmarshal switch

-- The numbers are what their Go types hold.
pub record IsValid (m : FungibleTokenPacketData) : Type 0 where
  pub amount : IsU64 m.amount

-- The message in the wire format, its fields in ascending order.
unfoldable pub encoding : FungibleTokenPacketData → Bytes
encoding m =
    bytes_field 0xa m.denom
    ++ uint_field 0x10 m.amount
    ++ bytes_field 0x1a m.sender
    ++ bytes_field 0x22 m.receiver

pub fields : (m : FungibleTokenPacketData) → IsValid m → Field (size m) (marshal_to m) (encoding m)
unfolding size marshal_to encoding
fields m v = Field-then (Field-bytes 0x22 m.receiver) (
    Field-then (Field-bytes 0x1a m.sender)
      (Field-then (Field-uint 0x10 m.amount v.amount) (Field-bytes 0xa m.denom)))

-- A decoder that reaches the encoding with an empty message leaves it with the message.
pub Runs-encoding :
    (m : FungibleTokenPacketData) {l : ℕ} {rest : Bytes} {r : Result FungibleTokenPacketData}
    → IsValid m
    → IsLength l
    → Runs switch l rest m r
    → Runs switch l (encoding m ++ rest) empty r
unfolding switch encoding
Runs-encoding m v fits k = simp append_assoc (
    Runs-bytes fits m.denom _ (omega arith) (λ t. refl) refl
      (Runs-uint _ (omega arith) v.amount (λ t. refl) refl
        (Runs-bytes fits m.sender _ (omega arith) (λ t. refl) refl
          (Runs-bytes fits m.receiver _ (omega arith) (λ t. refl) refl k))))

pub unmarshal-encoding :
    (m : FungibleTokenPacketData)
    → IsValid m
    → IsLength (length (encoding m))
    → unmarshal (encoding m) empty ≡ ok m
unfolding unmarshal
unmarshal-encoding m v fits =
    unmarshal-Runs (encoding m) (Runs-encoding m v fits (Runs-nil switch _ m))

-- A message whose numbers fit their Go types and whose `Size()`
-- fits an int is marshalled with no panic, to `Size()` bytes, and these are
-- unmarshalled, into an empty message, to the same message.
pub unmarshal-marshal_fungible_token_packet_data :
    (m : FungibleTokenPacketData)
    → IsValid m
    → IsLength (size m)
    → (bs : Bytes) × (marshal m ≡ some bs) × (length bs ≡ size m) × (unmarshal bs empty ≡ ok m)
unfolding marshal
unmarshal-marshal_fungible_token_packet_data m v fits =
    let f = fields m v in
    let exact = f.counts fits in
    (encoding m, marshal-Field f fits, sym exact, unmarshal-encoding m v (omega (arith, exact)))

switch-Total : Total IsValid switch
unfolding switch
switch-Total l num ty rest m v =
    Handled-if (num == 1) _ _ (case_bytes-Handled l ty rest _ (λ s. record { amount = v.amount })) (
      Handled-if (num == 2) _ _ (case_uint-Handled 64 ty rest _ (λ x h. record { amount = h })) (
        Handled-if (num == 3) _ _
          (case_bytes-Handled l ty rest _ (λ s. record { amount = v.amount }))
          (Handled-if (num == 4) _ _
            (case_bytes-Handled l ty rest _ (λ s. record { amount = v.amount })) passed)))

-- On any bytes whose number fits an int `Unmarshal` ends, without a panic; where it succeeds, on a message
-- whose numbers fit their Go types, the numbers of the result fit them.
pub unmarshal-Ends_fungible_token_packet_data :
    (src : Bytes) (m : FungibleTokenPacketData)
    → IsValid m
    → IsLength (length src)
    → Ends IsValid (unmarshal src m)
unfolding unmarshal
unmarshal-Ends_fungible_token_packet_data src m v = Ends_all IsValid switch src m switch-Total v
