-- ===== src/Channel/PacketState.antt =====
-- `PacketState` of pkg/ibc/channel/Channel.pb.go: the state of a packet; `payload` is its field `Data`.
use yui_ibc_solidity.Prelude.{
  Bytes, Option, [], append_assoc, arith, if◌then◌else◌, length, none, refl, some, sym, ℕ, ◌++◌,
  ◌+◌, ◌==◌, ◌≡◌,
}
use yui_ibc_solidity.Wire.Result.{Result, ok}
use yui_ibc_solidity.Wire.Writer as WireWriter
use yui_ibc_solidity.Wire.Writer.{Writer, put_bytes, put_uint, size_bytes, size_uint, ◌>>◌}
use yui_ibc_solidity.Wire.Reader as WireReader
use yui_ibc_solidity.Wire.Reader.{Switch, case_bytes, case_uint}
use yui_ibc_solidity.Wire.Format.{IsLength, IsU64, bytes_field, uint_field}
use yui_ibc_solidity.Wire.Field.{Field, Field-bytes, Field-then, Field-uint, marshal-Field}
use yui_ibc_solidity.Wire.Runs.{Runs, Runs-nil, unmarshal-Runs}
use yui_ibc_solidity.Wire.RunsFields.{Runs-bytes, Runs-uint}
use yui_ibc_solidity.Wire.Total.{Ends}
use yui_ibc_solidity.Wire.Terminates.{
  Handled-if, Total, case_bytes-Handled, case_uint-Handled, passed, unmarshal-Ends as Ends_all,
}

pub record PacketState : Type 0 where
  pub port_id : Bytes
  pub channel_id : Bytes
  pub sequence : ℕ
  pub payload : Bytes

-- `PacketState{}`
abbrev pub empty : PacketState
empty = record { port_id = []; channel_id = []; sequence = 0; payload = [] }

-- `MarshalToSizedBuffer`, from the last field to the first.
unfoldable pub marshal_to : PacketState → Writer
marshal_to m = do
  put_bytes 0x22 m.payload
  put_uint 0x18 m.sequence
  put_bytes 0x12 m.channel_id
  put_bytes 0xa m.port_id

-- `Size`
unfoldable pub size : PacketState → ℕ
size m =
    size_bytes m.port_id + size_bytes m.channel_id + size_uint m.sequence + size_bytes m.payload

unfoldable pub marshal : PacketState → Option Bytes
marshal m = WireWriter.marshal (size m) (marshal_to m)

-- `switch fieldNum` of `Unmarshal`.
unfoldable pub switch : Switch PacketState
switch l num ty rest m =
    if num == 1
    then some (case_bytes l ty rest (λ s. record m { port_id = s }))
    else if num == 2
    then some (case_bytes l ty rest (λ s. record m { channel_id = s }))
    else if num == 3
    then some (case_uint 64 ty rest (λ x. record m { sequence = x }))
    else if num == 4
    then some (case_bytes l ty rest (λ s. record m { payload = s }))
    else none

unfoldable pub unmarshal : Bytes → PacketState → Result PacketState
unmarshal = WireReader.unmarshal switch

-- The numbers are what their Go types hold.
pub record IsValid (m : PacketState) : Type 0 where
  pub sequence : IsU64 m.sequence

-- The message in the wire format, its fields in ascending order.
unfoldable pub encoding : PacketState → Bytes
encoding m =
    bytes_field 0xa m.port_id
    ++ bytes_field 0x12 m.channel_id
    ++ uint_field 0x18 m.sequence
    ++ bytes_field 0x22 m.payload

pub fields : (m : PacketState) → IsValid m → Field (size m) (marshal_to m) (encoding m)
unfolding size marshal_to encoding
fields m v = Field-then (Field-bytes 0x22 m.payload) (
    Field-then (Field-uint 0x18 m.sequence v.sequence)
      (Field-then (Field-bytes 0x12 m.channel_id) (Field-bytes 0xa m.port_id)))

-- A decoder that reaches the encoding with an empty message leaves it with the message.
pub Runs-encoding :
    (m : PacketState) {l : ℕ} {rest : Bytes} {r : Result PacketState}
    → IsValid m
    → IsLength l
    → Runs switch l rest m r
    → Runs switch l (encoding m ++ rest) empty r
unfolding switch encoding
Runs-encoding m v fits k = simp append_assoc (
    Runs-bytes fits m.port_id _ (omega arith) (λ t. refl) refl
      (Runs-bytes fits m.channel_id _ (omega arith) (λ t. refl) refl
        (Runs-uint _ (omega arith) v.sequence (λ t. refl) refl
          (Runs-bytes fits m.payload _ (omega arith) (λ t. refl) refl k))))

pub unmarshal-encoding :
    (m : PacketState)
    → IsValid m
    → IsLength (length (encoding m))
    → unmarshal (encoding m) empty ≡ ok m
unfolding unmarshal
unmarshal-encoding m v fits =
    unmarshal-Runs (encoding m) (Runs-encoding m v fits (Runs-nil switch _ m))

-- A message whose numbers fit their Go types and whose `Size()`
-- fits an int is marshalled with no panic, to `Size()` bytes, and these are
-- unmarshalled, into an empty message, to the same message.
pub unmarshal-marshal_packet_state :
    (m : PacketState)
    → IsValid m
    → IsLength (size m)
    → (bs : Bytes) × (marshal m ≡ some bs) × (length bs ≡ size m) × (unmarshal bs empty ≡ ok m)
unfolding marshal
unmarshal-marshal_packet_state m v fits =
    let f = fields m v in
    let exact = f.counts fits in
    (encoding m, marshal-Field f fits, sym exact, unmarshal-encoding m v (omega (arith, exact)))

switch-Total : Total IsValid switch
unfolding switch
switch-Total l num ty rest m v =
    Handled-if (num == 1) _ _
      (case_bytes-Handled l ty rest _ (λ s. record { sequence = v.sequence }))
      (Handled-if (num == 2) _ _
        (case_bytes-Handled l ty rest _ (λ s. record { sequence = v.sequence }))
        (Handled-if (num == 3) _ _ (case_uint-Handled 64 ty rest _ (λ x h. record { sequence = h }))
          (Handled-if (num == 4) _ _
            (case_bytes-Handled l ty rest _ (λ s. record { sequence = v.sequence })) passed)))

-- On any bytes whose number fits an int `Unmarshal` ends, without a panic; where it succeeds, on a message
-- whose numbers fit their Go types, the numbers of the result fit them.
pub unmarshal-Ends_packet_state :
    (src : Bytes) (m : PacketState)
    → IsValid m
    → IsLength (length src)
    → Ends IsValid (unmarshal src m)
unfolding unmarshal
unmarshal-Ends_packet_state src m v = Ends_all IsValid switch src m switch-Total v
