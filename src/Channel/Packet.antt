-- ===== src/Channel/Packet.antt =====
-- `Packet` of pkg/ibc/channel/Channel.pb.go: a packet; `payload` is its field `Data`.
use yui_ibc_solidity.Prelude.{
  Bytes, Option, [], append_assoc, arith, if◌then◌else◌, length, none, refl, some, sym, ℕ, ◌++◌,
  ◌+◌, ◌/◌, ◌<◌, ◌==◌, ◌≡◌,
}
use yui_ibc_solidity.Wire.Result.{Result, ok}
use yui_ibc_solidity.Wire.Writer as WireWriter
use yui_ibc_solidity.Wire.Writer.{
  Writer, put_bytes, put_message, put_uint, size_bytes, size_chunk, size_uint, ◌>>◌,
}
use yui_ibc_solidity.Wire.Reader as WireReader
use yui_ibc_solidity.Wire.Reader.{Switch, case_bytes, case_message, case_uint}
use yui_ibc_solidity.Wire.Format.{IsLength, IsU64, bytes_field, chunk, uint_field}
use yui_ibc_solidity.Wire.Field.{
  Field, Field-bytes, Field-message, Field-then, Field-uint, marshal-Field,
}
use yui_ibc_solidity.Wire.Runs.{IsTag, Runs, Runs-message, Runs-nil, unmarshal-Runs}
use yui_ibc_solidity.Wire.RunsFields.{Runs-bytes, Runs-uint}
use yui_ibc_solidity.Wire.Unknown.{Runs-unknown}
use yui_ibc_solidity.Wire.Total.{Ends}
use yui_ibc_solidity.Wire.Terminates.{
  Handled-if, Total, case_bytes-Handled, case_message-Handled, case_uint-Handled, passed,
  unmarshal-Ends as Ends_all,
}
use yui_ibc_solidity.Channel.Height
use yui_ibc_solidity.Channel.Height.{Height}

pub record Packet : Type 0 where
  pub sequence : ℕ
  pub source_port : Bytes
  pub source_channel : Bytes
  pub destination_port : Bytes
  pub destination_channel : Bytes
  pub payload : Bytes
  pub timeout_height : Height
  pub timeout_timestamp : ℕ

-- `Packet{}`
abbrev pub empty : Packet
empty = record {
  sequence = 0;
  source_port = [];
  source_channel = [];
  destination_port = [];
  destination_channel = [];
  payload = [];
  timeout_height = Height.empty;
  timeout_timestamp = 0;
}

-- `MarshalToSizedBuffer`, from the last field to the first.
unfoldable pub marshal_to : Packet → Writer
marshal_to m = do
  put_uint 0x40 m.timeout_timestamp
  put_message 0x3a (Height.marshal_to m.timeout_height)
  put_bytes 0x32 m.payload
  put_bytes 0x2a m.destination_channel
  put_bytes 0x22 m.destination_port
  put_bytes 0x1a m.source_channel
  put_bytes 0x12 m.source_port
  put_uint 0x8 m.sequence

-- `Size`
unfoldable pub size : Packet → ℕ
size m =
    size_uint m.sequence
    + size_bytes m.source_port
    + size_bytes m.source_channel
    + size_bytes m.destination_port
    + size_bytes m.destination_channel
    + size_bytes m.payload
    + size_chunk (Height.size m.timeout_height)
    + size_uint m.timeout_timestamp

unfoldable pub marshal : Packet → Option Bytes
marshal m = WireWriter.marshal (size m) (marshal_to m)

-- `switch fieldNum` of `Unmarshal`.
unfoldable pub switch : Switch Packet
switch l num ty rest m =
    if num == 1
    then some (case_uint 64 ty rest (λ x. record m { sequence = x }))
    else if num == 2
    then some (case_bytes l ty rest (λ s. record m { source_port = s }))
    else if num == 3
    then some (case_bytes l ty rest (λ s. record m { source_channel = s }))
    else if num == 4
    then some (case_bytes l ty rest (λ s. record m { destination_port = s }))
    else if num == 5
    then some (case_bytes l ty rest (λ s. record m { destination_channel = s }))
    else if num == 6
    then some (case_bytes l ty rest (λ s. record m { payload = s }))
    else if num == 7
    then some (
        case_message l ty rest (λ s. Height.unmarshal s m.timeout_height)
          (λ x. record m { timeout_height = x }))
    else if num == 8
    then some (case_uint 64 ty rest (λ x. record m { timeout_timestamp = x }))
    else none

unfoldable pub unmarshal : Bytes → Packet → Result Packet
unmarshal = WireReader.unmarshal switch

-- The numbers are what their Go types hold.
pub record IsValid (m : Packet) : Type 0 where
  pub sequence : IsU64 m.sequence
  pub timeout_height : Height.IsValid m.timeout_height
  pub timeout_timestamp : IsU64 m.timeout_timestamp

-- The message in the wire format, its fields in ascending order.
unfoldable pub encoding : Packet → Bytes
encoding m =
    uint_field 0x8 m.sequence
    ++ bytes_field 0x12 m.source_port
    ++ bytes_field 0x1a m.source_channel
    ++ bytes_field 0x22 m.destination_port
    ++ bytes_field 0x2a m.destination_channel
    ++ bytes_field 0x32 m.payload
    ++ chunk 0x3a (Height.encoding m.timeout_height)
    ++ uint_field 0x40 m.timeout_timestamp

pub fields : (m : Packet) → IsValid m → Field (size m) (marshal_to m) (encoding m)
unfolding size marshal_to encoding
fields m v = Field-then (Field-uint 0x40 m.timeout_timestamp v.timeout_timestamp) (
    Field-then (Field-message 0x3a (Height.fields m.timeout_height v.timeout_height)) (
      Field-then (Field-bytes 0x32 m.payload) (
        Field-then (Field-bytes 0x2a m.destination_channel) (
          Field-then (Field-bytes 0x22 m.destination_port) (
            Field-then (Field-bytes 0x1a m.source_channel) (
              Field-then (Field-bytes 0x12 m.source_port)
                (Field-uint 0x8 m.sequence v.sequence)))))))

-- A decoder that reaches the encoding with an empty message leaves it with the message.
pub Runs-encoding :
    (m : Packet) {l : ℕ} {rest : Bytes} {r : Result Packet}
    → IsValid m
    → IsLength l
    → Runs switch l rest m r
    → Runs switch l (encoding m ++ rest) empty r
unfolding switch encoding
Runs-encoding m v fits k = simp append_assoc (
    Runs-uint _ (omega arith) v.sequence (λ t. refl) refl
      (Runs-bytes fits m.source_port _ (omega arith) (λ t. refl) refl
        (Runs-bytes fits m.source_channel _ (omega arith) (λ t. refl) refl
          (Runs-bytes fits m.destination_port _ (omega arith) (λ t. refl) refl
            (Runs-bytes fits m.destination_channel _ (omega arith) (λ t. refl) refl
              (Runs-bytes fits m.payload _ (omega arith) (λ t. refl) refl
                (Runs-message fits (Height.encoding m.timeout_height) _ _ (omega arith) (λ t. refl)
                  (Height.unmarshal-encoding m.timeout_height v.timeout_height)
                  (Runs-uint _ (omega arith) v.timeout_timestamp (λ t. refl) refl k))))))))

pub unmarshal-encoding :
    (m : Packet) → IsValid m → IsLength (length (encoding m)) → unmarshal (encoding m) empty ≡ ok m
unfolding unmarshal
unmarshal-encoding m v fits =
    unmarshal-Runs (encoding m) (Runs-encoding m v fits (Runs-nil switch _ m))

-- A message whose numbers fit their Go types and whose `Size()`
-- fits an int is marshalled with no panic, to `Size()` bytes, and these are
-- unmarshalled, into an empty message, to the same message.
pub unmarshal-marshal_packet :
    (m : Packet)
    → IsValid m
    → IsLength (size m)
    → (bs : Bytes) × (marshal m ≡ some bs) × (length bs ≡ size m) × (unmarshal bs empty ≡ ok m)
unfolding marshal
unmarshal-marshal_packet m v fits =
    let f = fields m v in
    let exact = f.counts fits in
    (encoding m, marshal-Field f fits, sym exact, unmarshal-encoding m v (omega (arith, exact)))

-- A length-delimited field with a one-byte tag and a number above 8, behind the encoding of a
-- message whose numbers fit their Go types, is passed over where the whole fits an int.
pub unmarshal-unknown_packet :
    (m : Packet) (tag : ℕ) (s : Bytes)
    → IsValid m
    → IsTag 2 tag
    → 8 < tag / 8
    → IsLength (length (encoding m ++ chunk tag s))
    → unmarshal (encoding m ++ chunk tag s) empty ≡ ok m
unfolding unmarshal switch
unmarshal-unknown_packet m tag s v ht new fits = unmarshal-Runs (encoding m ++ chunk tag s) (
    rw (append_assoc (encoding m) (chunk tag s) [])
      (Runs-encoding m v fits (Runs-unknown s ht fits (λ t. ground arith) (Runs-nil switch _ m))))

switch-Total : Total IsValid switch
unfolding switch
switch-Total l num ty rest m v =
    Handled-if (num == 1) _ _
      (case_uint-Handled 64 ty rest _ (λ x h. record {
        sequence = h;
        timeout_height = v.timeout_height;
        timeout_timestamp = v.timeout_timestamp;
      }))
      (Handled-if (num == 2) _ _
        (case_bytes-Handled l ty rest _ (λ s. record {
          sequence = v.sequence;
          timeout_height = v.timeout_height;
          timeout_timestamp = v.timeout_timestamp;
        }))
        (Handled-if (num == 3) _ _
          (case_bytes-Handled l ty rest _ (λ s. record {
            sequence = v.sequence;
            timeout_height = v.timeout_height;
            timeout_timestamp = v.timeout_timestamp;
          }))
          (Handled-if (num == 4) _ _
            (case_bytes-Handled l ty rest _ (λ s. record {
              sequence = v.sequence;
              timeout_height = v.timeout_height;
              timeout_timestamp = v.timeout_timestamp;
            }))
            (Handled-if (num == 5) _ _
              (case_bytes-Handled l ty rest _ (λ s. record {
                sequence = v.sequence;
                timeout_height = v.timeout_height;
                timeout_timestamp = v.timeout_timestamp;
              }))
              (Handled-if (num == 6) _ _
                (case_bytes-Handled l ty rest _ (λ s. record {
                  sequence = v.sequence;
                  timeout_height = v.timeout_height;
                  timeout_timestamp = v.timeout_timestamp;
                }))
                (Handled-if (num == 7) _ _
                  (case_message-Handled Height.IsValid l ty rest _ _
                    (λ s. Height.unmarshal-Ends_height s m.timeout_height v.timeout_height)
                    (λ x h. record {
                      sequence = v.sequence;
                      timeout_height = h;
                      timeout_timestamp = v.timeout_timestamp;
                    }))
                  (Handled-if (num == 8) _ _
                    (case_uint-Handled 64 ty rest _ (λ x h. record {
                      sequence = v.sequence;
                      timeout_height = v.timeout_height;
                      timeout_timestamp = h;
                    }))
                    passed)))))))

-- On any bytes whose number fits an int `Unmarshal` ends, without a panic; where it succeeds, on a message
-- whose numbers fit their Go types, the numbers of the result fit them.
pub unmarshal-Ends_packet :
    (src : Bytes) (m : Packet) → IsValid m → IsLength (length src) → Ends IsValid (unmarshal src m)
unfolding unmarshal
unmarshal-Ends_packet src m v = Ends_all IsValid switch src m switch-Total v
