-- ===== src/Channel/Counterparty.antt =====
-- `Channel_Counterparty` of pkg/ibc/channel/Channel.pb.go: the other end of a channel.
use yui_ibc_solidity.Prelude.{
  Bytes, Option, [], append_assoc, arith, if◌then◌else◌, length, none, refl, some, sym, ℕ, ◌++◌,
  ◌+◌, ◌==◌, ◌≡◌,
}
use yui_ibc_solidity.Wire.Result.{Result, ok}
use yui_ibc_solidity.Wire.Writer as WireWriter
use yui_ibc_solidity.Wire.Writer.{Writer, put_bytes, size_bytes, ◌>>◌}
use yui_ibc_solidity.Wire.Reader as WireReader
use yui_ibc_solidity.Wire.Reader.{Switch, case_bytes}
use yui_ibc_solidity.Wire.Format.{IsLength, bytes_field}
use yui_ibc_solidity.Wire.Field.{Field, Field-bytes, Field-then, marshal-Field}
use yui_ibc_solidity.Wire.Runs.{Runs, Runs-nil, unmarshal-Runs}
use yui_ibc_solidity.Wire.RunsFields.{Runs-bytes}
use yui_ibc_solidity.Wire.Total.{Any, Ends}
use yui_ibc_solidity.Wire.Terminates.{
  Handled-if, Total, case_bytes-Handled, passed, unmarshal-Ends as Ends_all,
}

pub record Counterparty : Type 0 where
  pub port_id : Bytes
  pub channel_id : Bytes

-- `Channel_Counterparty{}`
abbrev pub empty : Counterparty
empty = record { port_id = []; channel_id = [] }

-- `MarshalToSizedBuffer`, from the last field to the first.
unfoldable pub marshal_to : Counterparty → Writer
marshal_to m = do put_bytes 0x12 m.channel_id; put_bytes 0xa m.port_id

-- `Size`
unfoldable pub size : Counterparty → ℕ
size m = size_bytes m.port_id + size_bytes m.channel_id

unfoldable pub marshal : Counterparty → Option Bytes
marshal m = WireWriter.marshal (size m) (marshal_to m)

-- `switch fieldNum` of `Unmarshal`.
unfoldable pub switch : Switch Counterparty
switch l num ty rest m =
    if num == 1
    then some (case_bytes l ty rest (λ s. record m { port_id = s }))
    else if num == 2
    then some (case_bytes l ty rest (λ s. record m { channel_id = s }))
    else none

unfoldable pub unmarshal : Bytes → Counterparty → Result Counterparty
unmarshal = WireReader.unmarshal switch

-- The message in the wire format, its fields in ascending order.
unfoldable pub encoding : Counterparty → Bytes
encoding m = bytes_field 0xa m.port_id ++ bytes_field 0x12 m.channel_id

pub fields : (m : Counterparty) → Field (size m) (marshal_to m) (encoding m)
unfolding size marshal_to encoding
fields m = Field-then (Field-bytes 0x12 m.channel_id) (Field-bytes 0xa m.port_id)

-- A decoder that reaches the encoding with an empty message leaves it with the message.
pub Runs-encoding :
    (m : Counterparty) {l : ℕ} {rest : Bytes} {r : Result Counterparty}
    → IsLength l
    → Runs switch l rest m r
    → Runs switch l (encoding m ++ rest) empty r
unfolding switch encoding
Runs-encoding m fits k = simp append_assoc (
    Runs-bytes fits m.port_id _ (omega arith) (λ t. refl) refl
      (Runs-bytes fits m.channel_id _ (omega arith) (λ t. refl) refl k))

pub unmarshal-encoding :
    (m : Counterparty) → IsLength (length (encoding m)) → unmarshal (encoding m) empty ≡ ok m
unfolding unmarshal
unmarshal-encoding m fits = unmarshal-Runs (encoding m) (Runs-encoding m fits (Runs-nil switch _ m))

-- A message whose `Size()` fits an int is marshalled with no panic, to `Size()` bytes, and these are
-- unmarshalled, into an empty message, to the same message.
pub unmarshal-marshal_channel_counterparty :
    (m : Counterparty)
    → IsLength (size m)
    → (bs : Bytes) × (marshal m ≡ some bs) × (length bs ≡ size m) × (unmarshal bs empty ≡ ok m)
unfolding marshal
unmarshal-marshal_channel_counterparty m fits =
    let f = fields m in
    let exact = f.counts fits in
    (encoding m, marshal-Field f fits, sym exact, unmarshal-encoding m (omega (arith, exact)))

switch-Total : Total (Any {A = Counterparty}) switch
unfolding switch
switch-Total l num ty rest m v =
    Handled-if (num == 1) _ _ (case_bytes-Handled l ty rest _ (λ s. tt))
      (Handled-if (num == 2) _ _ (case_bytes-Handled l ty rest _ (λ s. tt)) passed)

-- On any bytes whose number fits an int, and into any message, `Unmarshal` ends, without a panic.
pub unmarshal-Ends_channel_counterparty :
    (src : Bytes) (m : Counterparty)
    → IsLength (length src)
    → Ends (Any {A = Counterparty}) (unmarshal src m)
unfolding unmarshal
unmarshal-Ends_channel_counterparty src m =
    Ends_all (Any {A = Counterparty}) switch src m switch-Total tt
