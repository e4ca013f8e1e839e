-- ===== src/Connection/Counterparty.antt =====
-- `Counterparty` of pkg/ibc/connection/Connection.pb.go: the other end of a connection.
use yui_ibc_solidity.Prelude.{
  Bytes, Option, [], append_assoc, arith, if◌then◌else◌, length, none, refl, some, sym, ℕ, ◌++◌,
  ◌+◌, ◌==◌, ◌≡◌,
}
use yui_ibc_solidity.Wire.Result.{Result, ok}
use yui_ibc_solidity.Wire.Writer as WireWriter
use yui_ibc_solidity.Wire.Writer.{Writer, put_bytes, put_option, size_bytes, size_option, ◌>>◌}
use yui_ibc_solidity.Wire.Reader as WireReader
use yui_ibc_solidity.Wire.Reader.{Switch, case_bytes, case_message, or_new}
use yui_ibc_solidity.Wire.Format.{IsLength, bytes_field, option_field}
use yui_ibc_solidity.Wire.Field.{Field, Field-bytes, Field-option, Field-then, marshal-Field}
use yui_ibc_solidity.Wire.Runs.{Runs, Runs-nil, unmarshal-Runs}
use yui_ibc_solidity.Wire.RunsFields.{Runs-bytes, Runs-option}
use yui_ibc_solidity.Wire.Total.{Any, Ends}
use yui_ibc_solidity.Wire.Terminates.{
  Handled-if, Total, case_bytes-Handled, case_message-Handled, passed, unmarshal-Ends as Ends_all,
}
use yui_ibc_solidity.Connection.MerklePrefix
use yui_ibc_solidity.Connection.MerklePrefix.{MerklePrefix}

pub record Counterparty : Type 0 where
  pub client_id : Bytes
  pub connection_id : Bytes
  pub prefix : Option MerklePrefix

-- `Counterparty{}`
abbrev pub empty : Counterparty
empty = record { client_id = []; connection_id = []; prefix = none }

-- `MarshalToSizedBuffer`, from the last field to the first.
unfoldable pub marshal_to : Counterparty → Writer
marshal_to m = do
  put_option 0x1a MerklePrefix.marshal_to m.prefix
  put_bytes 0x12 m.connection_id
  put_bytes 0xa m.client_id

-- `Size`
unfoldable pub size : Counterparty → ℕ
size m =
    size_bytes m.client_id + size_bytes m.connection_id + size_option MerklePrefix.size m.prefix

unfoldable pub marshal : Counterparty → Option Bytes
marshal m = WireWriter.marshal (size m) (marshal_to m)

-- `switch fieldNum` of `Unmarshal`.
unfoldable pub switch : Switch Counterparty
switch l num ty rest m =
    if num == 1
    then some (case_bytes l ty rest (λ s. record m { client_id = s }))
    else if num == 2
    then some (case_bytes l ty rest (λ s. record m { connection_id = s }))
    else if num == 3
    then some (
        case_message l ty rest (λ s. MerklePrefix.unmarshal s (or_new MerklePrefix.empty m.prefix))
          (λ x. record m { prefix = some x }))
    else none

unfoldable pub unmarshal : Bytes → Counterparty → Result Counterparty
unmarshal = WireReader.unmarshal switch

-- The message in the wire format, its fields in ascending order.
unfoldable pub encoding : Counterparty → Bytes
encoding m =
    bytes_field 0xa m.client_id
    ++ bytes_field 0x12 m.connection_id
    ++ option_field 0x1a MerklePrefix.encoding m.prefix

pub fields : (m : Counterparty) → Field (size m) (marshal_to m) (encoding m)
unfolding size marshal_to encoding
fields m =
    Field-then (Field-option 0x1a m.prefix MerklePrefix.fields)
      (Field-then (Field-bytes 0x12 m.connection_id) (Field-bytes 0xa m.client_id))

-- A decoder that reaches the encoding with an empty message leaves it with the message.
pub Runs-encoding :
    (m : Counterparty) {l : ℕ} {rest : Bytes} {r : Result Counterparty}
    → IsLength l
    → Runs switch l rest m r
    → Runs switch l (encoding m ++ rest) empty r
unfolding switch encoding
Runs-encoding m fits k = simp append_assoc (
    Runs-bytes fits m.client_id _ (omega arith) (λ t. refl) refl
      (Runs-bytes fits m.connection_id _ (omega arith) (λ t. refl) refl
        (Runs-option fits m.prefix (λ s. MerklePrefix.unmarshal s MerklePrefix.empty)
          (λ x. record empty {
            client_id = m.client_id;
            connection_id = m.connection_id;
            prefix = x;
          })
          (omega arith) (λ t. refl) MerklePrefix.unmarshal-encoding k)))

pub unmarshal-encoding :
    (m : Counterparty) → IsLength (length (encoding m)) → unmarshal (encoding m) empty ≡ ok m
unfolding unmarshal
unmarshal-encoding m fits = unmarshal-Runs (encoding m) (Runs-encoding m fits (Runs-nil switch _ m))

-- A message whose `Size()` fits an int is marshalled with no panic, to `Size()` bytes, and these are
-- unmarshalled, into an empty message, to the same message.
pub unmarshal-marshal_connection_counterparty :
    (m : Counterparty)
    → IsLength (size m)
    → (bs : Bytes) × (marshal m ≡ some bs) × (length bs ≡ size m) × (unmarshal bs empty ≡ ok m)
unfolding marshal
unmarshal-marshal_connection_counterparty m fits =
    let f = fields m in
    let exact = f.counts fits in
    (encoding m, marshal-Field f fits, sym exact, unmarshal-encoding m (omega (arith, exact)))

switch-Total : Total (Any {A = Counterparty}) switch
unfolding switch
switch-Total l num ty rest m v =
    Handled-if (num == 1) _ _ (case_bytes-Handled l ty rest _ (λ s. tt)) (
      Handled-if (num == 2) _ _ (case_bytes-Handled l ty rest _ (λ s. tt)) (
        Handled-if (num == 3) _ _
          (case_message-Handled Any l ty rest _ _
            (λ s. MerklePrefix.unmarshal-Ends_merkle_prefix s _) (λ x h. tt))
          passed))

-- On any bytes whose number fits an int, and into any message, `Unmarshal` ends, without a panic.
pub unmarshal-Ends_connection_counterparty :
    (src : Bytes) (m : Counterparty)
    → IsLength (length src)
    → Ends (Any {A = Counterparty}) (unmarshal src m)
unfolding unmarshal
unmarshal-Ends_connection_counterparty src m =
    Ends_all (Any {A = Counterparty}) switch src m switch-Total tt
