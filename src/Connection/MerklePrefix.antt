-- ===== src/Connection/MerklePrefix.antt =====
-- `MerklePrefix` of pkg/ibc/connection/Connection.pb.go: a commitment prefix.
use yui_ibc_solidity.Prelude.{
  Bytes, Option, [], arith, if◌then◌else◌, length, none, refl, some, sym, ℕ, ◌++◌, ◌==◌, ◌≡◌,
}
use yui_ibc_solidity.Wire.Result.{Result, ok}
use yui_ibc_solidity.Wire.Writer as WireWriter
use yui_ibc_solidity.Wire.Writer.{Writer, put_bytes, size_bytes}
use yui_ibc_solidity.Wire.Reader as WireReader
use yui_ibc_solidity.Wire.Reader.{Switch, case_bytes}
use yui_ibc_solidity.Wire.Format.{IsLength, bytes_field}
use yui_ibc_solidity.Wire.Field.{Field, Field-bytes, marshal-Field}
use yui_ibc_solidity.Wire.Runs.{Runs, Runs-nil, unmarshal-Runs}
use yui_ibc_solidity.Wire.RunsFields.{Runs-bytes}
use yui_ibc_solidity.Wire.Total.{Any, Ends}
use yui_ibc_solidity.Wire.Terminates.{
  Handled-if, Total, case_bytes-Handled, passed, unmarshal-Ends as Ends_all,
}

pub record MerklePrefix : Type 0 where
  pub key_prefix : Bytes

-- `MerklePrefix{}`
abbrev pub empty : MerklePrefix
empty = record { key_prefix = [] }

-- `MarshalToSizedBuffer`, from the last field to the first.
unfoldable pub marshal_to : MerklePrefix → Writer
marshal_to m = put_bytes 0xa m.key_prefix

-- `Size`
unfoldable pub size : MerklePrefix → ℕ
size m = size_bytes m.key_prefix

unfoldable pub marshal : MerklePrefix → Option Bytes
marshal m = WireWriter.marshal (size m) (marshal_to m)

-- `switch fieldNum` of `Unmarshal`.
unfoldable pub switch : Switch MerklePrefix
switch l num ty rest m =
    if num == 1 then some (case_bytes l ty rest (λ s. record m { key_prefix = s })) else none

unfoldable pub unmarshal : Bytes → MerklePrefix → Result MerklePrefix
unmarshal = WireReader.unmarshal switch

-- The message in the wire format, its fields in ascending order.
unfoldable pub encoding : MerklePrefix → Bytes
encoding m = bytes_field 0xa m.key_prefix

pub fields : (m : MerklePrefix) → Field (size m) (marshal_to m) (encoding m)
unfolding size marshal_to encoding
fields m = Field-bytes 0xa m.key_prefix

-- A decoder that reaches the encoding with an empty message leaves it with the message.
pub Runs-encoding :
    (m : MerklePrefix) {l : ℕ} {rest : Bytes} {r : Result MerklePrefix}
    → IsLength l
    → Runs switch l rest m r
    → Runs switch l (encoding m ++ rest) empty r
unfolding switch encoding
Runs-encoding m fits k = Runs-bytes fits m.key_prefix _ (omega arith) (λ t. refl) refl k

pub unmarshal-encoding :
    (m : MerklePrefix) → IsLength (length (encoding m)) → unmarshal (encoding m) empty ≡ ok m
unfolding unmarshal
unmarshal-encoding m fits = unmarshal-Runs (encoding m) (Runs-encoding m fits (Runs-nil switch _ m))

-- A message whose `Size()` fits an int is marshalled with no panic, to `Size()` bytes, and these are
-- unmarshalled, into an empty message, to the same message.
pub unmarshal-marshal_merkle_prefix :
    (m : MerklePrefix)
    → IsLength (size m)
    → (bs : Bytes) × (marshal m ≡ some bs) × (length bs ≡ size m) × (unmarshal bs empty ≡ ok m)
unfolding marshal
unmarshal-marshal_merkle_prefix m fits =
    let f = fields m in
    let exact = f.counts fits in
    (encoding m, marshal-Field f fits, sym exact, unmarshal-encoding m (omega (arith, exact)))

switch-Total : Total (Any {A = MerklePrefix}) switch
unfolding switch
switch-Total l num ty rest m v =
    Handled-if (num == 1) _ _ (case_bytes-Handled l ty rest _ (λ s. tt)) passed

-- On any bytes whose number fits an int, and into any message, `Unmarshal` ends, without a panic.
pub unmarshal-Ends_merkle_prefix :
    (src : Bytes) (m : MerklePrefix)
    → IsLength (length src)
    → Ends (Any {A = MerklePrefix}) (unmarshal src m)
unfolding unmarshal
unmarshal-Ends_merkle_prefix src m = Ends_all (Any {A = MerklePrefix}) switch src m switch-Total tt
