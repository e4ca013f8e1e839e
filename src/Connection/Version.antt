-- ===== src/Connection/Version.antt =====
-- `Version` of pkg/ibc/connection/Connection.pb.go: a connection version.
use yui_ibc_solidity.Prelude.{
  Bytes, List, Option, [], append_assoc, arith, if◌then◌else◌, length, none, refl, some, sym, ℕ,
  ◌++◌, ◌+◌, ◌==◌, ◌∷◌, ◌≡◌,
}
use yui_ibc_solidity.Wire.Result.{Result, ok}
use yui_ibc_solidity.Wire.Writer as WireWriter
use yui_ibc_solidity.Wire.Writer.{Writer, put_bytes, put_repeated, size_bytes, size_repeated, ◌>>◌}
use yui_ibc_solidity.Wire.Reader as WireReader
use yui_ibc_solidity.Wire.Reader.{Switch, case_bytes}
use yui_ibc_solidity.Wire.Format.{IsLength, bytes_field, repeated_field}
use yui_ibc_solidity.Wire.Field.{Field, Field-bytes, Field-repeated, Field-then, marshal-Field}
use yui_ibc_solidity.Wire.Runs.{Runs, Runs-nil, unmarshal-Runs}
use yui_ibc_solidity.Wire.RunsFields.{Runs-bytes, Runs-repeated}
use yui_ibc_solidity.Wire.Total.{Any, Ends}
use yui_ibc_solidity.Wire.Terminates.{
  Handled-if, Total, case_bytes-Handled, passed, unmarshal-Ends as Ends_all,
}

pub record Version : Type 0 where
  pub identifier : Bytes
  pub features : List Bytes

-- `Version{}`
abbrev pub empty : Version
empty = record { identifier = []; features = [] }

-- `MarshalToSizedBuffer`, from the last field to the first.
unfoldable pub marshal_to : Version → Writer
marshal_to m = do put_repeated 0x12 m.features; put_bytes 0xa m.identifier

-- `Size`
unfoldable pub size : Version → ℕ
size m = size_bytes m.identifier + size_repeated m.features

unfoldable pub marshal : Version → Option Bytes
marshal m = WireWriter.marshal (size m) (marshal_to m)

-- `switch fieldNum` of `Unmarshal`.
unfoldable pub switch : Switch Version
switch l num ty rest m =
    if num == 1
    then some (case_bytes l ty rest (λ s. record m { identifier = s }))
    else if num == 2
    then some (case_bytes l ty rest (λ s. record m { features = m.features ++ (s ∷ []) }))
    else none

unfoldable pub unmarshal : Bytes → Version → Result Version
unmarshal = WireReader.unmarshal switch

-- The message in the wire format, its fields in ascending order.
unfoldable pub encoding : Version → Bytes
encoding m = bytes_field 0xa m.identifier ++ repeated_field 0x12 m.features

pub fields : (m : Version) → Field (size m) (marshal_to m) (encoding m)
unfolding size marshal_to encoding
fields m = Field-then (Field-repeated 0x12 m.features) (Field-bytes 0xa m.identifier)

-- A decoder that reaches the encoding with an empty message leaves it with the message.
pub Runs-encoding :
    (m : Version) {l : ℕ} {rest : Bytes} {r : Result Version}
    → IsLength l
    → Runs switch l rest m r
    → Runs switch l (encoding m ++ rest) empty r
unfolding switch encoding
Runs-encoding m fits k = simp append_assoc (
    Runs-bytes fits m.identifier _ (omega arith) (λ t. refl) refl
      (Runs-repeated fits m.features []
        (λ d. record empty { identifier = m.identifier; features = d }) (omega arith) (λ d t. refl)
        k))

pub unmarshal-encoding :
    (m : Version) → IsLength (length (encoding m)) → unmarshal (encoding m) empty ≡ ok m
unfolding unmarshal
unmarshal-encoding m fits = unmarshal-Runs (encoding m) (Runs-encoding m fits (Runs-nil switch _ m))

-- A message whose `Size()` fits an int is marshalled with no panic, to `Size()` bytes, and these are
-- unmarshalled, into an empty message, to the same message.
pub unmarshal-marshal_version :
    (m : Version)
    → IsLength (size m)
    → (bs : Bytes) × (marshal m ≡ some bs) × (length bs ≡ size m) × (unmarshal bs empty ≡ ok m)
unfolding marshal
unmarshal-marshal_version m fits =
    let f = fields m in
    let exact = f.counts fits in
    (encoding m, marshal-Field f fits, sym exact, unmarshal-encoding m (omega (arith, exact)))

switch-Total : Total (Any {A = Version}) switch
unfolding switch
switch-Total l num ty rest m v =
    Handled-if (num == 1) _ _ (case_bytes-Handled l ty rest _ (λ s. tt))
      (Handled-if (num == 2) _ _ (case_bytes-Handled l ty rest _ (λ s. tt)) passed)

-- On any bytes whose number fits an int, and into any message, `Unmarshal` ends, without a panic.
pub unmarshal-Ends_version :
    (src : Bytes) (m : Version) → IsLength (length src) → Ends (Any {A = Version}) (unmarshal src m)
unfolding unmarshal
unmarshal-Ends_version src m = Ends_all (Any {A = Version}) switch src m switch-Total tt
