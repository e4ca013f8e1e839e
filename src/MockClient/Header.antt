-- ===== src/MockClient/Header.antt =====
-- `Header` of pkg/ibc/client/mock/MockClient.pb.go: the header that updates the mock client.
use yui_ibc_solidity.Prelude.{
  Bytes, Option, append_assoc, arith, if◌then◌else◌, length, none, refl, some, sym, ℕ, ◌++◌, ◌+◌,
  ◌==◌, ◌≡◌,
}
use yui_ibc_solidity.Wire.Result.{Result, ok}
use yui_ibc_solidity.Wire.Writer as WireWriter
use yui_ibc_solidity.Wire.Writer.{Writer, put_uint, size_uint, ◌>>◌}
use yui_ibc_solidity.Wire.Reader as WireReader
use yui_ibc_solidity.Wire.Reader.{Switch, case_uint}
use yui_ibc_solidity.Wire.Format.{IsLength, IsU64, uint_field}
use yui_ibc_solidity.Wire.Field.{Field, Field-then, Field-uint, marshal-Field}
use yui_ibc_solidity.Wire.Runs.{Runs, Runs-nil, unmarshal-Runs}
use yui_ibc_solidity.Wire.RunsFields.{Runs-uint}
use yui_ibc_solidity.Wire.Total.{Ends}
use yui_ibc_solidity.Wire.Terminates.{
  Handled-if, Total, case_uint-Handled, passed, unmarshal-Ends as Ends_all,
}

pub record Header : Type 0 where
  pub height : ℕ
  pub timestamp : ℕ

-- `Header{}`
abbrev pub empty : Header
empty = record { height = 0; timestamp = 0 }

-- `MarshalToSizedBuffer`, from the last field to the first.
unfoldable pub marshal_to : Header → Writer
marshal_to m = do put_uint 0x10 m.timestamp; put_uint 0x8 m.height

-- `Size`
unfoldable pub size : Header → ℕ
size m = size_uint m.height + size_uint m.timestamp

unfoldable pub marshal : Header → Option Bytes
marshal m = WireWriter.marshal (size m) (marshal_to m)

-- `switch fieldNum` of `Unmarshal`.
unfoldable pub switch : Switch Header
switch l num ty rest m =
    if num == 1
    then some (case_uint 64 ty rest (λ x. record m { height = x }))
    else if num == 2
    then some (case_uint 64 ty rest (λ x. record m { timestamp = x }))
    else none

unfoldable pub unmarshal : Bytes → Header → Result Header
unmarshal = WireReader.unmarshal switch

-- The numbers are what their Go types hold.
pub record IsValid (m : Header) : Type 0 where
  pub height : IsU64 m.height
  pub timestamp : IsU64 m.timestamp

-- The message in the wire format, its fields in ascending order.
unfoldable pub encoding : Header → Bytes
encoding m = uint_field 0x8 m.height ++ uint_field 0x10 m.timestamp

pub fields : (m : Header) → IsValid m → Field (size m) (marshal_to m) (encoding m)
unfolding size marshal_to encoding
fields m v = Field-then (Field-uint 0x10 m.timestamp v.timestamp) (Field-uint 0x8 m.height v.height)

-- A decoder that reaches the encoding with an empty message leaves it with the message.
pub Runs-encoding :
    (m : Header) {l : ℕ} {rest : Bytes} {r : Result Header}
    → IsValid m
    → IsLength l
    → Runs switch l rest m r
    → Runs switch l (encoding m ++ rest) empty r
unfolding switch encoding
Runs-encoding m v fits k = simp append_assoc (
    Runs-uint _ (omega arith) v.height (λ t. refl) refl
      (Runs-uint _ (omega arith) v.timestamp (λ t. refl) refl k))

pub unmarshal-encoding :
    (m : Header) → IsValid m → IsLength (length (encoding m)) → unmarshal (encoding m) empty ≡ ok m
unfolding unmarshal
unmarshal-encoding m v fits =
    unmarshal-Runs (encoding m) (Runs-encoding m v fits (Runs-nil switch _ m))

-- A message whose numbers fit their Go types and whose `Size()`
-- fits an int is marshalled with no panic, to `Size()` bytes, and these are
-- unmarshalled, into an empty message, to the same message.
pub unmarshal-marshal_mock_header :
    (m : Header)
    → IsValid m
    → IsLength (size m)
    → (bs : Bytes) × (marshal m ≡ some bs) × (length bs ≡ size m) × (unmarshal bs empty ≡ ok m)
unfolding marshal
unmarshal-marshal_mock_header m v fits =
    let f = fields m v in
    let exact = f.counts fits in
    (encoding m, marshal-Field f fits, sym exact, unmarshal-encoding m v (omega (arith, exact)))

switch-Total : Total IsValid switch
unfolding switch
switch-Total l num ty rest m v =
    Handled-if (num == 1) _ _
      (case_uint-Handled 64 ty rest _ (λ x h. record { height = h; timestamp = v.timestamp }))
      (Handled-if (num == 2) _ _
        (case_uint-Handled 64 ty rest _ (λ x h. record { height = v.height; timestamp = h }))
        passed)

-- On any bytes whose number fits an int `Unmarshal` ends, without a panic; where it succeeds, on a message
-- whose numbers fit their Go types, the numbers of the result fit them.
pub unmarshal-Ends_mock_header :
    (src : Bytes) (m : Header) → IsValid m → IsLength (length src) → Ends IsValid (unmarshal src m)
unfolding unmarshal
unmarshal-Ends_mock_header src m v = Ends_all IsValid switch src m switch-Total v
