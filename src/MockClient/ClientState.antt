-- ===== src/MockClient/ClientState.antt =====
-- `ClientState` of pkg/ibc/client/mock/MockClient.pb.go: the state of the mock client.
use yui_ibc_solidity.Prelude.{
  Bytes, Option, arith, if◌then◌else◌, length, none, refl, some, sym, ℕ, ◌++◌, ◌==◌, ◌≡◌,
}
use yui_ibc_solidity.Wire.Result.{Result, ok}
use yui_ibc_solidity.Wire.Writer as WireWriter
use yui_ibc_solidity.Wire.Writer.{Writer, put_uint, size_uint}
use yui_ibc_solidity.Wire.Reader as WireReader
use yui_ibc_solidity.Wire.Reader.{Switch, case_uint}
use yui_ibc_solidity.Wire.Format.{IsLength, IsU64, uint_field}
use yui_ibc_solidity.Wire.Field.{Field, Field-uint, marshal-Field}
use yui_ibc_solidity.Wire.Runs.{Runs, Runs-nil, unmarshal-Runs}
use yui_ibc_solidity.Wire.RunsFields.{Runs-uint}
use yui_ibc_solidity.Wire.Total.{Ends}
use yui_ibc_solidity.Wire.Terminates.{
  Handled-if, Total, case_uint-Handled, passed, unmarshal-Ends as Ends_all,
}

pub record ClientState : Type 0 where
  pub latest_height : ℕ

-- `ClientState{}`
abbrev pub empty : ClientState
empty = record { latest_height = 0 }

-- `MarshalToSizedBuffer`, from the last field to the first.
unfoldable pub marshal_to : ClientState → Writer
marshal_to m = put_uint 0x8 m.latest_height

-- `Size`
unfoldable pub size : ClientState → ℕ
size m = size_uint m.latest_height

unfoldable pub marshal : ClientState → Option Bytes
marshal m = WireWriter.marshal (size m) (marshal_to m)

-- `switch fieldNum` of `Unmarshal`.
unfoldable pub switch : Switch ClientState
switch l num ty rest m =
    if num == 1 then some (case_uint 64 ty rest (λ x. record m { latest_height = x })) else none

unfoldable pub unmarshal : Bytes → ClientState → Result ClientState
unmarshal = WireReader.unmarshal switch

-- The numbers are what their Go types hold.
pub record IsValid (m : ClientState) : Type 0 where
  pub latest_height : IsU64 m.latest_height

-- The message in the wire format, its fields in ascending order.
unfoldable pub encoding : ClientState → Bytes
encoding m = uint_field 0x8 m.latest_height

pub fields : (m : ClientState) → IsValid m → Field (size m) (marshal_to m) (encoding m)
unfolding size marshal_to encoding
fields m v = Field-uint 0x8 m.latest_height v.latest_height

-- A decoder that reaches the encoding with an empty message leaves it with the message.
pub Runs-encoding :
    (m : ClientState) {l : ℕ} {rest : Bytes} {r : Result ClientState}
    → IsValid m
    → IsLength l
    → Runs switch l rest m r
    → Runs switch l (encoding m ++ rest) empty r
unfolding switch encoding
Runs-encoding m v fits k = Runs-uint _ (omega arith) v.latest_height (λ t. refl) refl k

pub unmarshal-encoding :
    (m : ClientState)
    → IsValid m
    → IsLength (length (encoding m))
    → unmarshal (encoding m) empty ≡ ok m
unfolding unmarshal
unmarshal-encoding m v fits =
    unmarshal-Runs (encoding m) (Runs-encoding m v fits (Runs-nil switch _ m))

-- A message whose numbers fit their Go types and whose `Size()`
-- fits an int is marshalled with no panic, to `Size()` bytes, and these are
-- unmarshalled, into an empty message, to the same message.
pub unmarshal-marshal_mock_client_state :
    (m : ClientState)
    → IsValid m
    → IsLength (size m)
    → (bs : Bytes) × (marshal m ≡ some bs) × (length bs ≡ size m) × (unmarshal bs empty ≡ ok m)
unfolding marshal
unmarshal-marshal_mock_client_state m v fits =
    let f = fields m v in
    let exact = f.counts fits in
    (encoding m, marshal-Field f fits, sym exact, unmarshal-encoding m v (omega (arith, exact)))

switch-Total : Total IsValid switch
unfolding switch
switch-Total l num ty rest m v =
    Handled-if (num == 1) _ _ (case_uint-Handled 64 ty rest _ (λ x h. record { latest_height = h }))
      passed

-- On any bytes whose number fits an int `Unmarshal` ends, without a panic; where it succeeds, on a message
-- whose numbers fit their Go types, the numbers of the result fit them.
pub unmarshal-Ends_mock_client_state :
    (src : Bytes) (m : ClientState)
    → IsValid m
    → IsLength (length src)
    → Ends IsValid (unmarshal src m)
unfolding unmarshal
unmarshal-Ends_mock_client_state src m v = Ends_all IsValid switch src m switch-Total v
