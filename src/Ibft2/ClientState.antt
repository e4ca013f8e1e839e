-- ===== src/Ibft2/ClientState.antt =====
-- `ClientState` of pkg/ibc/client/ibft2/IBFT2.pb.go: the state of an IBFT2 light client.
use yui_ibc_solidity.Prelude.{
  Bytes, Option, [], append_assoc, arith, if◌then◌else◌, length, none, refl, some, sym, ℕ, ◌++◌,
  ◌+◌, ◌==◌, ◌≡◌,
}
use yui_ibc_solidity.Wire.Result.{Result, ok}
use yui_ibc_solidity.Wire.Writer as WireWriter
use yui_ibc_solidity.Wire.Writer.{Writer, put_bytes, put_uint, size_bytes, size_uint, ◌>>◌}
use yui_ibc_solidity.Wire.Reader as WireReader
use yui_ibc_solidity.Wire.Reader.{Switch, case_bytes, case_uint}
use yui_ibc_solidity.Wire.Format.{IsLength, IsU64, bytes_field, uint_field}
use yui_ibc_solidity.Wire.Field.{Field, Field-bytes, Field-then, Field-uint, marshal-Field}
use yui_ibc_solidity.Wire.Runs.{Runs, Runs-nil, unmarshal-Runs}
use yui_ibc_solidity.Wire.RunsFields.{Runs-bytes, Runs-uint}
use yui_ibc_solidity.Wire.Total.{Ends}
use yui_ibc_solidity.Wire.Terminates.{
  Handled-if, Total, case_bytes-Handled, case_uint-Handled, passed, unmarshal-Ends as Ends_all,
}

pub record ClientState : Type 0 where
  pub chain_id : Bytes
  pub ibc_store_address : Bytes
  pub latest_height : ℕ

-- `ClientState{}`
abbrev pub empty : ClientState
empty = record { chain_id = []; ibc_store_address = []; latest_height = 0 }

-- `MarshalToSizedBuffer`, from the last field to the first.
unfoldable pub marshal_to : ClientState → Writer
marshal_to m = do
  put_uint 0x18 m.latest_height
  put_bytes 0x12 m.ibc_store_address
  put_bytes 0xa m.chain_id

-- `Size`
unfoldable pub size : ClientState → ℕ
size m = size_bytes m.chain_id + size_bytes m.ibc_store_address + size_uint m.latest_height

unfoldable pub marshal : ClientState → Option Bytes
marshal m = WireWriter.marshal (size m) (marshal_to m)

-- `switch fieldNum` of `Unmarshal`.
unfoldable pub switch : Switch ClientState
switch l num ty rest m =
    if num == 1
    then some (case_bytes l ty rest (λ s. record m { chain_id = s }))
    else if num == 2
    then some (case_bytes l ty rest (λ s. record m { ibc_store_address = s }))
    else if num == 3
    then some (case_uint 64 ty rest (λ x. record m { latest_height = x }))
    else none

unfoldable pub unmarshal : Bytes → ClientState → Result ClientState
unmarshal = WireReader.unmarshal switch

-- The numbers are what their Go types hold.
pub record IsValid (m : ClientState) : Type 0 where
  pub latest_height : IsU64 m.latest_height

-- The message in the wire format, its fields in ascending order.
unfoldable pub encoding : ClientState → Bytes
encoding m =
    bytes_field 0xa m.chain_id
    ++ bytes_field 0x12 m.ibc_store_address
    ++ uint_field 0x18 m.latest_height

pub fields : (m : ClientState) → IsValid m → Field (size m) (marshal_to m) (encoding m)
unfolding size marshal_to encoding
fields m v =
    Field-then (Field-uint 0x18 m.latest_height v.latest_height)
      (Field-then (Field-bytes 0x12 m.ibc_store_address) (Field-bytes 0xa m.chain_id))

-- A decoder that reaches the encoding with an empty message leaves it with the message.
pub Runs-encoding :
    (m : ClientState) {l : ℕ} {rest : Bytes} {r : Result ClientState}
    → IsValid m
    → IsLength l
    → Runs switch l rest m r
    → Runs switch l (encoding m ++ rest) empty r
unfolding switch encoding
Runs-encoding m v fits k = simp append_assoc (
    Runs-bytes fits m.chain_id _ (omega arith) (λ t. refl) refl
      (Runs-bytes fits m.ibc_store_address _ (omega arith) (λ t. refl) refl
        (Runs-uint _ (omega arith) v.latest_height (λ t. refl) refl k)))

pub unmarshal-encoding :
    (m : ClientState)
    → IsValid m
    → IsLength (length (encoding m))
    → unmarshal (encoding m) empty ≡ ok m
unfolding unmarshal
unmarshal-encoding m v fits =
    unmarshal-Runs (encoding m) (Runs-encoding m v fits (Runs-nil switch _ m))

-- A message whose numbers fit their Go types and whose `Size()`
-- fits an int is marshalled with no panic, to `Size()` bytes, and these are
-- unmarshalled, into an empty message, to the same message.
pub unmarshal-marshal_ibft2_client_state :
    (m : ClientState)
    → IsValid m
    → IsLength (size m)
    → (bs : Bytes) × (marshal m ≡ some bs) × (length bs ≡ size m) × (unmarshal bs empty ≡ ok m)
unfolding marshal
unmarshal-marshal_ibft2_client_state m v fits =
    let f = fields m v in
    let exact = f.counts fits in
    (encoding m, marshal-Field f fits, sym exact, unmarshal-encoding m v (omega (arith, exact)))

switch-Total : Total IsValid switch
unfolding switch
switch-Total l num ty rest m v =
    Handled-if (num == 1) _ _
      (case_bytes-Handled l ty rest _ (λ s. record { latest_height = v.latest_height }))
      (Handled-if (num == 2) _ _
        (case_bytes-Handled l ty rest _ (λ s. record { latest_height = v.latest_height }))
        (Handled-if (num == 3) _ _
          (case_uint-Handled 64 ty rest _ (λ x h. record { latest_height = h })) passed))

-- On any bytes whose number fits an int `Unmarshal` ends, without a panic; where it succeeds, on a message
-- whose numbers fit their Go types, the numbers of the result fit them.
pub unmarshal-Ends_ibft2_client_state :
    (src : Bytes) (m : ClientState)
    → IsValid m
    → IsLength (length src)
    → Ends IsValid (unmarshal src m)
unfolding unmarshal
unmarshal-Ends_ibft2_client_state src m v = Ends_all IsValid switch src m switch-Total v
