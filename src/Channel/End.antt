-- ===== src/Channel/End.antt =====
-- `Channel` of pkg/ibc/channel/Channel.pb.go: a channel end.
use yui_ibc_solidity.Prelude.{
  Bytes, List, Option, [], append_assoc, arith, if◌then◌else◌, length, none, refl, some, sym, ℕ,
  ◌++◌, ◌+◌, ◌==◌, ◌∷◌, ◌≡◌,
}
use yui_ibc_solidity.Wire.Result.{Result, ok}
use yui_ibc_solidity.Wire.Writer as WireWriter
use yui_ibc_solidity.Wire.Writer.{
  Writer, put_bytes, put_enum, put_message, put_repeated, size_bytes, size_chunk, size_enum,
  size_repeated, ◌>>◌,
}
use yui_ibc_solidity.Wire.Reader as WireReader
use yui_ibc_solidity.Wire.Reader.{Switch, case_bytes, case_message, case_uint}
use yui_ibc_solidity.Wire.Format.{IsLength, IsU32, bytes_field, chunk, enum_field, repeated_field}
use yui_ibc_solidity.Wire.Field.{
  Field, Field-bytes, Field-enum, Field-message, Field-repeated, Field-then, marshal-Field,
}
use yui_ibc_solidity.Wire.Runs.{Runs, Runs-message, Runs-nil, unmarshal-Runs}
use yui_ibc_solidity.Wire.RunsFields.{Runs-bytes, Runs-enum, Runs-repeated}
use yui_ibc_solidity.Wire.Total.{Any, Ends}
use yui_ibc_solidity.Wire.Terminates.{
  Handled-if, Total, case_bytes-Handled, case_message-Handled, case_uint-Handled, passed,
  unmarshal-Ends as Ends_all,
}
use yui_ibc_solidity.Channel.Counterparty
use yui_ibc_solidity.Channel.Counterparty.{Counterparty}

pub record Channel : Type 0 where
  pub state : ℕ
  pub ordering : ℕ
  pub counterparty : Counterparty
  pub connection_hops : List Bytes
  pub version : Bytes

-- `Channel{}`
abbrev pub empty : Channel
empty = record {
  state = 0;
  ordering = 0;
  counterparty = Counterparty.empty;
  connection_hops = [];
  version = [];
}

-- `MarshalToSizedBuffer`, from the last field to the first.
unfoldable pub marshal_to : Channel → Writer
marshal_to m = do
  put_bytes 0x2a m.version
  put_repeated 0x22 m.connection_hops
  put_message 0x1a (Counterparty.marshal_to m.counterparty)
  put_enum 0x10 m.ordering
  put_enum 0x8 m.state

-- `Size`
unfoldable pub size : Channel → ℕ
size m =
    size_enum m.state
    + size_enum m.ordering
    + size_chunk (Counterparty.size m.counterparty)
    + size_repeated m.connection_hops
    + size_bytes m.version

unfoldable pub marshal : Channel → Option Bytes
marshal m = WireWriter.marshal (size m) (marshal_to m)

-- `switch fieldNum` of `Unmarshal`.
unfoldable pub switch : Switch Channel
switch l num ty rest m =
    if num == 1
    then some (case_uint 32 ty rest (λ x. record m { state = x }))
    else if num == 2
    then some (case_uint 32 ty rest (λ x. record m { ordering = x }))
    else if num == 3
    then some (
        case_message l ty rest (λ s. Counterparty.unmarshal s m.counterparty)
          (λ x. record m { counterparty = x }))
    else if num == 4
    then some
        (case_bytes l ty rest (λ s. record m { connection_hops = m.connection_hops ++ (s ∷ []) }))
    else if num == 5
    then some (case_bytes l ty rest (λ s. record m { version = s }))
    else none

unfoldable pub unmarshal : Bytes → Channel → Result Channel
unmarshal = WireReader.unmarshal switch

-- The numbers are what their Go types hold.
pub record IsValid (m : Channel) : Type 0 where
  pub state : IsU32 m.state
  pub ordering : IsU32 m.ordering

-- The message in the wire format, its fields in ascending order.
unfoldable pub encoding : Channel → Bytes
encoding m =
    enum_field 0x8 m.state
    ++ enum_field 0x10 m.ordering
    ++ chunk 0x1a (Counterparty.encoding m.counterparty)
    ++ repeated_field 0x22 m.connection_hops
    ++ bytes_field 0x2a m.version

pub fields : (m : Channel) → IsValid m → Field (size m) (marshal_to m) (encoding m)
unfolding size marshal_to encoding
fields m v = Field-then (Field-bytes 0x2a m.version) (
    Field-then (Field-repeated 0x22 m.connection_hops) (
      Field-then (Field-message 0x1a (Counterparty.fields m.counterparty))
        (Field-then (Field-enum 0x10 m.ordering v.ordering) (Field-enum 0x8 m.state v.state))))

-- A decoder that reaches the encoding with an empty message leaves it with the message.
pub Runs-encoding :
    (m : Channel) {l : ℕ} {rest : Bytes} {r : Result Channel}
    → IsValid m
    → IsLength l
    → Runs switch l rest m r
    → Runs switch l (encoding m ++ rest) empty r
unfolding switch encoding
Runs-encoding m v fits k = simp append_assoc (
    Runs-enum _ (omega arith) v.state (λ t. refl) refl
      (Runs-enum _ (omega arith) v.ordering (λ t. refl) refl
        (Runs-message fits (Counterparty.encoding m.counterparty) _ _ (omega arith) (λ t. refl)
          (Counterparty.unmarshal-encoding m.counterparty)
          (Runs-repeated fits m.connection_hops []
            (λ d. record empty {
              state = m.state;
              ordering = m.ordering;
              counterparty = m.counterparty;
              connection_hops = d;
            })
            (omega arith) (λ d t. refl)
            (Runs-bytes fits m.version _ (omega arith) (λ t. refl) refl k)))))

pub unmarshal-encoding :
    (m : Channel) → IsValid m → IsLength (length (encoding m)) → unmarshal (encoding m) empty ≡ ok m
unfolding unmarshal
unmarshal-encoding m v fits =
    unmarshal-Runs (encoding m) (Runs-encoding m v fits (Runs-nil switch _ m))

-- A message whose numbers fit their Go types and whose `Size()`
-- fits an int is marshalled with no panic, to `Size()` bytes, and these are
-- unmarshalled, into an empty message, to the same message.
pub unmarshal-marshal_channel :
    (m : Channel)
    → IsValid m
    → IsLength (size m)
    → (bs : Bytes) × (marshal m ≡ some bs) × (length bs ≡ size m) × (unmarshal bs empty ≡ ok m)
unfolding marshal
unmarshal-marshal_channel m v fits =
    let f = fields m v in
    let exact = f.counts fits in
    (encoding m, marshal-Field f fits, sym exact, unmarshal-encoding m v (omega (arith, exact)))

switch-Total : Total IsValid switch
unfolding switch
switch-Total l num ty rest m v =
    Handled-if (num == 1) _ _
      (case_uint-Handled 32 ty rest _ (λ x h. record { state = h; ordering = v.ordering }))
      (Handled-if (num == 2) _ _
        (case_uint-Handled 32 ty rest _ (λ x h. record { state = v.state; ordering = h }))
        (Handled-if (num == 3) _ _
          (case_message-Handled Any l ty rest _ _
            (λ s. Counterparty.unmarshal-Ends_channel_counterparty s m.counterparty)
            (λ x h. record { state = v.state; ordering = v.ordering }))
          (Handled-if (num == 4) _ _
            (case_bytes-Handled l ty rest _
              (λ s. record { state = v.state; ordering = v.ordering }))
            (Handled-if (num == 5) _ _
              (case_bytes-Handled l ty rest _
                (λ s. record { state = v.state; ordering = v.ordering }))
              passed))))

-- On any bytes whose number fits an int `Unmarshal` ends, without a panic; where it succeeds, on a message
-- whose numbers fit their Go types, the numbers of the result fit them.
pub unmarshal-Ends_channel :
    (src : Bytes) (m : Channel) → IsValid m → IsLength (length src) → Ends IsValid (unmarshal src m)
unfolding unmarshal
unmarshal-Ends_channel src m v = Ends_all IsValid switch src m switch-Total v
