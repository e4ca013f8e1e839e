-- ===== src/Connection/End.antt =====
-- `ConnectionEnd` of pkg/ibc/connection/Connection.pb.go: a connection end. No pointer of `Versions` is null.
use yui_ibc_solidity.Prelude.{
  Bytes, List, Option, [], append_assoc, arith, if◌then◌else◌, length, none, refl, some, sym, ℕ,
  ◌++◌, ◌+◌, ◌/◌, ◌<◌, ◌==◌, ◌∷◌, ◌≡◌,
}
use yui_ibc_solidity.Wire.Result.{Result, ok}
use yui_ibc_solidity.Wire.Writer as WireWriter
use yui_ibc_solidity.Wire.Writer.{
  Writer, put_bytes, put_enum, put_messages, put_option, put_uint, size_bytes, size_enum,
  size_messages, size_option, size_uint, ◌>>◌,
}
use yui_ibc_solidity.Wire.Reader as WireReader
use yui_ibc_solidity.Wire.Reader.{Switch, case_bytes, case_message, case_uint, or_new}
use yui_ibc_solidity.Wire.Format.{
  IsLength, IsU32, IsU64, bytes_field, chunk, enum_field, messages_field, option_field, uint_field,
}
use yui_ibc_solidity.Wire.Field.{
  Field, Field-bytes, Field-enum, Field-messages, Field-option, Field-then, Field-uint,
  marshal-Field,
}
use yui_ibc_solidity.Wire.Runs.{IsTag, Runs, Runs-nil, unmarshal-Runs}
use yui_ibc_solidity.Wire.RunsFields.{Runs-bytes, Runs-enum, Runs-messages, Runs-option, Runs-uint}
use yui_ibc_solidity.Wire.Unknown.{Runs-unknown}
use yui_ibc_solidity.Wire.Total.{Any, Ends}
use yui_ibc_solidity.Wire.Terminates.{
  Handled-if, Total, case_bytes-Handled, case_message-Handled, case_uint-Handled, passed,
  unmarshal-Ends as Ends_all,
}
use yui_ibc_solidity.Connection.Version
use yui_ibc_solidity.Connection.Version.{Version}
use yui_ibc_solidity.Connection.Counterparty
use yui_ibc_solidity.Connection.Counterparty.{Counterparty}

pub record ConnectionEnd : Type 0 where
  pub client_id : Bytes
  pub versions : List Version
  pub state : ℕ
  pub counterparty : Option Counterparty
  pub delay_period : ℕ

-- `ConnectionEnd{}`
abbrev pub empty : ConnectionEnd
empty = record { client_id = []; versions = []; state = 0; counterparty = none; delay_period = 0 }

-- `MarshalToSizedBuffer`, from the last field to the first.
unfoldable pub marshal_to : ConnectionEnd → Writer
marshal_to m = do
  put_uint 0x28 m.delay_period
  put_option 0x22 Counterparty.marshal_to m.counterparty
  put_enum 0x18 m.state
  put_messages 0x12 Version.marshal_to m.versions
  put_bytes 0xa m.client_id

-- `Size`
unfoldable pub size : ConnectionEnd → ℕ
size m =
    size_bytes m.client_id
    + size_messages Version.size m.versions
    + size_enum m.state
    + size_option Counterparty.size m.counterparty
    + size_uint m.delay_period

unfoldable pub marshal : ConnectionEnd → Option Bytes
marshal m = WireWriter.marshal (size m) (marshal_to m)

-- `switch fieldNum` of `Unmarshal`.
unfoldable pub switch : Switch ConnectionEnd
switch l num ty rest m =
    if num == 1
    then some (case_bytes l ty rest (λ s. record m { client_id = s }))
    else if num == 2
    then some (
        case_message l ty rest (λ s. Version.unmarshal s Version.empty)
          (λ x. record m { versions = m.versions ++ (x ∷ []) }))
    else if num == 3
    then some (case_uint 32 ty rest (λ x. record m { state = x }))
    else if num == 4
    then some (
        case_message l ty rest
          (λ s. Counterparty.unmarshal s (or_new Counterparty.empty m.counterparty))
          (λ x. record m { counterparty = some x }))
    else if num == 5
    then some (case_uint 64 ty rest (λ x. record m { delay_period = x }))
    else none

unfoldable pub unmarshal : Bytes → ConnectionEnd → Result ConnectionEnd
unmarshal = WireReader.unmarshal switch

-- The numbers are what their Go types hold.
pub record IsValid (m : ConnectionEnd) : Type 0 where
  pub state : IsU32 m.state
  pub delay_period : IsU64 m.delay_period

-- The message in the wire format, its fields in ascending order.
unfoldable pub encoding : ConnectionEnd → Bytes
encoding m =
    bytes_field 0xa m.client_id
    ++ messages_field 0x12 Version.encoding m.versions
    ++ enum_field 0x18 m.state
    ++ option_field 0x22 Counterparty.encoding m.counterparty
    ++ uint_field 0x28 m.delay_period

pub fields : (m : ConnectionEnd) → IsValid m → Field (size m) (marshal_to m) (encoding m)
unfolding size marshal_to encoding
fields m v = Field-then (Field-uint 0x28 m.delay_period v.delay_period) (
    Field-then (Field-option 0x22 m.counterparty Counterparty.fields) (
      Field-then (Field-enum 0x18 m.state v.state)
        (Field-then (Field-messages 0x12 m.versions Version.fields) (Field-bytes 0xa m.client_id))))

-- A decoder that reaches the encoding with an empty message leaves it with the message.
pub Runs-encoding :
    (m : ConnectionEnd) {l : ℕ} {rest : Bytes} {r : Result ConnectionEnd}
    → IsValid m
    → IsLength l
    → Runs switch l rest m r
    → Runs switch l (encoding m ++ rest) empty r
unfolding switch encoding
Runs-encoding m v fits k = simp append_assoc (
    Runs-bytes fits m.client_id _ (omega arith) (λ t. refl) refl
      (Runs-messages fits m.versions [] (λ s. Version.unmarshal s Version.empty)
        (λ d. record empty { client_id = m.client_id; versions = d }) (omega arith) (λ d t. refl)
        Version.unmarshal-encoding
        (Runs-enum _ (omega arith) v.state (λ t. refl) refl
          (Runs-option fits m.counterparty (λ s. Counterparty.unmarshal s Counterparty.empty)
            (λ x. record empty {
              client_id = m.client_id;
              versions = m.versions;
              state = m.state;
              counterparty = x;
            })
            (omega arith) (λ t. refl) Counterparty.unmarshal-encoding
            (Runs-uint _ (omega arith) v.delay_period (λ t. refl) refl k)))))

pub unmarshal-encoding :
    (m : ConnectionEnd)
    → IsValid m
    → IsLength (length (encoding m))
    → unmarshal (encoding m) empty ≡ ok m
unfolding unmarshal
unmarshal-encoding m v fits =
    unmarshal-Runs (encoding m) (Runs-encoding m v fits (Runs-nil switch _ m))

-- A message whose numbers fit their Go types and whose `Size()`
-- fits an int is marshalled with no panic, to `Size()` bytes, and these are
-- unmarshalled, into an empty message, to the same message.
pub unmarshal-marshal_connection_end :
    (m : ConnectionEnd)
    → IsValid m
    → IsLength (size m)
    → (bs : Bytes) × (marshal m ≡ some bs) × (length bs ≡ size m) × (unmarshal bs empty ≡ ok m)
unfolding marshal
unmarshal-marshal_connection_end m v fits =
    let f = fields m v in
    let exact = f.counts fits in
    (encoding m, marshal-Field f fits, sym exact, unmarshal-encoding m v (omega (arith, exact)))

-- A length-delimited field with a one-byte tag and a number above 5, behind the encoding of a
-- message whose numbers fit their Go types, is passed over where the whole fits an int.
pub unmarshal-unknown_connection_end :
    (m : ConnectionEnd) (tag : ℕ) (s : Bytes)
    → IsValid m
    → IsTag 2 tag
    → 5 < tag / 8
    → IsLength (length (encoding m ++ chunk tag s))
    → unmarshal (encoding m ++ chunk tag s) empty ≡ ok m
unfolding unmarshal switch
unmarshal-unknown_connection_end m tag s v ht new fits =
    unmarshal-Runs (encoding m ++ chunk tag s) (
      rw (append_assoc (encoding m) (chunk tag s) [])
        (Runs-encoding m v fits (Runs-unknown s ht fits (λ t. ground arith) (Runs-nil switch _ m))))

switch-Total : Total IsValid switch
unfolding switch
switch-Total l num ty rest m v =
    Handled-if (num == 1) _ _
      (case_bytes-Handled l ty rest _
        (λ s. record { state = v.state; delay_period = v.delay_period }))
      (Handled-if (num == 2) _ _
        (case_message-Handled Any l ty rest _ _ (λ s. Version.unmarshal-Ends_version s _)
          (λ x h. record { state = v.state; delay_period = v.delay_period }))
        (Handled-if (num == 3) _ _
          (case_uint-Handled 32 ty rest _
            (λ x h. record { state = h; delay_period = v.delay_period }))
          (Handled-if (num == 4) _ _
            (case_message-Handled Any l ty rest _ _
              (λ s. Counterparty.unmarshal-Ends_connection_counterparty s _)
              (λ x h. record { state = v.state; delay_period = v.delay_period }))
            (Handled-if (num == 5) _ _
              (case_uint-Handled 64 ty rest _ (λ x h. record { state = v.state; delay_period = h }))
              passed))))

-- On any bytes whose number fits an int `Unmarshal` ends, without a panic; where it succeeds, on a message
-- whose numbers fit their Go types, the numbers of the result fit them.
pub unmarshal-Ends_connection_end :
    (src : Bytes) (m : ConnectionEnd)
    → IsValid m
    → IsLength (length src)
    → Ends IsValid (unmarshal src m)
unfolding unmarshal
unmarshal-Ends_connection_end src m v = Ends_all IsValid switch src m switch-Total v
