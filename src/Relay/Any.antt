-- ===== src/Relay/Any.antt =====
-- pkg/testing/types.go: `PackAny`, `UnpackAny`, `MarshalWithAny` and `UnmarshalWithAny`. A generated message is an instance
-- of `Message`; the codec of the package types of gogo/protobuf for Any itself is the record `AnyCodec`.
use yui_ibc_solidity.Prelude.{Bytes, ◌∷◌, not, if◌then◌else◌, same_string, Option, none, some, ◌≡◌}
use yui_ibc_solidity.Prelude.Try.{Try, ok, err, ◌>>=◌}
use yui_ibc_solidity.Wire.Result as Wire
use yui_ibc_solidity.Wire.Result.{Result, Error}

pub record Any : Type 0 where
  pub type_url : Bytes
  pub value : Bytes

pub record AnyCodec (E : Type 0) : Type 0 where
  pub marshal_any : Any → Try E Bytes
  pub unmarshal_any : Bytes → Try E Any

-- A message of a .pb.go file: its name, `Marshal` (none is a panic) and `Unmarshal` into an empty message, and the messages
-- that survive the two.
pub record Message (M : Type 0) : Type 1 where
  pub message_name : Bytes
  pub marshal : M → Option Bytes
  pub unmarshal : Bytes → Result M
  pub Fits : M → Type 0
  pub round_trip :
      (m : M) → Fits m → (bs : Bytes) × (marshal m ≡ some bs) × (unmarshal bs ≡ Wire.ok m)

-- `any_codec` is an error for Any itself, `message` one of a decoder, `stuck` no Go value.
pub data AnyError (E : Type 0) : Type 0 where
  any_codec : E → AnyError E
  message : Error → AnyError E
  unexpected_type : Bytes → Bytes → AnyError E
  panic stuck : AnyError E

abbrev pub of_any : {E A : Type 0} → Try E A → Try (AnyError E) A
of_any (ok a) = ok a
of_any (err e) = err (any_codec e)

abbrev pub of_marshal : {E : Type 0} → Option Bytes → Try (AnyError E) Bytes
of_marshal none = err panic
of_marshal (some bs) = ok bs

abbrev pub of_unmarshal : {E M : Type 0} → Result M → Try (AnyError E) M
of_unmarshal (Wire.ok m) = ok m
of_unmarshal (Wire.err e) = err (message e)
of_unmarshal Wire.panic = err panic
of_unmarshal Wire.stuck = err stuck

module _ {E : Type 0} (codec : AnyCodec E) {M : Type 0} (msg : Message M) where
  abbrev pub type_url_of : Bytes
  type_url_of = b'/' ∷ msg.message_name

  unfoldable pub pack_any : M → Try (AnyError E) Any
  pack_any m = do
    bz ← of_marshal (msg.marshal m)
    ok (record { type_url = type_url_of; value = bz })

  unfoldable pub marshal_with_any : M → Try (AnyError E) Bytes
  unfolding pack_any
  marshal_with_any m = do any ← pack_any m; of_any (codec.marshal_any any)

  unfoldable pub unpack_any : Bytes → Try (AnyError E) Any
  unpack_any bz = of_any (codec.unmarshal_any bz)

  unfoldable pub unmarshal_with_any : Bytes → Try (AnyError E) M
  unfolding unpack_any
  unmarshal_with_any bz = do
    any ← unpack_any bz
    if not (same_string any.type_url type_url_of)
        then err (unexpected_type type_url_of any.type_url)
        else of_unmarshal (msg.unmarshal any.value)
