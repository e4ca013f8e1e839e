-- ===== src/Tests/Connections.antt =====
-- The codec of pkg/ibc/connection/Connection.pb.go at a connection end.
use yui_ibc_solidity.Prelude.{◌≡◌, ◌++◌, arith, Bytes, some, [], ◌∷◌, length, codes}
use yui_ibc_solidity.Wire.Result.{ok}
use yui_ibc_solidity.Wire.Format.{IsLength, chunk}
use yui_ibc_solidity.Wire.Runs.{IsTag}
use yui_ibc_solidity.Connection.End.{
  empty, marshal, size, unmarshal, ConnectionEnd, IsValid, unmarshal-marshal_connection_end,
  encoding,
}

abbrev try_open : ConnectionEnd
try_open = record {
  client_id = codes "client-0";
  versions =
      record {
        identifier = codes "1";
        features = codes "ORDER_ORDERED" ∷ codes "ORDER_UNORDERED" ∷ [];
      }
      ∷ [];
  state = 2;
  counterparty = some (record {
    client_id = codes "client-1";
    connection_id = codes "connection-1";
    prefix = some (record { key_prefix = codes "ibc" });
  });
  delay_period = 0;
}

try_open-IsValid : IsValid try_open
try_open-IsValid = record { state = omega arith; delay_period = omega arith }

try_open_fits : IsLength (size try_open)
unfolding size yui_ibc_solidity.Wire.Writer.size_uint yui_ibc_solidity.Wire.Writer.bit_length
    yui_ibc_solidity.Wire.Writer.size_bytes yui_ibc_solidity.Wire.Writer.size_repeated
    yui_ibc_solidity.Wire.Writer.size_enum yui_ibc_solidity.Wire.Writer.sign_extend
    yui_ibc_solidity.Wire.Writer.size_messages yui_ibc_solidity.Wire.Writer.size_option
    yui_ibc_solidity.Connection.Version.size yui_ibc_solidity.Connection.Counterparty.size
    yui_ibc_solidity.Connection.MerklePrefix.size
try_open_fits = omega arith

unmarshal-marshal_connection_end_example :
    (bs : Bytes) × (marshal try_open ≡ some bs)
    × (length bs ≡ size try_open)
    × (unmarshal bs empty ≡ ok try_open)
unmarshal-marshal_connection_end_example =
    unmarshal-marshal_connection_end try_open try_open-IsValid try_open_fits

-- A field of bytes whose number is one more than the last field's.
extra_field : IsTag 2 0x32
extra_field = (omega arith, omega arith, omega arith)

extended_fits : IsLength (length (encoding try_open ++ chunk 0x32 (7 ∷ [])))
unfolding encoding chunk yui_ibc_solidity.Wire.Format.uint_field yui_ibc_solidity.Wire.Format.varint
    yui_ibc_solidity.Wire.Format.bytes_field yui_ibc_solidity.Wire.Format.repeated_field
    yui_ibc_solidity.Wire.Format.enum_field yui_ibc_solidity.Wire.Writer.sign_extend
    yui_ibc_solidity.Wire.Format.messages_field yui_ibc_solidity.Wire.Format.option_field
    yui_ibc_solidity.Connection.Version.encoding yui_ibc_solidity.Connection.Counterparty.encoding
    yui_ibc_solidity.Connection.MerklePrefix.encoding
extended_fits = omega arith
