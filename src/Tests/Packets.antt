-- ===== src/Tests/Packets.antt =====
-- The codec of pkg/ibc/channel/Channel.pb.go at a packet.
use yui_ibc_solidity.Prelude.{◌≡◌, ◌++◌, arith, Bytes, some, [], ◌∷◌, length, codes}
use yui_ibc_solidity.Wire.Result.{ok}
use yui_ibc_solidity.Wire.Format.{IsLength, chunk}
use yui_ibc_solidity.Wire.Runs.{IsTag}
use yui_ibc_solidity.Wire.Total.{Ends}
use yui_ibc_solidity.Channel.Packet.{
  empty, marshal, size, unmarshal, Packet, IsValid, unmarshal-marshal_packet, unmarshal-Ends_packet,
  encoding, unmarshal-unknown_packet,
}

abbrev transfer : Packet
transfer = record {
  sequence = 300;
  source_port = codes "transfer";
  source_channel = codes "channel-0";
  destination_port = codes "transfer";
  destination_channel = [];
  payload = 1 ∷ 0 ∷ 255 ∷ [];
  timeout_height = record { revision_number = 0; revision_height = 1000 };
  timeout_timestamp = 0;
}

transfer-IsValid : IsValid transfer
transfer-IsValid = record {
  sequence = omega arith;
  timeout_height = record { revision_number = omega arith; revision_height = omega arith };
  timeout_timestamp = omega arith;
}

transfer_fits : IsLength (size transfer)
unfolding size yui_ibc_solidity.Wire.Writer.size_uint yui_ibc_solidity.Wire.Writer.bit_length
    yui_ibc_solidity.Wire.Writer.size_bytes yui_ibc_solidity.Wire.Writer.size_repeated
    yui_ibc_solidity.Wire.Writer.size_enum yui_ibc_solidity.Wire.Writer.sign_extend
    yui_ibc_solidity.Wire.Writer.size_messages yui_ibc_solidity.Wire.Writer.size_option
    yui_ibc_solidity.Channel.Height.size
transfer_fits = omega arith

unmarshal-marshal_packet_example :
    (bs : Bytes) × (marshal transfer ≡ some bs)
    × (length bs ≡ size transfer)
    × (unmarshal bs empty ≡ ok transfer)
unmarshal-marshal_packet_example = unmarshal-marshal_packet transfer transfer-IsValid transfer_fits

-- A source port whose length is -1.
abbrev negative_length : Bytes
negative_length = 0x12 ∷ 0xff ∷ 0xff ∷ 0xff ∷ 0xff ∷ 0xff ∷ 0xff ∷ 0xff ∷ 0xff ∷ 0xff ∷ 0x01 ∷ []

unmarshal-Ends_packet_example : Ends IsValid (unmarshal negative_length transfer)
unmarshal-Ends_packet_example =
    unmarshal-Ends_packet negative_length transfer transfer-IsValid (omega arith)

-- A field of bytes whose number is one more than the last field's.
extra_field : IsTag 2 0x4a
extra_field = (omega arith, omega arith, omega arith)

extended_fits : IsLength (length (encoding transfer ++ chunk 0x4a (7 ∷ [])))
unfolding encoding chunk yui_ibc_solidity.Wire.Format.uint_field yui_ibc_solidity.Wire.Format.varint
    yui_ibc_solidity.Wire.Format.bytes_field yui_ibc_solidity.Wire.Format.repeated_field
    yui_ibc_solidity.Wire.Format.enum_field yui_ibc_solidity.Wire.Writer.sign_extend
    yui_ibc_solidity.Wire.Format.messages_field yui_ibc_solidity.Wire.Format.option_field
    yui_ibc_solidity.Channel.Height.encoding
extended_fits = omega arith

unmarshal-unknown_packet_example :
    unmarshal (encoding transfer ++ chunk 0x4a (7 ∷ [])) empty ≡ ok transfer
unmarshal-unknown_packet_example =
    unmarshal-unknown_packet transfer 0x4a (7 ∷ []) transfer-IsValid extra_field (omega arith)
      extended_fits
