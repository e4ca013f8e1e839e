-- ===== src/Tests/PacketStates.antt =====
-- The codec of pkg/ibc/channel/Channel.pb.go at the state of a packet.
use yui_ibc_solidity.Prelude.{arith, [], ◌∷◌, codes}
use yui_ibc_solidity.Wire.Format.{IsLength}
use yui_ibc_solidity.Wire.Total.{Ends}
use yui_ibc_solidity.Channel.PacketState.{
  size, unmarshal, PacketState, IsValid, unmarshal-Ends_packet_state,
}

abbrev receipt : PacketState
receipt = record {
  port_id = codes "transfer";
  channel_id = codes "channel-0";
  sequence = 7;
  payload = 0 ∷ 1 ∷ [];
}

receipt-IsValid : IsValid receipt
receipt-IsValid = record { sequence = omega arith }

receipt_fits : IsLength (size receipt)
unfolding size yui_ibc_solidity.Wire.Writer.size_uint yui_ibc_solidity.Wire.Writer.bit_length
    yui_ibc_solidity.Wire.Writer.size_bytes yui_ibc_solidity.Wire.Writer.size_repeated
    yui_ibc_solidity.Wire.Writer.size_enum yui_ibc_solidity.Wire.Writer.sign_extend
    yui_ibc_solidity.Wire.Writer.size_messages yui_ibc_solidity.Wire.Writer.size_option
receipt_fits = omega arith

unmarshal-Ends_packet_state_example : Ends IsValid (unmarshal (0x0f ∷ []) receipt)
unmarshal-Ends_packet_state_example =
    unmarshal-Ends_packet_state (0x0f ∷ []) receipt receipt-IsValid (omega arith)
