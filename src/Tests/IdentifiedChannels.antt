-- ===== src/Tests/IdentifiedChannels.antt =====
-- The codec of pkg/ibc/channel/Channel.pb.go at an identified channel.
use yui_ibc_solidity.Prelude.{arith, [], ◌∷◌, codes}
use yui_ibc_solidity.Wire.Format.{IsLength}
use yui_ibc_solidity.Wire.Total.{Ends}
use yui_ibc_solidity.Channel.Identified.{
  size, unmarshal, IdentifiedChannel, IsValid, unmarshal-Ends_identified_channel,
}

abbrev named_channel : IdentifiedChannel
named_channel = record {
  state = 2;
  ordering = 2;
  counterparty = record { port_id = codes "transfer"; channel_id = codes "channel-0" };
  connection_hops = codes "connection-0" ∷ [];
  version = codes "ics20-1";
  port_id = codes "transfer";
  channel_id = codes "channel-1";
}

named_channel-IsValid : IsValid named_channel
named_channel-IsValid = record { state = omega arith; ordering = omega arith }

named_channel_fits : IsLength (size named_channel)
unfolding size yui_ibc_solidity.Wire.Writer.size_uint yui_ibc_solidity.Wire.Writer.bit_length
    yui_ibc_solidity.Wire.Writer.size_bytes yui_ibc_solidity.Wire.Writer.size_repeated
    yui_ibc_solidity.Wire.Writer.size_enum yui_ibc_solidity.Wire.Writer.sign_extend
    yui_ibc_solidity.Wire.Writer.size_messages yui_ibc_solidity.Wire.Writer.size_option
    yui_ibc_solidity.Channel.Counterparty.size
named_channel_fits = omega arith

unmarshal-Ends_identified_channel_example : Ends IsValid (unmarshal (0x0a ∷ []) named_channel)
unmarshal-Ends_identified_channel_example =
    unmarshal-Ends_identified_channel (0x0a ∷ []) named_channel named_channel-IsValid (omega arith)
