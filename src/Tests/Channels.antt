-- ===== src/Tests/Channels.antt =====
-- The codec of pkg/ibc/channel/Channel.pb.go at a channel end.
use yui_ibc_solidity.Prelude.{◌≡◌, arith, Bytes, some, [], ◌∷◌, length, codes}
use yui_ibc_solidity.Wire.Result.{ok}
use yui_ibc_solidity.Wire.Format.{IsLength}
use yui_ibc_solidity.Channel.End.{
  empty, marshal, size, unmarshal, Channel, IsValid, unmarshal-marshal_channel,
}

abbrev open_channel : Channel
open_channel = record {
  state = 3;
  ordering = 1;
  counterparty = record { port_id = codes "transfer"; channel_id = codes "channel-0" };
  connection_hops = codes "connection-0" ∷ [] ∷ [];
  version = codes "ics20-1";
}

open_channel-IsValid : IsValid open_channel
open_channel-IsValid = record { state = omega arith; ordering = omega arith }

open_channel_fits : IsLength (size open_channel)
unfolding size yui_ibc_solidity.Wire.Writer.size_uint yui_ibc_solidity.Wire.Writer.bit_length
    yui_ibc_solidity.Wire.Writer.size_bytes yui_ibc_solidity.Wire.Writer.size_repeated
    yui_ibc_solidity.Wire.Writer.size_enum yui_ibc_solidity.Wire.Writer.sign_extend
    yui_ibc_solidity.Wire.Writer.size_messages yui_ibc_solidity.Wire.Writer.size_option
    yui_ibc_solidity.Channel.Counterparty.size
open_channel_fits = omega arith

unmarshal-marshal_channel_example :
    (bs : Bytes) × (marshal open_channel ≡ some bs)
    × (length bs ≡ size open_channel)
    × (unmarshal bs empty ≡ ok open_channel)
unmarshal-marshal_channel_example =
    unmarshal-marshal_channel open_channel open_channel-IsValid open_channel_fits
