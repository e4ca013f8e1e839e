-- ===== src/Channel/NewPacket.antt =====
-- `NewPacket` of pkg/ibc/channel/types.go.
use yui_ibc_solidity.Prelude.{ℕ, Bytes}
use yui_ibc_solidity.Channel.Height.{Height}
use yui_ibc_solidity.Channel.Packet.{Packet}

unfoldable pub new_packet : Bytes → ℕ → Bytes → Bytes → Bytes → Bytes → Height → ℕ → Packet
new_packet payload sequence source_port source_channel destination_port destination_channel
      timeout_height timeout_timestamp =
    record {
      sequence = sequence;
      source_port = source_port;
      source_channel = source_channel;
      destination_port = destination_port;
      destination_channel = destination_channel;
      payload = payload;
      timeout_height = timeout_height;
      timeout_timestamp = timeout_timestamp;
    }
