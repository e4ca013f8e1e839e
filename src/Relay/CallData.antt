-- ===== src/Relay/CallData.antt =====
-- pkg/testing/chains.go: `packetToCallData`.

use yui_ibc_solidity.Channel.Packet.{Packet}
use yui_ibc_solidity.Contract.Ibchandler.Structs.{PacketData}

unfoldable pub packet_to_call_data : Packet → PacketData
packet_to_call_data packet = record {
  sequence = packet.sequence;
  source_port = packet.source_port;
  source_channel = packet.source_channel;
  destination_port = packet.destination_port;
  destination_channel = packet.destination_channel;
  payload = packet.payload;
  timeout_height = record {
    revision_number = packet.timeout_height.revision_number;
    revision_height = packet.timeout_height.revision_height;
  };
  timeout_timestamp = packet.timeout_timestamp;
}
