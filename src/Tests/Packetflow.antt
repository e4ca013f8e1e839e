-- ===== src/Tests/Packetflow.antt =====
-- contracts/core: packets on a chain whose hashes are the identity and whose light client accepts every proof.
use yui_ibc_solidity.Prelude.{
  ℕ, ◌≡◌, ◌≢◌, refl, arith, Bytes, [], ◌∷◌, true, false, same_string, codes,
}
use yui_ibc_solidity.Prelude.Decimal.{decimal}
use yui_ibc_solidity.Prelude.Try.{Try, ok, err}
use yui_ibc_solidity.Channel.Packet.{Packet}
use yui_ibc_solidity.Commitment.Uint64.{uint64_to_big_endian}
use yui_ibc_solidity.Commitment.Commit.{commit_packet}
use yui_ibc_solidity.Contract.Ibchost.Structs.{ChannelData, ConnectionEndData}
use yui_ibc_solidity.Contract.Ibchandler.Structs.{PacketData}
use yui_ibc_solidity.Relay.CallData.{packet_to_call_data}
use yui_ibc_solidity.Core.Store.{Store, Chain}
use yui_ibc_solidity.Core.Host.{zero_word, get_packet_commitment, uint2str}
use yui_ibc_solidity.Core.Clients.{LightClients}
use yui_ibc_solidity.Core.Channel.{MsgChannelOpenInit, channel_open_init}
use yui_ibc_solidity.Core.Packet.{MsgPacketRecv, MsgPacketAcknowledgement}
use yui_ibc_solidity.Core.Packet.Send.{send_packet}
use yui_ibc_solidity.Core.Packet.Receive.{recv_packet}
use yui_ibc_solidity.Core.Packet.Acknowledge.{write_acknowledgement, acknowledge_packet}
use yui_ibc_solidity.Core.Run.{here, after, write, by_init}
use yui_ibc_solidity.Core.Once.{
  recv_packet-once, acknowledge_packet-ordered, acknowledge_packet-once,
}
use yui_ibc_solidity.Core.Digits.{uint2str-decimal}
use yui_ibc_solidity.Core.Sent.{send_packet-commit_packet}

abbrev pub chain : Chain
chain = record {
  sender = 7;
  block_number = 10;
  block_timestamp = 10;
  keccak256 = λ b. b;
  sha256 = λ b. b;
  encode_channel = λ c. [];
  equals = same_string;
}

abbrev clients : LightClients
clients = record {
  get_latest_height = λ a s id. ok (5, true);
  get_timestamp_at_height = λ a s id h. ok (5, true);
  verify_channel_state = λ a s id h prefix proof p c bz. ok true;
  verify_packet_commitment = λ a s id h prefix proof p c n bz. ok true;
  verify_packet_acknowledgement = λ a s id h prefix proof p c n bz. ok true;
}

abbrev channel : ℕ → ℕ → ChannelData
channel state ordering = record {
  state = state;
  ordering = ordering;
  counterparty = record { port_id = 2 ∷ []; channel_id = 2 ∷ [] };
  connection_hops = (0 ∷ []) ∷ [];
  version = [];
}

abbrev connection : ConnectionEndData
connection = record {
  client_id = [];
  versions = record { identifier = []; features = [] } ∷ [];
  state = 3;
  counterparty = record { client_id = []; connection_id = []; prefix = record { key_prefix = [] } };
  delay_period = 0;
}

abbrev pub store : ℕ → Store
store ordering = record {
  commitments = λ k. zero_word;
  client_registry = λ t. 9;
  client_types = λ id. [];
  client_states = λ id. [];
  consensus_states = λ id h. [];
  connections = λ id. connection;
  channels = λ p c. channel 3 ordering;
  next_sequence_sends = λ p c. 1;
  next_sequence_recvs = λ p c. 1;
  next_sequence_acks = λ p c. 1;
  packet_receipts = λ p c n. false;
  capabilities = λ name. [];
  next_client_sequence = 1;
  next_connection_sequence = 1;
  next_channel_sequence = 4;
  owner = 6;
  ibc_module = 7;
}

-- The store of a call that does not revert.
abbrev result : Try Bytes Store → Store
result (ok s) = s
result (err e) = store 0

-- A packet from port and channel 1 to port and channel 2.
abbrev sent : Packet
sent = record {
  sequence = 1;
  source_port = 1 ∷ [];
  source_channel = 1 ∷ [];
  destination_port = 2 ∷ [];
  destination_channel = 2 ∷ [];
  payload = 42 ∷ [];
  timeout_height = record { revision_number = 0; revision_height = 100 };
  timeout_timestamp = 0;
}

abbrev after_send : Store
after_send = result (send_packet chain clients (store 1) (packet_to_call_data sent))

sent_test : send_packet chain clients (store 1) (packet_to_call_data sent) ≡ ok after_send
unfolding send_packet packet_to_call_data
sent_test = refl

send_packet-commit_packet_example :
    (sent.sequence ≡ (store 1).next_sequence_sends (1 ∷ []) (1 ∷ []))
    × (after_send.next_sequence_sends (1 ∷ []) (1 ∷ []) ≡ 2)
    × ((get_packet_commitment chain after_send (1 ∷ []) (1 ∷ []) 1).0 ≡ commit_packet (λ b. b) sent)
send_packet-commit_packet_example =
    send_packet-commit_packet chain clients (store 1) after_send sent sent_test

-- The packet of the other chain: from port and channel 2 to port and channel 1.
abbrev incoming : PacketData
incoming = record {
  sequence = 1;
  source_port = 2 ∷ [];
  source_channel = 2 ∷ [];
  destination_port = 1 ∷ [];
  destination_channel = 1 ∷ [];
  payload = 42 ∷ [];
  timeout_height = record { revision_number = 0; revision_height = 100 };
  timeout_timestamp = 0;
}

abbrev recv_msg : MsgPacketRecv
recv_msg = record { packet = incoming; proof = []; proof_height = 5 }

abbrev after_recv : Store
after_recv = result (recv_packet chain clients (store 1) recv_msg)

recv_test : recv_packet chain clients (store 1) recv_msg ≡ ok after_recv
unfolding recv_packet
recv_test = refl

abbrev after_write : Store
after_write = result (write_acknowledgement chain clients after_recv (1 ∷ []) (1 ∷ []) 1 (8 ∷ []))

write_test :
    write_acknowledgement chain clients after_recv (1 ∷ []) (1 ∷ []) 1 (8 ∷ []) ≡ ok after_write
unfolding write_acknowledgement recv_packet
write_test = refl

order_test : (after_write.channels (1 ∷ []) (1 ∷ [])).ordering ≡ 1
unfolding write_acknowledgement recv_packet
order_test = refl

recv_packet-once_example : recv_packet chain clients after_write recv_msg ≢ ok (store 1)
recv_packet-once_example =
    recv_packet-once clients chain chain (store 1) after_recv after_write (store 1) recv_msg
      recv_msg recv_test refl (after here (write chain (1 ∷ []) (1 ∷ []) 1 (8 ∷ []) write_test))
      (refl, refl, refl) order_test

abbrev ack_msg : Bytes → MsgPacketAcknowledgement
ack_msg source_channel = record {
  packet = record (packet_to_call_data sent) { source_channel = source_channel };
  acknowledgement = 8 ∷ [];
  proof = [];
  proof_height = 5;
}

abbrev after_ack : Store
after_ack = result (acknowledge_packet chain clients after_send (ack_msg (1 ∷ [])))

ack_test : acknowledge_packet chain clients after_send (ack_msg (1 ∷ [])) ≡ ok after_ack
unfolding acknowledge_packet send_packet packet_to_call_data uint64_to_big_endian
ack_test = refl

acknowledge_packet-once_example :
    acknowledge_packet chain clients after_ack (ack_msg (1 ∷ [])) ≢ ok (store 1)
acknowledge_packet-once_example =
    acknowledge_packet-once clients chain after_send after_ack (store 1) (ack_msg (1 ∷ []))
      (ack_msg (1 ∷ [])) ack_test (refl, refl, refl)

-- An ordered channel is opened under the identifier channel-4.
abbrev opening : MsgChannelOpenInit
opening = record { port_id = 1 ∷ []; channel = channel 1 2 }

abbrev opened : Try Bytes (Bytes × Store) → Store
opened (ok r) = r.1
opened (err e) = store 0

abbrev after_open : Store
after_open = opened (channel_open_init chain clients (store 2) opening)

uint2str_test : uint2str 120 ≡ ok (codes "120")
unfolding uint2str
uint2str_test = refl

uint2str-decimal_example : uint2str 4096 ≡ ok (decimal 4096)
uint2str-decimal_example = uint2str-decimal 4096 (omega arith)

open_test : channel_open_init chain clients (store 2) opening ≡ ok (codes "channel-4", after_open)
unfolding channel_open_init
open_test = refl

open_order_test : (after_open.channels (1 ∷ []) (codes "channel-4")).ordering ≡ 2
unfolding channel_open_init
open_order_test = refl

acknowledge_packet-ordered_example :
    acknowledge_packet chain clients after_open (ack_msg (codes "channel-4")) ≢ ok (store 2)
unfolding packet_to_call_data
acknowledge_packet-ordered_example =
    acknowledge_packet-ordered clients chain (store 2) after_open after_open (store 2) (1 ∷ [])
      (codes "channel-4") (ack_msg (codes "channel-4"))
      (by_init chain opening (codes "channel-4") open_test) here (refl, refl) open_order_test
