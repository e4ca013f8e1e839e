-- ===== src/Contract/Ibchandler/Structs.antt =====
-- pkg/contract/ibchandler/ibchandler.go: the structs of the contract, with go-ethereum's conversion of each one it passes.
use yui_ibc_solidity.Prelude.{ℕ, Bytes, List}
use yui_ibc_solidity.Contract.Bound.{Boxed}

pub record ChannelCounterpartyData : Type 0 where
  pub port_id : Bytes
  pub channel_id : Bytes

pub record ChannelData : Type 0 where
  pub state : ℕ
  pub ordering : ℕ
  pub counterparty : ChannelCounterpartyData
  pub connection_hops : List Bytes
  pub version : Bytes

pub record HeightData : Type 0 where
  pub revision_number : ℕ
  pub revision_height : ℕ

pub record MsgChannelOpenAck : Type 0 where
  pub port_id : Bytes
  pub channel_id : Bytes
  pub counterparty_version : Bytes
  pub counterparty_channel_id : Bytes
  pub proof_try : Bytes
  pub proof_height : ℕ

pub record MsgChannelOpenConfirm : Type 0 where
  pub port_id : Bytes
  pub channel_id : Bytes
  pub proof_ack : Bytes
  pub proof_height : ℕ

pub record MsgChannelOpenInit : Type 0 where
  pub port_id : Bytes
  pub channel : ChannelData

pub record MsgChannelOpenTry : Type 0 where
  pub port_id : Bytes
  pub previous_channel_id : Bytes
  pub channel : ChannelData
  pub counterparty_version : Bytes
  pub proof_init : Bytes
  pub proof_height : ℕ

pub record MsgConnectionOpenConfirm : Type 0 where
  pub connection_id : Bytes
  pub proof_ack : Bytes
  pub proof_height : ℕ

pub record MsgCreateClient : Type 0 where
  pub client_type : Bytes
  pub height : ℕ
  pub client_state_bytes : Bytes
  pub consensus_state_bytes : Bytes

pub record MsgUpdateClient : Type 0 where
  pub client_id : Bytes
  pub header : Bytes

pub record MerklePrefixData : Type 0 where
  pub key_prefix : Bytes

pub record CounterpartyData : Type 0 where
  pub client_id : Bytes
  pub connection_id : Bytes
  pub prefix : MerklePrefixData

pub record MsgConnectionOpenInit : Type 0 where
  pub client_id : Bytes
  pub counterparty : CounterpartyData
  pub delay_period : ℕ

pub record PacketData : Type 0 where
  pub sequence : ℕ
  pub source_port : Bytes
  pub source_channel : Bytes
  pub destination_port : Bytes
  pub destination_channel : Bytes
  pub payload : Bytes
  pub timeout_height : HeightData
  pub timeout_timestamp : ℕ

pub record MsgPacketAcknowledgement : Type 0 where
  pub packet : PacketData
  pub acknowledgement : Bytes
  pub proof : Bytes
  pub proof_height : ℕ

pub record MsgPacketRecv : Type 0 where
  pub packet : PacketData
  pub proof : Bytes
  pub proof_height : ℕ

pub record VersionData : Type 0 where
  pub identifier : Bytes
  pub features : List Bytes

pub record MsgConnectionOpenAck : Type 0 where
  pub connection_id : Bytes
  pub client_state_bytes : Bytes
  pub version : VersionData
  pub counterparty_connection_id : Bytes
  pub proof_try : Bytes
  pub proof_client : Bytes
  pub proof_consensus : Bytes
  pub proof_height : ℕ
  pub consensus_height : ℕ

pub record MsgConnectionOpenTry : Type 0 where
  pub previous_connection_id : Bytes
  pub counterparty : CounterpartyData
  pub delay_period : ℕ
  pub client_id : Bytes
  pub client_state_bytes : Bytes
  pub counterparty_versions : List VersionData
  pub proof_init : Bytes
  pub proof_client : Bytes
  pub proof_consensus : Bytes
  pub proof_height : ℕ
  pub consensus_height : ℕ

pub record Structs (Value : Type 0) : Type 0 where
  pub msg_packet_acknowledgement : Boxed Value MsgPacketAcknowledgement
  pub msg_channel_open_ack : Boxed Value MsgChannelOpenAck
  pub msg_channel_open_confirm : Boxed Value MsgChannelOpenConfirm
  pub msg_channel_open_init : Boxed Value MsgChannelOpenInit
  pub msg_channel_open_try : Boxed Value MsgChannelOpenTry
  pub msg_connection_open_ack : Boxed Value MsgConnectionOpenAck
  pub msg_connection_open_confirm : Boxed Value MsgConnectionOpenConfirm
  pub msg_connection_open_init : Boxed Value MsgConnectionOpenInit
  pub msg_connection_open_try : Boxed Value MsgConnectionOpenTry
  pub msg_create_client : Boxed Value MsgCreateClient
  pub msg_packet_recv : Boxed Value MsgPacketRecv
  pub packet_data : Boxed Value PacketData
  pub msg_update_client : Boxed Value MsgUpdateClient
