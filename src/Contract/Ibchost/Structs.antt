-- ===== src/Contract/Ibchost/Structs.antt =====
-- pkg/contract/ibchost/ibchost.go: the structs of the contract, with go-ethereum's conversion of each one it passes.
use yui_ibc_solidity.Prelude.{ℕ, Bytes, List}
use yui_ibc_solidity.Contract.Bound.{Boxed}

pub record ChannelCounterpartyData : Type 0 where
  pub port_id : Bytes
  pub channel_id : Bytes

pub record ChannelData : Type 0 where
  pub state : ℕ
  pub ordering : ℕ
  pub counterparty : ChannelCounterpartyData
  pub connection_hops : List Bytes
  pub version : Bytes

pub record HeightData : Type 0 where
  pub revision_number : ℕ
  pub revision_height : ℕ

pub record MerklePrefixData : Type 0 where
  pub key_prefix : Bytes

pub record CounterpartyData : Type 0 where
  pub client_id : Bytes
  pub connection_id : Bytes
  pub prefix : MerklePrefixData

pub record PacketData : Type 0 where
  pub sequence : ℕ
  pub source_port : Bytes
  pub source_channel : Bytes
  pub destination_port : Bytes
  pub destination_channel : Bytes
  pub payload : Bytes
  pub timeout_height : HeightData
  pub timeout_timestamp : ℕ

pub record VersionData : Type 0 where
  pub identifier : Bytes
  pub features : List Bytes

pub record ConnectionEndData : Type 0 where
  pub client_id : Bytes
  pub versions : List VersionData
  pub state : ℕ
  pub counterparty : CounterpartyData
  pub delay_period : ℕ

pub record Structs (Value : Type 0) : Type 0 where
  pub packet_data : Boxed Value PacketData
  pub channel_data : Boxed Value ChannelData
  pub connection_end_data : Boxed Value ConnectionEndData
