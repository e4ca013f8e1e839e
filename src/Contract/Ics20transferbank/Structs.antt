-- ===== src/Contract/Ics20transferbank/Structs.antt =====
-- pkg/contract/ics20transferbank/ics20transferbank.go: the structs of the contract, with go-ethereum's conversion of each one it passes.
use yui_ibc_solidity.Prelude.{ℕ, Bytes}
use yui_ibc_solidity.Contract.Bound.{Boxed}

pub record ChannelCounterpartyData : Type 0 where
  pub port_id : Bytes
  pub channel_id : Bytes

pub record HeightData : Type 0 where
  pub revision_number : ℕ
  pub revision_height : ℕ

pub record PacketData : Type 0 where
  pub sequence : ℕ
  pub source_port : Bytes
  pub source_channel : Bytes
  pub destination_port : Bytes
  pub destination_channel : Bytes
  pub payload : Bytes
  pub timeout_height : HeightData
  pub timeout_timestamp : ℕ

pub record Structs (Value : Type 0) : Type 0 where
  pub packet_data : Boxed Value PacketData
  pub channel_counterparty_data : Boxed Value ChannelCounterpartyData
