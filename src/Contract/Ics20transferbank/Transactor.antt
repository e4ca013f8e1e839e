-- ===== src/Contract/Ics20transferbank/Transactor.antt =====
-- pkg/contract/ics20transferbank/ics20transferbank.go: the methods that send a transaction.
use yui_ibc_solidity.Prelude.{ℕ, Bytes, List, [], ◌∷◌, codes}
use yui_ibc_solidity.Prelude.Try.{Try}
use yui_ibc_solidity.Contract.Bound.{Basic, BoundContract}
use yui_ibc_solidity.Contract.Ics20transferbank.Structs.{
  Structs, PacketData, ChannelCounterpartyData,
}

module _ {E Value CallOpts TransactOpts Tx : Type 0} (basic : Basic Value) (structs : Structs Value)
    (contract : BoundContract E Value CallOpts TransactOpts Tx) where
  unfoldable pub on_acknowledgement_packet : TransactOpts → PacketData → Bytes → Try E Tx
  on_acknowledgement_packet opts packet acknowledgement =
      contract.transact opts (codes "onAcknowledgementPacket")
        (structs.packet_data.box packet ∷ basic.bytes.box acknowledgement ∷ [])

  unfoldable pub on_chan_open_ack : TransactOpts → Bytes → Bytes → Bytes → Try E Tx
  on_chan_open_ack opts port_id channel_id counterparty_version =
      contract.transact opts (codes "onChanOpenAck") (
        basic.string.box port_id
        ∷ basic.string.box channel_id
        ∷ basic.string.box counterparty_version
        ∷ [])

  unfoldable pub on_chan_open_confirm : TransactOpts → Bytes → Bytes → Try E Tx
  on_chan_open_confirm opts port_id channel_id =
      contract.transact opts (codes "onChanOpenConfirm")
        (basic.string.box port_id ∷ basic.string.box channel_id ∷ [])

  unfoldable pub on_chan_open_init :
      TransactOpts → ℕ → List Bytes → Bytes → Bytes → ChannelCounterpartyData → Bytes → Try E Tx
  on_chan_open_init opts arg0 connection_hops port_id channel_id counterparty version =
      contract.transact opts (codes "onChanOpenInit") (
        basic.uint8.box arg0
        ∷ basic.strings.box connection_hops
        ∷ basic.string.box port_id
        ∷ basic.string.box channel_id
        ∷ structs.channel_counterparty_data.box counterparty
        ∷ basic.string.box version
        ∷ [])

  unfoldable pub on_chan_open_try :
      TransactOpts
      → ℕ
      → List Bytes
      → Bytes
      → Bytes
      → ChannelCounterpartyData
      → Bytes
      → Bytes
      → Try E Tx
  on_chan_open_try opts arg0 connection_hops port_id channel_id counterparty version
        counterparty_version =
      contract.transact opts (codes "onChanOpenTry") (
        basic.uint8.box arg0
        ∷ basic.strings.box connection_hops
        ∷ basic.string.box port_id
        ∷ basic.string.box channel_id
        ∷ structs.channel_counterparty_data.box counterparty
        ∷ basic.string.box version
        ∷ basic.string.box counterparty_version
        ∷ [])

  unfoldable pub on_recv_packet : TransactOpts → PacketData → Try E Tx
  on_recv_packet opts packet =
      contract.transact opts (codes "onRecvPacket") (structs.packet_data.box packet ∷ [])

  unfoldable pub send_transfer : TransactOpts → Bytes → ℕ → ℕ → Bytes → Bytes → ℕ → Try E Tx
  send_transfer opts denom amount receiver source_port source_channel timeout_height =
      contract.transact opts (codes "sendTransfer") (
        basic.string.box denom
        ∷ basic.uint64.box amount
        ∷ basic.address.box receiver
        ∷ basic.string.box source_port
        ∷ basic.string.box source_channel
        ∷ basic.uint64.box timeout_height
        ∷ [])
