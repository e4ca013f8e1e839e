-- ===== src/Contract/Ibchandler/Transactor.antt =====
-- pkg/contract/ibchandler/ibchandler.go: the methods that send a transaction.
use yui_ibc_solidity.Prelude.{ℕ, Bytes, [], ◌∷◌, codes}
use yui_ibc_solidity.Prelude.Try.{Try}
use yui_ibc_solidity.Contract.Bound.{Basic, BoundContract}
use yui_ibc_solidity.Contract.Ibchandler.Structs.{
  Structs, MsgPacketAcknowledgement, MsgChannelOpenAck, MsgChannelOpenConfirm, MsgChannelOpenInit,
  MsgChannelOpenTry, MsgConnectionOpenAck, MsgConnectionOpenConfirm, MsgConnectionOpenInit,
  MsgConnectionOpenTry, MsgCreateClient, MsgPacketRecv, PacketData, MsgUpdateClient,
}

module _ {E Value CallOpts TransactOpts Tx : Type 0} (basic : Basic Value) (structs : Structs Value)
    (contract : BoundContract E Value CallOpts TransactOpts Tx) where
  unfoldable pub acknowledge_packet : TransactOpts → MsgPacketAcknowledgement → Try E Tx
  acknowledge_packet opts msg =
      contract.transact opts (codes "acknowledgePacket")
        (structs.msg_packet_acknowledgement.box msg ∷ [])

  unfoldable pub bind_port : TransactOpts → Bytes → ℕ → Try E Tx
  bind_port opts port_id module_address =
      contract.transact opts (codes "bindPort")
        (basic.string.box port_id ∷ basic.address.box module_address ∷ [])

  unfoldable pub channel_open_ack : TransactOpts → MsgChannelOpenAck → Try E Tx
  channel_open_ack opts msg =
      contract.transact opts (codes "channelOpenAck") (structs.msg_channel_open_ack.box msg ∷ [])

  unfoldable pub channel_open_confirm : TransactOpts → MsgChannelOpenConfirm → Try E Tx
  channel_open_confirm opts msg =
      contract.transact opts (codes "channelOpenConfirm")
        (structs.msg_channel_open_confirm.box msg ∷ [])

  unfoldable pub channel_open_init : TransactOpts → MsgChannelOpenInit → Try E Tx
  channel_open_init opts msg =
      contract.transact opts (codes "channelOpenInit") (structs.msg_channel_open_init.box msg ∷ [])

  unfoldable pub channel_open_try : TransactOpts → MsgChannelOpenTry → Try E Tx
  channel_open_try opts msg =
      contract.transact opts (codes "channelOpenTry") (structs.msg_channel_open_try.box msg ∷ [])

  unfoldable pub connection_open_ack : TransactOpts → MsgConnectionOpenAck → Try E Tx
  connection_open_ack opts msg =
      contract.transact opts (codes "connectionOpenAck")
        (structs.msg_connection_open_ack.box msg ∷ [])

  unfoldable pub connection_open_confirm : TransactOpts → MsgConnectionOpenConfirm → Try E Tx
  connection_open_confirm opts msg =
      contract.transact opts (codes "connectionOpenConfirm")
        (structs.msg_connection_open_confirm.box msg ∷ [])

  unfoldable pub connection_open_init : TransactOpts → MsgConnectionOpenInit → Try E Tx
  connection_open_init opts msg =
      contract.transact opts (codes "connectionOpenInit")
        (structs.msg_connection_open_init.box msg ∷ [])

  unfoldable pub connection_open_try : TransactOpts → MsgConnectionOpenTry → Try E Tx
  connection_open_try opts msg =
      contract.transact opts (codes "connectionOpenTry")
        (structs.msg_connection_open_try.box msg ∷ [])

  unfoldable pub create_client : TransactOpts → MsgCreateClient → Try E Tx
  create_client opts msg =
      contract.transact opts (codes "createClient") (structs.msg_create_client.box msg ∷ [])

  unfoldable pub recv_packet : TransactOpts → MsgPacketRecv → Try E Tx
  recv_packet opts msg =
      contract.transact opts (codes "recvPacket") (structs.msg_packet_recv.box msg ∷ [])

  unfoldable pub register_client : TransactOpts → Bytes → ℕ → Try E Tx
  register_client opts client_type client =
      contract.transact opts (codes "registerClient")
        (basic.string.box client_type ∷ basic.address.box client ∷ [])

  unfoldable pub send_packet : TransactOpts → PacketData → Try E Tx
  send_packet opts packet =
      contract.transact opts (codes "sendPacket") (structs.packet_data.box packet ∷ [])

  unfoldable pub update_client : TransactOpts → MsgUpdateClient → Try E Tx
  update_client opts msg =
      contract.transact opts (codes "updateClient") (structs.msg_update_client.box msg ∷ [])

  unfoldable pub write_acknowledgement : TransactOpts → Bytes → Bytes → ℕ → Bytes → Try E Tx
  write_acknowledgement opts destination_port_id destination_channel sequence acknowledgement =
      contract.transact opts (codes "writeAcknowledgement") (
        basic.string.box destination_port_id
        ∷ basic.string.box destination_channel
        ∷ basic.uint64.box sequence
        ∷ basic.bytes.box acknowledgement
        ∷ [])
