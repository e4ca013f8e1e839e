-- ===== src/Core/Channel.antt =====
-- contracts/core/IBCChannel.sol: the handlers of the channel handshake. Each is the checks it starts with and the writes.
use yui_ibc_solidity.Prelude.{ℕ, Bytes, List, [], ◌∷◌, ◌||◌, ◌==◌, length, codes}
use yui_ibc_solidity.Prelude.Try.{Try, ok, ◌>>=◌}
use yui_ibc_solidity.Contract.Ibchost.Structs.{ChannelData, ConnectionEndData}
use yui_ibc_solidity.Core.Store.{Store, Chain, require}
use yui_ibc_solidity.Core.Host.{
  only_ibc_module, get_channel, get_connection, set_channel, set_next_sequence_send,
  set_next_sequence_recv, set_next_sequence_ack, generate_channel_identifier,
}
use yui_ibc_solidity.Core.Clients.{LightClients, verify_channel_state}
use yui_ibc_solidity.Core.Packet.{state_open, first_hop}

abbrev pub state_init : ℕ
state_init = 1

abbrev pub state_tryopen : ℕ
state_tryopen = 2

pub record MsgChannelOpenInit : Type 0 where
  pub port_id : Bytes
  pub channel : ChannelData

pub record MsgChannelOpenTry : Type 0 where
  pub port_id : Bytes
  pub previous_channel_id : Bytes
  pub channel : ChannelData
  pub counterparty_version : Bytes
  pub proof_init : Bytes
  pub proof_height : ℕ

pub record MsgChannelOpenAck : Type 0 where
  pub port_id : Bytes
  pub channel_id : Bytes
  pub counterparty_version : Bytes
  pub counterparty_channel_id : Bytes
  pub proof_try : Bytes
  pub proof_height : ℕ

pub record MsgChannelOpenConfirm : Type 0 where
  pub port_id : Bytes
  pub channel_id : Bytes
  pub proof_ack : Bytes
  pub proof_height : ℕ

unfoldable pub get_counterparty_hops : Store → ChannelData → Try Bytes (List Bytes)
unfolding require first_hop get_connection
get_counterparty_hops s channel = do
  _ ← require (length channel.connection_hops == 1) (codes "connection_hops length must be 1")
  hop ← first_hop channel.connection_hops
  (connection, found) ← ok (get_connection s hop)
  _ ← require found (codes "connection not found")
  ok (connection.counterparty.connection_id ∷ [])

module _ (chain : Chain) (clients : LightClients) where
  -- The checks that both openings share: one hop, to a connection of one version.
  unfoldable pub connection_check : Store → ChannelData → Try Bytes ConnectionEndData
  unfolding only_ibc_module require get_connection first_hop
  connection_check s channel = do
    _ ← only_ibc_module chain s
    _ ← require (length channel.connection_hops == 1) (codes "connection_hops length must be 1")
    hop ← first_hop channel.connection_hops
    (connection, found) ← ok (get_connection s hop)
    _ ← require found (codes "connection not found")
    _ ←
        require (length connection.versions == 1)
          (codes "single version must be negotiated on connection before opening channel")
    ok connection

  -- The channel under an identifier, and its sequences at one.
  unfoldable pub start_channel : Store → Bytes → Bytes → ChannelData → Try Bytes Store
  unfolding set_channel set_next_sequence_send set_next_sequence_recv set_next_sequence_ack
  start_channel s port_id channel_id channel = do
    s1 ← set_channel chain s port_id channel_id channel
    s2 ← set_next_sequence_send chain s1 port_id channel_id 1
    s3 ← set_next_sequence_recv chain s2 port_id channel_id 1
    set_next_sequence_ack chain s3 port_id channel_id 1

  -- The same under a generated identifier, which is returned.
  unfoldable pub open_channel : Store → Bytes → ChannelData → Try Bytes (Bytes × Store)
  unfolding generate_channel_identifier start_channel
  open_channel s port_id channel = do
    (channel_id, s1) ← generate_channel_identifier chain s
    s2 ← start_channel s1 port_id channel_id channel
    ok (channel_id, s2)

  unfoldable pub open_init_check : Store → MsgChannelOpenInit → Try Bytes (Unit {0})
  unfolding connection_check require
  open_init_check s msg = do
    _ ← connection_check s msg.channel
    require (msg.channel.state == state_init) (codes "channel state must STATE_INIT")

  unfoldable pub channel_open_init : Store → MsgChannelOpenInit → Try Bytes (Bytes × Store)
  unfolding open_init_check open_channel
  channel_open_init s msg = do _ ← open_init_check s msg; open_channel s msg.port_id msg.channel

  unfoldable pub open_try_check : Store → MsgChannelOpenTry → Try Bytes (Unit {0})
  unfolding connection_check require get_counterparty_hops verify_channel_state
  open_try_check s msg = do
    connection ← connection_check s msg.channel
    _ ← require (msg.channel.state == state_tryopen) (codes "channel state must be STATE_TRYOPEN")
    hops ← get_counterparty_hops s msg.channel
    expected ← ok (
        chain.encode_channel (record {
          state = state_init;
          ordering = msg.channel.ordering;
          counterparty = record { port_id = msg.port_id; channel_id = [] };
          connection_hops = hops;
          version = msg.counterparty_version;
        }))
    proved ←
        verify_channel_state clients s connection msg.proof_height msg.proof_init
          msg.channel.counterparty.port_id msg.channel.counterparty.channel_id expected
    require proved (codes "failed to verify channel state")

  unfoldable pub channel_open_try : Store → MsgChannelOpenTry → Try Bytes (Bytes × Store)
  unfolding open_try_check open_channel
  channel_open_try s msg = do _ ← open_try_check s msg; open_channel s msg.port_id msg.channel

  -- The connection that a channel in the handshake runs over.
  unfoldable pub open_connection : Store → ChannelData → Try Bytes ConnectionEndData
  unfolding first_hop get_connection require
  open_connection s channel = do
    hop ← first_hop channel.connection_hops
    (connection, found) ← ok (get_connection s hop)
    _ ← require found (codes "connection not found")
    _ ← require (connection.state == state_open) (codes "connection state is not OPEN")
    ok connection

  unfoldable pub open_ack_check : Store → MsgChannelOpenAck → Try Bytes ChannelData
  unfolding only_ibc_module get_channel require open_connection get_counterparty_hops
      verify_channel_state
  open_ack_check s msg = do
    _ ← only_ibc_module chain s
    (channel, found) ← ok (get_channel s msg.port_id msg.channel_id)
    _ ← require found (codes "channel not found")
    _ ←
        require (channel.state == state_init || channel.state == state_tryopen)
          (codes "invalid channel state")
    connection ← open_connection s channel
    hops ← get_counterparty_hops s channel
    expected ← ok (
        chain.encode_channel (record {
          state = state_tryopen;
          ordering = channel.ordering;
          counterparty = record { port_id = msg.port_id; channel_id = msg.channel_id };
          connection_hops = hops;
          version = msg.counterparty_version;
        }))
    proved ←
        verify_channel_state clients s connection msg.proof_height msg.proof_try
          channel.counterparty.port_id msg.counterparty_channel_id expected
    _ ← require proved (codes "failed to verify channel state")
    ok channel

  unfoldable pub channel_open_ack : Store → MsgChannelOpenAck → Try Bytes Store
  unfolding open_ack_check set_channel
  channel_open_ack s msg = do
    channel ← open_ack_check s msg
    set_channel chain s msg.port_id msg.channel_id (record channel {
      state = state_open;
      version = msg.counterparty_version;
      counterparty = record channel.counterparty { channel_id = msg.counterparty_channel_id };
    })

  unfoldable pub open_confirm_check : Store → MsgChannelOpenConfirm → Try Bytes ChannelData
  unfolding only_ibc_module get_channel require open_connection get_counterparty_hops
      verify_channel_state
  open_confirm_check s msg = do
    _ ← only_ibc_module chain s
    (channel, found) ← ok (get_channel s msg.port_id msg.channel_id)
    _ ← require found (codes "channel not found")
    _ ← require (channel.state == state_tryopen) (codes "channel state is not TRYOPEN")
    connection ← open_connection s channel
    hops ← get_counterparty_hops s channel
    expected ← ok (
        chain.encode_channel (record {
          state = state_open;
          ordering = channel.ordering;
          counterparty = record { port_id = msg.port_id; channel_id = msg.channel_id };
          connection_hops = hops;
          version = channel.version;
        }))
    proved ←
        verify_channel_state clients s connection msg.proof_height msg.proof_ack
          channel.counterparty.port_id channel.counterparty.channel_id expected
    _ ← require proved (codes "failed to verify channel state")
    ok channel

  unfoldable pub channel_open_confirm : Store → MsgChannelOpenConfirm → Try Bytes Store
  unfolding open_confirm_check set_channel
  channel_open_confirm s msg = do
    channel ← open_confirm_check s msg
    set_channel chain s msg.port_id msg.channel_id (record channel { state = state_open })
