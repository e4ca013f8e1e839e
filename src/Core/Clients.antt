-- ===== src/Core/Clients.antt =====
-- contracts/core/IBCClient.sol and IBCConnection.sol: `getClient`, and the calls of the light client that it finds. The light
-- clients, contracts at addresses, are the record `LightClients`.
use yui_ibc_solidity.Prelude.{ℕ, Bytes, Bool}
use yui_ibc_solidity.Prelude.Try.{Try, ok, ◌>>=◌}
use yui_ibc_solidity.Prelude.{codes}
use yui_ibc_solidity.Contract.Ibchost.Structs.{ConnectionEndData}
use yui_ibc_solidity.Core.Store.{Store, require}
use yui_ibc_solidity.Core.Host.{get_client_impl, get_client_type}

-- The functions of IClient at an address, on a store; the strings are the client's identifier, the prefix, the proof and the
-- port and channel, as the code passes them.
pub record LightClients : Type 0 where
  pub get_latest_height : ℕ → Store → Bytes → Try Bytes (ℕ × Bool)
  pub get_timestamp_at_height : ℕ → Store → Bytes → ℕ → Try Bytes (ℕ × Bool)
  pub verify_channel_state :
      ℕ → Store → Bytes → ℕ → Bytes → Bytes → Bytes → Bytes → Bytes → Try Bytes Bool
  pub verify_packet_commitment :
      ℕ → Store → Bytes → ℕ → Bytes → Bytes → Bytes → Bytes → ℕ → Bytes → Try Bytes Bool
  pub verify_packet_acknowledgement :
      ℕ → Store → Bytes → ℕ → Bytes → Bytes → Bytes → Bytes → ℕ → Bytes → Try Bytes Bool

unfoldable pub get_client : Store → Bytes → Try Bytes ℕ
unfolding require get_client_impl get_client_type
get_client s client_id = do
  (address, found) ← ok (get_client_impl s (get_client_type s client_id))
  _ ← require found (codes "clientImpl not found")
  ok address

module _ (clients : LightClients) where
  unfoldable pub verify_channel_state :
      Store → ConnectionEndData → ℕ → Bytes → Bytes → Bytes → Bytes → Try Bytes Bool
  unfolding get_client
  verify_channel_state s connection height proof port_id channel_id channel_bytes = do
    address ← get_client s connection.client_id
    clients.verify_channel_state address s connection.client_id height
        connection.counterparty.prefix.key_prefix proof port_id channel_id channel_bytes

  unfoldable pub verify_packet_commitment :
      Store → ConnectionEndData → ℕ → Bytes → Bytes → Bytes → ℕ → Bytes → Try Bytes Bool
  unfolding get_client
  verify_packet_commitment s connection height proof port_id channel_id sequence commitment = do
    address ← get_client s connection.client_id
    clients.verify_packet_commitment address s connection.client_id height
        connection.counterparty.prefix.key_prefix proof port_id channel_id sequence commitment

  unfoldable pub verify_packet_acknowledgement :
      Store → ConnectionEndData → ℕ → Bytes → Bytes → Bytes → ℕ → Bytes → Try Bytes Bool
  unfolding get_client
  verify_packet_acknowledgement s connection height proof port_id channel_id sequence
        acknowledgement =
      do
        address ← get_client s connection.client_id
        clients.verify_packet_acknowledgement address s connection.client_id height
            connection.counterparty.prefix.key_prefix proof port_id channel_id sequence
            acknowledgement
