-- ===== src/Tests/Ibft2ClientStates.antt =====
-- The codec of pkg/ibc/client/ibft2/IBFT2.pb.go at a client state of IBFT 2.0.
use yui_ibc_solidity.Prelude.{◌≡◌, arith, Bytes, some, [], ◌∷◌, length, codes}
use yui_ibc_solidity.Wire.Result.{ok}
use yui_ibc_solidity.Wire.Format.{IsLength}
use yui_ibc_solidity.Wire.Total.{Ends}
use yui_ibc_solidity.Ibft2.ClientState.{
  empty, marshal, size, unmarshal, ClientState, IsValid, unmarshal-marshal_ibft2_client_state,
  unmarshal-Ends_ibft2_client_state,
}

abbrev besu_client : ClientState
besu_client = record {
  chain_id = codes "2018";
  ibc_store_address = 1 ∷ 2 ∷ 255 ∷ [];
  latest_height = 18446744073709551615;
}

besu_client-IsValid : IsValid besu_client
besu_client-IsValid = record { latest_height = omega arith }

besu_client_fits : IsLength (size besu_client)
unfolding size yui_ibc_solidity.Wire.Writer.size_uint yui_ibc_solidity.Wire.Writer.bit_length
    yui_ibc_solidity.Wire.Writer.size_bytes yui_ibc_solidity.Wire.Writer.size_repeated
    yui_ibc_solidity.Wire.Writer.size_enum yui_ibc_solidity.Wire.Writer.sign_extend
    yui_ibc_solidity.Wire.Writer.size_messages yui_ibc_solidity.Wire.Writer.size_option
besu_client_fits = omega arith

unmarshal-marshal_ibft2_client_state_example :
    (bs : Bytes) × (marshal besu_client ≡ some bs)
    × (length bs ≡ size besu_client)
    × (unmarshal bs empty ≡ ok besu_client)
unmarshal-marshal_ibft2_client_state_example =
    unmarshal-marshal_ibft2_client_state besu_client besu_client-IsValid besu_client_fits

unmarshal-Ends_ibft2_client_state_example : Ends IsValid (unmarshal (0x18 ∷ 0xff ∷ []) besu_client)
unmarshal-Ends_ibft2_client_state_example =
    unmarshal-Ends_ibft2_client_state (0x18 ∷ 0xff ∷ []) besu_client besu_client-IsValid
      (omega arith)
