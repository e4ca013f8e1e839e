-- ===== src/Tests/Transfers.antt =====
-- The codec of pkg/ibc/app/App.pb.go at the data of a token transfer.
use yui_ibc_solidity.Prelude.{◌≡◌, arith, Bytes, some, [], ◌∷◌, length, codes}
use yui_ibc_solidity.Wire.Result.{ok}
use yui_ibc_solidity.Wire.Format.{IsLength}
use yui_ibc_solidity.App.FungibleTokenPacketData.{
  empty, marshal, size, unmarshal, FungibleTokenPacketData, IsValid,
  unmarshal-marshal_fungible_token_packet_data,
}

abbrev coins : FungibleTokenPacketData
coins = record { denom = codes "coin"; amount = 100; sender = 1 ∷ []; receiver = 2 ∷ [] }

coins-IsValid : IsValid coins
coins-IsValid = record { amount = omega arith }

coins_fits : IsLength (size coins)
unfolding size yui_ibc_solidity.Wire.Writer.size_uint yui_ibc_solidity.Wire.Writer.bit_length
    yui_ibc_solidity.Wire.Writer.size_bytes yui_ibc_solidity.Wire.Writer.size_repeated
    yui_ibc_solidity.Wire.Writer.size_enum yui_ibc_solidity.Wire.Writer.sign_extend
    yui_ibc_solidity.Wire.Writer.size_messages yui_ibc_solidity.Wire.Writer.size_option
coins_fits = omega arith

unmarshal-marshal_fungible_token_packet_data_example :
    (bs : Bytes) × (marshal coins ≡ some bs)
    × (length bs ≡ size coins)
    × (unmarshal bs empty ≡ ok coins)
unmarshal-marshal_fungible_token_packet_data_example =
    unmarshal-marshal_fungible_token_packet_data coins coins-IsValid coins_fits
