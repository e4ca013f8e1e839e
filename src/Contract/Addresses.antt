-- ===== src/Contract/Addresses.antt =====
-- pkg/consts/contract.go: the addresses of the deployed contracts. `common.HexToAddress` is a parameter.
use yui_ibc_solidity.Prelude.{Bytes, codes}

abbrev pub ibc_host_address : Bytes
ibc_host_address = codes "0xff77D90D6aA12db33d3Ba50A34fB25401f6e4c4F"

abbrev pub ibc_handler_address : Bytes
ibc_handler_address = codes "0x2F5703804E29F4252FA9405B8D357220d11b3bd9"

abbrev pub ibc_identifier_address : Bytes
ibc_identifier_address = codes "0xB9c99Dc02185993bdB9C48Fc29544f6cC6604F87"

abbrev pub ibft2_client_address : Bytes
ibft2_client_address = codes "0x702E40245797c5a2108A566b3CE2Bf14Bc6aF841"

abbrev pub mock_client_address : Bytes
mock_client_address = codes "0xaa43d337145E8930d01cb4E60Abf6595C692921E"

abbrev pub simple_token_address : Bytes
simple_token_address = codes "0xaE1C9125BbcF63bf51294C4D15CBD472782E330D"

abbrev pub ics20_transfer_bank_address : Bytes
ics20_transfer_bank_address = codes "0x87d7778dbc81251D5A0D78DFD8a0C359887E98C9"

abbrev pub ics20_bank_address : Bytes
ics20_bank_address = codes "0xa7f733a4fEA1071f58114b203F57444969b86524"

module _ {Address : Type 0} (hex_to_address : Bytes → Address) where
  unfoldable pub get_ibc_host_address : Address
  get_ibc_host_address = hex_to_address ibc_host_address

  unfoldable pub get_ibc_handler_address : Address
  get_ibc_handler_address = hex_to_address ibc_handler_address

  unfoldable pub get_ibc_identifier_address : Address
  get_ibc_identifier_address = hex_to_address ibc_identifier_address

  unfoldable pub get_ibft2_client_address : Address
  get_ibft2_client_address = hex_to_address ibft2_client_address

  unfoldable pub get_mock_client_address : Address
  get_mock_client_address = hex_to_address mock_client_address

  unfoldable pub get_simple_token_address : Address
  get_simple_token_address = hex_to_address simple_token_address

  unfoldable pub get_ics20_transfer_bank_address : Address
  get_ics20_transfer_bank_address = hex_to_address ics20_transfer_bank_address

  unfoldable pub get_ics20_bank_address : Address
  get_ics20_bank_address = hex_to_address ics20_bank_address
