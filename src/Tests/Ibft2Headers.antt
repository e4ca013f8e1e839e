-- ===== src/Tests/Ibft2Headers.antt =====
-- The codec of pkg/ibc/client/ibft2/IBFT2.pb.go at a header of IBFT 2.0.
use yui_ibc_solidity.Prelude.{◌≡◌, arith, Bytes, some, [], ◌∷◌, length}
use yui_ibc_solidity.Wire.Result.{ok}
use yui_ibc_solidity.Wire.Format.{IsLength}
use yui_ibc_solidity.Ibft2.Header.{
  empty, marshal, size, unmarshal, Header, IsValid, unmarshal-marshal_ibft2_header,
}

abbrev besu_header : Header
besu_header = record {
  besu_header_rlp = 0xf9 ∷ 2 ∷ [];
  seals = (1 ∷ []) ∷ [] ∷ (3 ∷ []) ∷ [];
  trusted_height = 128;
  account_state_proof = [];
}

besu_header-IsValid : IsValid besu_header
besu_header-IsValid = record { trusted_height = omega arith }

besu_header_fits : IsLength (size besu_header)
unfolding size yui_ibc_solidity.Wire.Writer.size_uint yui_ibc_solidity.Wire.Writer.bit_length
    yui_ibc_solidity.Wire.Writer.size_bytes yui_ibc_solidity.Wire.Writer.size_repeated
    yui_ibc_solidity.Wire.Writer.size_enum yui_ibc_solidity.Wire.Writer.sign_extend
    yui_ibc_solidity.Wire.Writer.size_messages yui_ibc_solidity.Wire.Writer.size_option
besu_header_fits = omega arith

unmarshal-marshal_ibft2_header_example :
    (bs : Bytes) × (marshal besu_header ≡ some bs)
    × (length bs ≡ size besu_header)
    × (unmarshal bs empty ≡ ok besu_header)
unmarshal-marshal_ibft2_header_example =
    unmarshal-marshal_ibft2_header besu_header besu_header-IsValid besu_header_fits
