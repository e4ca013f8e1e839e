-- ===== src/Tests/Ibft2ConsensusStates.antt =====
-- The codec of pkg/ibc/client/ibft2/IBFT2.pb.go at a consensus state of IBFT 2.0.
use yui_ibc_solidity.Prelude.{arith, [], ◌∷◌}
use yui_ibc_solidity.Wire.Format.{IsLength}
use yui_ibc_solidity.Wire.Total.{Ends}
use yui_ibc_solidity.Ibft2.ConsensusState.{
  size, unmarshal, ConsensusState, IsValid, unmarshal-Ends_ibft2_consensus_state,
}

abbrev besu_consensus : ConsensusState
besu_consensus = record {
  timestamp = 1600000000;
  root = 9 ∷ 8 ∷ [];
  validators = (1 ∷ []) ∷ (2 ∷ []) ∷ [];
}

besu_consensus-IsValid : IsValid besu_consensus
besu_consensus-IsValid = record { timestamp = omega arith }

besu_consensus_fits : IsLength (size besu_consensus)
unfolding size yui_ibc_solidity.Wire.Writer.size_uint yui_ibc_solidity.Wire.Writer.bit_length
    yui_ibc_solidity.Wire.Writer.size_bytes yui_ibc_solidity.Wire.Writer.size_repeated
    yui_ibc_solidity.Wire.Writer.size_enum yui_ibc_solidity.Wire.Writer.sign_extend
    yui_ibc_solidity.Wire.Writer.size_messages yui_ibc_solidity.Wire.Writer.size_option
besu_consensus_fits = omega arith

unmarshal-Ends_ibft2_consensus_state_example :
    Ends IsValid (unmarshal (0x12 ∷ 1 ∷ []) besu_consensus)
unmarshal-Ends_ibft2_consensus_state_example =
    unmarshal-Ends_ibft2_consensus_state (0x12 ∷ 1 ∷ []) besu_consensus besu_consensus-IsValid
      (omega arith)
