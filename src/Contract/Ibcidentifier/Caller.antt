-- ===== src/Contract/Ibcidentifier/Caller.antt =====
-- pkg/contract/ibcidentifier/ibcidentifier.go: the read methods.
use yui_ibc_solidity.Prelude.{ℕ, Bytes, [], ◌∷◌, codes}
use yui_ibc_solidity.Prelude.Try.{Try, ok, ◌>>=◌}
use yui_ibc_solidity.Contract.Bound.{Basic, BoundContract, CallError, called, output}

module _ {E Value CallOpts TransactOpts Tx : Type 0} (basic : Basic Value)
    (contract : BoundContract E Value CallOpts TransactOpts Tx) where
  unfoldable pub channel_capability_path : CallOpts → Bytes → Bytes → Try (CallError E) Bytes
  unfolding output
  channel_capability_path opts port_id channel_id = do
    out ← called (
        contract.call opts (codes "channelCapabilityPath")
          (basic.string.box port_id ∷ basic.string.box channel_id ∷ []))
    out0 ← output out 0 basic.bytes
    ok out0

  unfoldable pub channel_commitment_key : CallOpts → Bytes → Bytes → Try (CallError E) Bytes
  unfolding output
  channel_commitment_key opts port_id channel_id = do
    out ← called (
        contract.call opts (codes "channelCommitmentKey")
          (basic.string.box port_id ∷ basic.string.box channel_id ∷ []))
    out0 ← output out 0 basic.bytes32
    ok out0

  unfoldable pub channel_commitment_slot : CallOpts → Bytes → Bytes → Try (CallError E) Bytes
  unfolding output
  channel_commitment_slot opts port_id channel_id = do
    out ← called (
        contract.call opts (codes "channelCommitmentSlot")
          (basic.string.box port_id ∷ basic.string.box channel_id ∷ []))
    out0 ← output out 0 basic.bytes32
    ok out0

  unfoldable pub client_commitment_key : CallOpts → Bytes → Try (CallError E) Bytes
  unfolding output
  client_commitment_key opts client_id = do
    out ←
        called (contract.call opts (codes "clientCommitmentKey") (basic.string.box client_id ∷ []))
    out0 ← output out 0 basic.bytes32
    ok out0

  unfoldable pub client_state_commitment_slot : CallOpts → Bytes → Try (CallError E) Bytes
  unfolding output
  client_state_commitment_slot opts client_id = do
    out ←
        called
          (contract.call opts (codes "clientStateCommitmentSlot") (basic.string.box client_id ∷ []))
    out0 ← output out 0 basic.bytes32
    ok out0

  unfoldable pub connection_commitment_key : CallOpts → Bytes → Try (CallError E) Bytes
  unfolding output
  connection_commitment_key opts connection_id = do
    out ←
        called (
          contract.call opts (codes "connectionCommitmentKey")
            (basic.string.box connection_id ∷ []))
    out0 ← output out 0 basic.bytes32
    ok out0

  unfoldable pub connection_commitment_slot : CallOpts → Bytes → Try (CallError E) Bytes
  unfolding output
  connection_commitment_slot opts connection_id = do
    out ← called (
        contract.call opts (codes "connectionCommitmentSlot") (basic.string.box connection_id ∷ []))
    out0 ← output out 0 basic.bytes32
    ok out0

  unfoldable pub consensus_commitment_key : CallOpts → Bytes → ℕ → Try (CallError E) Bytes
  unfolding output
  consensus_commitment_key opts client_id height = do
    out ← called (
        contract.call opts (codes "consensusCommitmentKey")
          (basic.string.box client_id ∷ basic.uint64.box height ∷ []))
    out0 ← output out 0 basic.bytes32
    ok out0

  unfoldable pub consensus_state_commitment_slot : CallOpts → Bytes → ℕ → Try (CallError E) Bytes
  unfolding output
  consensus_state_commitment_slot opts client_id height = do
    out ← called (
        contract.call opts (codes "consensusStateCommitmentSlot")
          (basic.string.box client_id ∷ basic.uint64.box height ∷ []))
    out0 ← output out 0 basic.bytes32
    ok out0

  unfoldable pub packet_acknowledgement_commitment_key :
      CallOpts → Bytes → Bytes → ℕ → Try (CallError E) Bytes
  unfolding output
  packet_acknowledgement_commitment_key opts port_id channel_id sequence = do
    out ← called (
        contract.call opts (codes "packetAcknowledgementCommitmentKey")
          (basic.string.box port_id ∷ basic.string.box channel_id ∷ basic.uint64.box sequence ∷ []))
    out0 ← output out 0 basic.bytes32
    ok out0

  unfoldable pub packet_acknowledgement_commitment_slot :
      CallOpts → Bytes → Bytes → ℕ → Try (CallError E) Bytes
  unfolding output
  packet_acknowledgement_commitment_slot opts port_id channel_id sequence = do
    out ← called (
        contract.call opts (codes "packetAcknowledgementCommitmentSlot")
          (basic.string.box port_id ∷ basic.string.box channel_id ∷ basic.uint64.box sequence ∷ []))
    out0 ← output out 0 basic.bytes32
    ok out0

  unfoldable pub packet_commitment_key : CallOpts → Bytes → Bytes → ℕ → Try (CallError E) Bytes
  unfolding output
  packet_commitment_key opts port_id channel_id sequence = do
    out ← called (
        contract.call opts (codes "packetCommitmentKey")
          (basic.string.box port_id ∷ basic.string.box channel_id ∷ basic.uint64.box sequence ∷ []))
    out0 ← output out 0 basic.bytes32
    ok out0

  unfoldable pub packet_commitment_slot : CallOpts → Bytes → Bytes → ℕ → Try (CallError E) Bytes
  unfolding output
  packet_commitment_slot opts port_id channel_id sequence = do
    out ← called (
        contract.call opts (codes "packetCommitmentSlot")
          (basic.string.box port_id ∷ basic.string.box channel_id ∷ basic.uint64.box sequence ∷ []))
    out0 ← output out 0 basic.bytes32
    ok out0

  unfoldable pub port_capability_path : CallOpts → Bytes → Try (CallError E) Bytes
  unfolding output
  port_capability_path opts port_id = do
    out ← called (contract.call opts (codes "portCapabilityPath") (basic.string.box port_id ∷ []))
    out0 ← output out 0 basic.bytes
    ok out0
