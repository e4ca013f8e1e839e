-- ===== src/Core/Sent.antt =====
-- contracts/core and pkg/testing: what a sent packet leaves on the host, and the commitment that the relayer computes of it.
use yui_ibc_solidity.Prelude.{◌+◌, ◌%◌, ◌^◌, ◌≡◌, refl, sym, ap, ◌∙◌}
use yui_ibc_solidity.Prelude.Try.{ok, >>=-eq_ok}
use yui_ibc_solidity.Channel.Packet.{Packet}
use yui_ibc_solidity.Commitment.Uint64.{uint64_to_big_endian}
use yui_ibc_solidity.Commitment.Commit.{commit_packet}
use yui_ibc_solidity.Relay.CallData.{packet_to_call_data}
use yui_ibc_solidity.Core.Store.{Store, Chain, put-same, put2-same}
use yui_ibc_solidity.Core.Host.{
  make_packet_commitment, packet_commitment_key, get_packet_commitment, set_next_sequence_send,
  set_packet_commitment,
}
use yui_ibc_solidity.Core.Clients.{LightClients}
use yui_ibc_solidity.Core.Packet.Send.{send_check, send_packet}
use yui_ibc_solidity.Core.Packet.Steps.{only_ibc_module-ok}
use yui_ibc_solidity.Core.Packet.Keeps.{send_sequence-ok}

make_packet_commitment-commit_packet :
    (chain : Chain) (packet : Packet)
    → make_packet_commitment chain (packet_to_call_data packet) ≡ commit_packet chain.sha256 packet
unfolding make_packet_commitment packet_to_call_data commit_packet uint64_to_big_endian
make_packet_commitment-commit_packet chain packet = refl

module _ (chain : Chain) (clients : LightClients) where
  -- A packet that sendPacket accepts has the channel's next sequence, which goes up by one, modulo 2 ^ 64; the host then has, as
  -- its commitment for the source port, channel and sequence, what commitPacket of the relayer computes of the packet.
  pub send_packet-commit_packet :
      (s u : Store) (packet : Packet)
      → send_packet chain clients s (packet_to_call_data packet) ≡ ok u
      → (packet.sequence ≡ s.next_sequence_sends packet.source_port packet.source_channel)
        × (u.next_sequence_sends packet.source_port packet.source_channel
            ≡ (packet.sequence + 1) % 2 ^ 64)
        × ((get_packet_commitment chain u packet.source_port packet.source_channel
              packet.sequence).0
            ≡ commit_packet chain.sha256 packet)
  unfolding send_packet get_packet_commitment set_packet_commitment set_next_sequence_send
      packet_to_call_data
  send_packet-commit_packet s u packet h =
      let port = packet.source_port in
      let channel = packet.source_channel in
      let key = packet_commitment_key chain port channel packet.sequence in
      let (_, _, h1) = >>=-eq_ok (send_check chain clients s (packet_to_call_data packet)) _ h in
      let (same, s1, first, second) =
        send_sequence-ok chain clients s u (packet_to_call_data packet) h1 in
      let e1 = only_ibc_module-ok chain s _ s1 first in
      let e2 = only_ibc_module-ok chain s1 _ u second in
      (
        same,
        sym (ap (λ t. t.next_sequence_sends port channel) e2)
            ∙ sym (ap (λ t. t.next_sequence_sends port channel) e1)
            ∙ put2-same s.next_sequence_sends port channel _
            ∙ ap (λ n. (n + 1) % 2 ^ 64) (sym same),
        sym (ap (λ t. t.commitments key) e2)
            ∙ put-same s1.commitments key _
            ∙ make_packet_commitment-commit_packet chain packet,
      )
