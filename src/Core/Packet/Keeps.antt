-- ===== src/Core/Packet/Keeps.antt =====
-- contracts/core: no packet handler takes back a receipt or sets an acknowledgement sequence to zero.
use yui_ibc_solidity.Prelude.{ℕ, ◌+◌, ◌%◌, ◌^◌, ◌≡◌, inl, inr, Bytes, codes, ltb, ◌==◌}
use yui_ibc_solidity.Prelude.Try.{ok, ◌>>=◌, >>=-eq_ok}
use yui_ibc_solidity.Contract.Ibchandler.Structs.{PacketData}
use yui_ibc_solidity.Core.Store.{Store, Chain, require}
use yui_ibc_solidity.Core.Host.{
  set_next_sequence_send, set_next_sequence_recv, set_next_sequence_ack, set_packet_commitment,
  delete_packet_commitment, set_packet_acknowledgement_commitment, set_packet_receipt,
  get_next_sequence_ack, get_next_sequence_send, get_channel,
}
use yui_ibc_solidity.Core.Clients.{LightClients}
use yui_ibc_solidity.Core.Packet.{
  order_unordered, order_ordered, not_next, MsgPacketRecv, MsgPacketAcknowledgement,
}
use yui_ibc_solidity.Core.Packet.Send.{send_check, send_sequence, send_packet}
use yui_ibc_solidity.Core.Packet.Receive.{
  recv_check, receive_unordered, receive_ordered, recv_write, recv_packet,
}
use yui_ibc_solidity.Core.Packet.Acknowledge.{
  write_check, write_acknowledgement, acknowledge_check, acknowledge_ordered, acknowledge_sequence,
  acknowledge_packet,
}
use yui_ibc_solidity.Core.Packet.Steps.{
  ok-injective, require-ok, err-not_ok, if-ok, Keeps, Keeps-trans, Keeps-eq, equal, unchanged,
  receipt-Keeps, ack-Keeps, written-Keeps, after_zero, channel_of,
}

module _ (chain : Chain) (clients : LightClients) where
  -- What sending writes: the packet has the next sequence, which goes up by one, and its commitment is stored.
  pub send_sequence-ok :
      (s u : Store) (packet : PacketData)
      → send_sequence chain clients s packet ≡ ok u
      → (packet.sequence ≡ s.next_sequence_sends packet.source_port packet.source_channel)
        × (s1 : Store) × (set_next_sequence_send chain s packet.source_port packet.source_channel
              ((s.next_sequence_sends packet.source_port packet.source_channel + 1) % 2 ^ 64)
            ≡ ok s1)
        × (set_packet_commitment chain s1 packet.source_port packet.source_channel packet.sequence
              packet
            ≡ ok u)
  unfolding send_sequence get_next_sequence_send
  send_sequence-ok s u packet h =
      let next = s.next_sequence_sends packet.source_port packet.source_channel in
      let set =
        set_next_sequence_send chain s packet.source_port packet.source_channel
          ((next + 1) % 2 ^ 64) in
      let store = set >>= λ s1.
      set_packet_commitment chain s1 packet.source_port packet.source_channel packet.sequence
        packet in
      let checked =
        require (packet.sequence == next) (not_next "next send sequence") >>= λ _. store in
      let (_, rest) = require-ok (ltb 0 next) (codes "sequenceSend not found") checked u h in
      let (same, writes) =
        require-ok (packet.sequence == next) (not_next "next send sequence") store u rest in
      let (s1, first, second) = >>=-eq_ok set _ writes in
      (equal packet.sequence next same, s1, first, second)

  pub send_packet-Keeps :
      (s u : Store) (packet : PacketData) → send_packet chain clients s packet ≡ ok u → Keeps s u
  unfolding send_packet set_next_sequence_send set_packet_commitment
  send_packet-Keeps s u packet h =
      let (_, _, h1) = >>=-eq_ok (send_check chain clients s packet) _ h in
      let (_, s1, first, second) = send_sequence-ok s u packet h1 in
      Keeps-trans s s1 u (written-Keeps chain s _ s1 (unchanged s) first)
        (written-Keeps chain s1 _ u (unchanged s1) second)

  receive_unordered-Keeps :
      (s u : Store) (packet : PacketData)
      → receive_unordered chain clients s packet ≡ ok u
      → Keeps s u
  unfolding receive_unordered set_packet_receipt
  receive_unordered-Keeps s u packet h =
      let (fresh, write) = require-ok _ _ _ u h in
      written-Keeps chain s _ u (receipt-Keeps s _ _ _) write

  receive_ordered-Keeps :
      (s u : Store) (packet : PacketData)
      → receive_ordered chain clients s packet ≡ ok u
      → Keeps s u
  unfolding receive_ordered set_next_sequence_recv
  receive_ordered-Keeps s u packet h =
      let (fresh, write) = require-ok _ _ _ u h in written-Keeps chain s _ u (unchanged s) write

  recv_write-Keeps :
      (s u : Store) (packet : PacketData) (ordering : ℕ)
      → recv_write chain clients s packet ordering ≡ ok u
      → Keeps s u
  unfolding recv_write
  recv_write-Keeps s u packet ordering h = elim (if-ok (ordering == order_unordered) _ _ u h) [
    | inl unordered ↦ receive_unordered-Keeps s u packet unordered.1
    | inr rest ↦ elim (if-ok (ordering == order_ordered) _ _ u rest.1) [
      | inl ordered ↦ receive_ordered-Keeps s u packet ordered.1
      | inr unknown ↦ absurd (err-not_ok _ u unknown.1)
    ]
  ]

  pub recv_packet-Keeps :
      (s u : Store) (msg : MsgPacketRecv) → recv_packet chain clients s msg ≡ ok u → Keeps s u
  unfolding recv_packet get_channel
  recv_packet-Keeps s u msg h =
      let (_, _, write) = >>=-eq_ok (recv_check chain clients s msg) _ h in
      recv_write-Keeps s u msg.packet
        (s.channels msg.packet.destination_port msg.packet.destination_channel).ordering write

  pub write_acknowledgement-Keeps :
      (s u : Store) (port channel : Bytes) (n : ℕ) (acknowledgement : Bytes)
      → write_acknowledgement chain clients s port channel n acknowledgement ≡ ok u
      → Keeps s u
  unfolding write_acknowledgement set_packet_acknowledgement_commitment
  write_acknowledgement-Keeps s u port channel n acknowledgement h =
      let (_, _, write) =
        >>=-eq_ok (write_check chain clients s port channel n acknowledgement) _ h in
      written-Keeps chain s _ u (unchanged s) write

  pub acknowledge_ordered-ok :
      (s u : Store) (packet : PacketData)
      → acknowledge_ordered chain clients s packet ≡ ok u
      → (s.next_sequence_acks packet.source_port packet.source_channel ≡ 0)
        × (set_next_sequence_ack chain s packet.source_port packet.source_channel
              ((s.next_sequence_acks packet.source_port packet.source_channel + 1) % 2 ^ 64)
            ≡ ok u)
  unfolding acknowledge_ordered get_next_sequence_ack
  acknowledge_ordered-ok s u packet h =
      let next = s.next_sequence_acks packet.source_port packet.source_channel in
      let set =
        set_next_sequence_ack chain s packet.source_port packet.source_channel
          ((next + 1) % 2 ^ 64) in
      let checked = require (packet.sequence == next) (not_next "next ack sequence") >>= λ _. set in
      let (is_zero, rest) = require-ok (next == 0) (codes "sequence ack not found") checked u h in
      let (_, write) =
        require-ok (packet.sequence == next) (not_next "next ack sequence") set u rest in
      (equal next 0 is_zero, write)

  acknowledge_ordered-Keeps :
      (s u : Store) (packet : PacketData)
      → acknowledge_ordered chain clients s packet ≡ ok u
      → Keeps s u
  unfolding set_next_sequence_ack
  acknowledge_ordered-Keeps s u packet h =
      let (none_yet, write) = acknowledge_ordered-ok s u packet h in
      written-Keeps chain s _ u
        (ack-Keeps s packet.source_port packet.source_channel _ (after_zero _ none_yet)) write

  acknowledge_sequence-Keeps :
      (s u : Store) (packet : PacketData) (ordering : ℕ)
      → acknowledge_sequence chain clients s packet ordering ≡ ok u
      → Keeps s u
  unfolding acknowledge_sequence
  acknowledge_sequence-Keeps s u packet ordering h =
      elim (if-ok (ordering == order_ordered) _ _ u h) [
        | inl ordered ↦ acknowledge_ordered-Keeps s u packet ordered.1
        | inr same ↦ Keeps-eq s s u (unchanged s) (ok-injective s u same.1)
      ]

  pub acknowledge_packet-Keeps :
      (s u : Store) (msg : MsgPacketAcknowledgement)
      → acknowledge_packet chain clients s msg ≡ ok u
      → Keeps s u
  unfolding acknowledge_packet delete_packet_commitment get_channel
  acknowledge_packet-Keeps s u msg h =
      let (_, _, h1) = >>=-eq_ok (acknowledge_check chain clients s msg) _ h in
      let (s1, first, second) =
        >>=-eq_ok
          (acknowledge_sequence chain clients s msg.packet (channel_of s msg.packet).ordering) _
          h1 in
      Keeps-trans s s1 u (acknowledge_sequence-Keeps s s1 msg.packet _ first)
        (written-Keeps chain s1 _ u (unchanged s1) second)
