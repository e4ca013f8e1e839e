-- ===== src/Core/Once.antt =====
-- contracts/core: a packet is received once and acknowledged once, and no acknowledgement passes on an ordered channel.
use yui_ibc_solidity.Prelude.{
  ℕ, ◌≡◌, ◌≢◌, inl, inr, refl, sym, ap, ◌∙◌, arith, Bytes, Bool, true, false, not, ◌==◌,
  if◌then◌else◌, same_string,
}
use yui_ibc_solidity.Prelude.Try.{ok, >>=-eq_ok}
use yui_ibc_solidity.Contract.Ibchandler.Structs.{PacketData}
use yui_ibc_solidity.Core.Store.{Store, Chain, put-same, put2-same}
use yui_ibc_solidity.Core.Host.{
  has_packet_receipt, set_packet_receipt, get_channel, get_next_sequence_ack, zero_word,
  packet_commitment_key, get_packet_commitment, delete_packet_commitment,
}
use yui_ibc_solidity.Core.Clients.{LightClients}
use yui_ibc_solidity.Core.Packet.{
  order_unordered, order_ordered, MsgPacketRecv, MsgPacketAcknowledgement,
}
use yui_ibc_solidity.Core.Packet.Receive.{recv_check, receive_unordered, recv_write, recv_packet}
use yui_ibc_solidity.Core.Packet.Acknowledge.{
  acknowledge_connection, commitment_check, acknowledge_check, acknowledge_ordered,
  acknowledge_sequence, acknowledge_packet,
}
use yui_ibc_solidity.Core.Packet.Steps.{only_ibc_module-ok, require-ok, if-ok}
use yui_ibc_solidity.Core.Packet.Keeps.{acknowledge_ordered-ok}
use yui_ibc_solidity.Core.Run.{Reach, Reach-Keeps, Opens, Opens-IsOpened}

-- The packet's destination and number, and its source and number, of two packets.
abbrev pub SameDestination : PacketData → PacketData → Type 0
SameDestination p q =
    (p.destination_port ≡ q.destination_port)
    × (p.destination_channel ≡ q.destination_channel)
    × (p.sequence ≡ q.sequence)

abbrev pub ordering_at : Store → Bytes → Bytes → ℕ
ordering_at s port channel = (s.channels port channel).ordering

is_false : (b : Bool) → not b ≡ true → b ≡ false
is_false true h = cc
is_false false h = refl

chosen_self : (n : ℕ) (b : Bool) → (if n == n then true else b) ≡ true
chosen_self n b = ground arith

not_both : (b : Bool) → b ≡ true → b ≡ false → ⊥
not_both b h k = cc

is_order : (m n : ℕ) → m ≡ n → (m == n) ≡ true
is_order m n h = ground arith

ap_at :
    {A : Type 0} (f : Bytes → Bytes → A) {p q : Bytes} {c d : Bytes} → p ≡ q → c ≡ d → f p c ≡ f q d
ap_at f {p} {q} {c} {d} e1 e2 = ap (λ x. f x c) e1 ∙ ap (f q) e2

ap_packet :
    {A : Type 0} (f : Bytes → Bytes → ℕ → A) {p q : Bytes} {c d : Bytes} {m n : ℕ}
    → (p ≡ q) × (c ≡ d) × (m ≡ n)
    → f p c m ≡ f q d n
ap_packet f {m = m} {n = n} e = ap (λ g. g m) (ap_at f e.0 e.1) ∙ ap (f _ _) e.2

module _ (chain : Chain) (clients : LightClients) where
  -- On an unordered channel, a receipt was not there before and is there afterwards.
  receive_unordered-receipt :
      (s u : Store) (packet : PacketData)
      → receive_unordered chain clients s packet ≡ ok u
      → (s.packet_receipts packet.destination_port packet.destination_channel packet.sequence
          ≡ false)
        × (u.packet_receipts packet.destination_port packet.destination_channel packet.sequence
            ≡ true)
  unfolding receive_unordered has_packet_receipt set_packet_receipt
  receive_unordered-receipt s u packet h =
      let port = packet.destination_port in
      let channel = packet.destination_channel in
      let (fresh, write) =
        require-ok _ _ (set_packet_receipt chain s port channel packet.sequence) u h in
      let e = only_ibc_module-ok chain s _ u write in
      (
        is_false _ fresh,
        sym (ap (λ t. t.packet_receipts port channel packet.sequence) e)
            ∙ ap (λ f. f packet.sequence) (put2-same s.packet_receipts port channel _)
            ∙ chosen_self packet.sequence _,
      )

  pub recv_packet-receipt :
      (s u : Store) (msg : MsgPacketRecv)
      → recv_packet chain clients s msg ≡ ok u
      → ordering_at s msg.packet.destination_port msg.packet.destination_channel ≡ order_unordered
      → (s.packet_receipts msg.packet.destination_port msg.packet.destination_channel
            msg.packet.sequence
          ≡ false)
        × (u.packet_receipts msg.packet.destination_port msg.packet.destination_channel
              msg.packet.sequence
            ≡ true)
  unfolding recv_packet recv_write get_channel
  recv_packet-receipt s u msg h order =
      let ordering = ordering_at s msg.packet.destination_port msg.packet.destination_channel in
      let (_, _, write) = >>=-eq_ok (recv_check chain clients s msg) _ h in
      elim (if-ok (ordering == order_unordered) _ _ u write) [
        | inl unordered ↦ receive_unordered-receipt s u msg.packet unordered.1
        | inr other ↦ absurd (not_both _ (is_order ordering order_unordered order) other.0)
      ]

  -- On an ordered channel whose next acknowledgement sequence is not zero, an acknowledgement reverts.
  acknowledge_packet-reverts :
      (s u : Store) (msg : MsgPacketAcknowledgement)
      → ordering_at s msg.packet.source_port msg.packet.source_channel ≡ order_ordered
      → s.next_sequence_acks msg.packet.source_port msg.packet.source_channel ≢ 0
      → acknowledge_packet chain clients s msg ≢ ok u
  unfolding acknowledge_packet acknowledge_sequence acknowledge_ordered get_channel
      get_next_sequence_ack
  acknowledge_packet-reverts s u msg order nonzero h =
      let ordering = ordering_at s msg.packet.source_port msg.packet.source_channel in
      let (_, _, h1) = >>=-eq_ok (acknowledge_check chain clients s msg) _ h in
      let (t, sequence, _) =
        >>=-eq_ok (acknowledge_sequence chain clients s msg.packet ordering) _ h1 in
      elim (if-ok (ordering == order_ordered) _ _ t sequence) [
        | inl ordered ↦ nonzero (acknowledge_ordered-ok chain clients s t msg.packet ordered.1).0
        | inr other ↦ not_both _ (is_order ordering order_ordered order) other.0
      ]

  -- An acknowledged packet's commitment is gone.
  acknowledge_packet-deleted :
      (s u : Store) (msg : MsgPacketAcknowledgement)
      → acknowledge_packet chain clients s msg ≡ ok u
      → (get_packet_commitment chain u msg.packet.source_port msg.packet.source_channel
          msg.packet.sequence).1
        ≡ false
  unfolding acknowledge_packet get_channel delete_packet_commitment get_packet_commitment
  acknowledge_packet-deleted s u msg h =
      let ordering = ordering_at s msg.packet.source_port msg.packet.source_channel in
      let key =
        packet_commitment_key chain msg.packet.source_port msg.packet.source_channel
          msg.packet.sequence in
      let (_, _, h1) = >>=-eq_ok (acknowledge_check chain clients s msg) _ h in
      let (t, _, delete) =
        >>=-eq_ok (acknowledge_sequence chain clients s msg.packet ordering) _ h1 in
      let e = only_ibc_module-ok chain t _ u delete in
      ap (λ w. not (same_string w zero_word))
        (sym (ap (λ v. v.commitments key) e) ∙ put-same t.commitments key zero_word)

  acknowledge_packet-found :
      (s u : Store) (msg : MsgPacketAcknowledgement)
      → acknowledge_packet chain clients s msg ≡ ok u
      → (get_packet_commitment chain s msg.packet.source_port msg.packet.source_channel
          msg.packet.sequence).1
        ≡ true
  unfolding acknowledge_packet acknowledge_check commitment_check
  acknowledge_packet-found s u msg h =
      let (_, checked, _) = >>=-eq_ok (acknowledge_check chain clients s msg) _ h in
      let (connection, _, rest) =
        >>=-eq_ok (acknowledge_connection chain clients s msg.packet) _ checked in
      let (_, found, _) = >>=-eq_ok (commitment_check chain clients s msg.packet) _ rest in
      (require-ok _ _ _ _ found).0

-- The source and number of a packet.
abbrev pub SameSource : PacketData → PacketData → Type 0
SameSource p q =
    (p.source_port ≡ q.source_port)
    × (p.source_channel ≡ q.source_channel)
    × (p.sequence ≡ q.sequence)

module _ (clients : LightClients) where
  -- A packet that was received on an unordered channel is never received there again: after any calls of the channel and packet
  -- handlers, whoever makes them and at whatever block, recvPacket of a packet to the same port and channel with the same
  -- sequence reverts while the channel is unordered.
  pub recv_packet-once :
      (chain chain' : Chain) (s t u v : Store) (msg msg' : MsgPacketRecv)
      → recv_packet chain clients s msg ≡ ok t
      → ordering_at s msg.packet.destination_port msg.packet.destination_channel ≡ order_unordered
      → Reach clients t u
      → SameDestination msg.packet msg'.packet
      → ordering_at u msg'.packet.destination_port msg'.packet.destination_channel ≡ order_unordered
      → recv_packet chain' clients u msg' ≢ ok v
  recv_packet-once chain chain' s t u v msg msg' first order reach same order' second =
      let received = (recv_packet-receipt chain clients s t msg first order).1 in
      let kept = (Reach-Keeps clients reach).0 _ _ _ received in
      let fresh = (recv_packet-receipt chain' clients u v msg' second order').0 in
      not_both _ (sym (ap_packet u.packet_receipts same) ∙ kept) fresh

  -- On an ordered channel no packet is ever acknowledged: once channelOpenInit or channelOpenTry has opened it, acknowledgePacket
  -- of a packet sent on it reverts, after any calls of the channel and packet handlers.
  pub acknowledge_packet-ordered :
      (chain : Chain) (s t u v : Store) (port id : Bytes) (msg : MsgPacketAcknowledgement)
      → Opens clients s port id t
      → Reach clients t u
      → (msg.packet.source_port ≡ port) × (msg.packet.source_channel ≡ id)
      → ordering_at u msg.packet.source_port msg.packet.source_channel ≡ order_ordered
      → acknowledge_packet chain clients u msg ≢ ok v
  acknowledge_packet-ordered chain s t u v port id msg opened reach at order =
      let kept = (Reach-Keeps clients reach).1 port id (Opens-IsOpened clients opened).1 in
      acknowledge_packet-reverts chain clients u v msg order
        (λ z. kept (sym (ap_at u.next_sequence_acks at.0 at.1) ∙ z))

  -- An acknowledgement that has passed does not pass again: acknowledgePacket of a packet with the same source port, channel
  -- and sequence reverts in the store that it left.
  pub acknowledge_packet-once :
      (chain : Chain) (s t u : Store) (msg msg' : MsgPacketAcknowledgement)
      → acknowledge_packet chain clients s msg ≡ ok t
      → SameSource msg.packet msg'.packet
      → acknowledge_packet chain clients t msg' ≢ ok u
  acknowledge_packet-once chain s t u msg msg' first same second =
      let found = acknowledge_packet-found chain clients t u msg' second in
      let gone = acknowledge_packet-deleted chain clients s t msg first in
      not_both _ found
        (sym (ap_packet (λ p c n. (get_packet_commitment chain t p c n).1) same) ∙ gone)
