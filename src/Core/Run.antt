-- ===== src/Core/Run.antt =====
-- contracts/core: the stores that the channel and packet handlers reach from a store, each call at a chain of its own: its sender,
-- its block.
use yui_ibc_solidity.Prelude.{ℕ, ◌≡◌, ◌≢◌, sym, ap, subst, ◌∙◌, arith, Bytes}
use yui_ibc_solidity.Prelude.Try.{ok, >>=-eq_ok}
use yui_ibc_solidity.Contract.Ibchost.Structs.{ChannelData}
use yui_ibc_solidity.Contract.Ibchandler.Structs.{PacketData}
use yui_ibc_solidity.Core.Store.{Store, Chain, put2, put2-same}
use yui_ibc_solidity.Core.Host.{
  only_ibc_module, set_channel, set_next_sequence_send, set_next_sequence_recv,
  set_next_sequence_ack, uint2str, generate_channel_identifier,
}
use yui_ibc_solidity.Core.Clients.{LightClients}
use yui_ibc_solidity.Core.Channel.{
  MsgChannelOpenInit, MsgChannelOpenTry, MsgChannelOpenAck, MsgChannelOpenConfirm, start_channel,
  open_channel, open_init_check, open_try_check, open_ack_check, open_confirm_check,
  channel_open_init, channel_open_try, channel_open_ack, channel_open_confirm,
}
use yui_ibc_solidity.Core.Packet.{MsgPacketRecv, MsgPacketAcknowledgement}
use yui_ibc_solidity.Core.Packet.Send.{send_packet}
use yui_ibc_solidity.Core.Packet.Receive.{recv_packet}
use yui_ibc_solidity.Core.Packet.Acknowledge.{write_acknowledgement, acknowledge_packet}
use yui_ibc_solidity.Core.Packet.Steps.{
  Keeps, Keeps-trans, unchanged, written-Keeps, ack-Keeps, only_ibc_module-ok, ok-injective,
}
use yui_ibc_solidity.Core.Packet.Keeps.{
  send_packet-Keeps, recv_packet-Keeps, write_acknowledgement-Keeps, acknowledge_packet-Keeps,
}

-- A call of a handler that does not revert.
pub data Step (clients : LightClients) : Store → Store → Type 0 where
  open_init :
      {s t : Store} (chain : Chain) (msg : MsgChannelOpenInit) (id : Bytes)
      → channel_open_init chain clients s msg ≡ ok (id, t)
      → Step clients s t
  open_try :
      {s t : Store} (chain : Chain) (msg : MsgChannelOpenTry) (id : Bytes)
      → channel_open_try chain clients s msg ≡ ok (id, t)
      → Step clients s t
  open_ack :
      {s t : Store} (chain : Chain) (msg : MsgChannelOpenAck)
      → channel_open_ack chain clients s msg ≡ ok t
      → Step clients s t
  open_confirm :
      {s t : Store} (chain : Chain) (msg : MsgChannelOpenConfirm)
      → channel_open_confirm chain clients s msg ≡ ok t
      → Step clients s t
  send :
      {s t : Store} (chain : Chain) (packet : PacketData)
      → send_packet chain clients s packet ≡ ok t
      → Step clients s t
  receive :
      {s t : Store} (chain : Chain) (msg : MsgPacketRecv)
      → recv_packet chain clients s msg ≡ ok t
      → Step clients s t
  write :
      {s t : Store} (chain : Chain) (port channel : Bytes) (n : ℕ) (acknowledgement : Bytes)
      → write_acknowledgement chain clients s port channel n acknowledgement ≡ ok t
      → Step clients s t
  acknowledge :
      {s t : Store} (chain : Chain) (msg : MsgPacketAcknowledgement)
      → acknowledge_packet chain clients s msg ≡ ok t
      → Step clients s t

pub data Reach (clients : LightClients) (s : Store) : Store → Type 0 where
  here : Reach clients s s
  after : {t u : Store} → Reach clients s t → Step clients t u → Reach clients s u

-- The store after a channel is opened: its acknowledgement sequence is one.
abbrev pub IsOpened : Store → Bytes → Bytes → Store → Type 0
IsOpened s port id t = (kept : Keeps s t) × (t.next_sequence_acks port id ≢ 0)

set_acks :
    (chain : Chain) (s u : Store) (port id : Bytes)
    → set_next_sequence_ack chain s port id 1 ≡ ok u
    → IsOpened s port id u
unfolding set_next_sequence_ack
set_acks chain s u port id h =
    let e = only_ibc_module-ok chain s _ u h in
    let set : put2 s.next_sequence_acks port id 1 port id ≡ 1 =
      put2-same s.next_sequence_acks port id 1 in
    (
      written-Keeps chain s _ u (ack-Keeps s port id 1 (λ z. absurd (omega arith))) h,
      λ z.
          let same : 1 ≡ u.next_sequence_acks port id =
            sym set ∙ ap (λ t. t.next_sequence_acks port id) e in
          absurd (omega arith),
    )

module _ (chain : Chain) (clients : LightClients) where
  start_channel-IsOpened :
      (s u : Store) (port id : Bytes) (channel : ChannelData)
      → start_channel chain clients s port id channel ≡ ok u
      → IsOpened s port id u
  unfolding start_channel set_channel set_next_sequence_send set_next_sequence_recv
  start_channel-IsOpened s u port id channel h =
      let (s1, h1, r1) = >>=-eq_ok (set_channel chain s port id channel) _ h in
      let (s2, h2, r2) = >>=-eq_ok (set_next_sequence_send chain s1 port id 1) _ r1 in
      let (s3, h3, r3) = >>=-eq_ok (set_next_sequence_recv chain s2 port id 1) _ r2 in
      let last = set_acks chain s3 u port id r3 in
      let k1 = written-Keeps chain s _ s1 (unchanged s) h1 in
      let k2 = written-Keeps chain s1 _ s2 (unchanged s1) h2 in
      let k3 = written-Keeps chain s2 _ s3 (unchanged s2) h3 in
      (Keeps-trans s s1 u k1 (Keeps-trans s1 s2 u k2 (Keeps-trans s2 s3 u k3 last.0)), last.1)

  generate-Keeps :
      (s : Store) (p : Bytes × Store) → generate_channel_identifier chain s ≡ ok p → Keeps s p.1
  unfolding generate_channel_identifier
  generate-Keeps s p h =
      let (_, _, e) = >>=-eq_ok (only_ibc_module chain s) _ h in
      let (id, _, named) = >>=-eq_ok (uint2str s.next_channel_sequence) _ e in
      subst (λ t. Keeps s t) (ap (λ q. q.1) (ok-injective _ p named)) (unchanged s)

  open_channel-IsOpened :
      (s : Store) (port : Bytes) (channel : ChannelData) (id : Bytes) (u : Store)
      → open_channel chain clients s port channel ≡ ok (id, u)
      → IsOpened s port id u
  unfolding open_channel
  open_channel-IsOpened s port channel id u h =
      let (p, h0, r0) = >>=-eq_ok (generate_channel_identifier chain s) _ h in
      let (t, h1, r1) = >>=-eq_ok (start_channel chain clients p.1 port p.0 channel) _ r0 in
      let same = ok-injective (p.0, t) (id, u) r1 in
      let opened = start_channel-IsOpened p.1 t port p.0 channel h1 in
      let from_start : IsOpened s port p.0 t =
        (Keeps-trans s p.1 t (generate-Keeps s p h0) opened.0, opened.1) in
      subst (λ q. IsOpened s port q.0 q.1) same from_start

  channel_open_init-IsOpened :
      (s : Store) (msg : MsgChannelOpenInit) (id : Bytes) (u : Store)
      → channel_open_init chain clients s msg ≡ ok (id, u)
      → IsOpened s msg.port_id id u
  unfolding channel_open_init
  channel_open_init-IsOpened s msg id u h =
      let (_, _, opened) = >>=-eq_ok (open_init_check chain clients s msg) _ h in
      open_channel-IsOpened s msg.port_id msg.channel id u opened

  channel_open_try-IsOpened :
      (s : Store) (msg : MsgChannelOpenTry) (id : Bytes) (u : Store)
      → channel_open_try chain clients s msg ≡ ok (id, u)
      → IsOpened s msg.port_id id u
  unfolding channel_open_try
  channel_open_try-IsOpened s msg id u h =
      let (_, _, opened) = >>=-eq_ok (open_try_check chain clients s msg) _ h in
      open_channel-IsOpened s msg.port_id msg.channel id u opened

  set_channel-Keeps :
      (s u : Store) (port id : Bytes) (channel : ChannelData)
      → set_channel chain s port id channel ≡ ok u
      → Keeps s u
  unfolding set_channel
  set_channel-Keeps s u port id channel h = written-Keeps chain s _ u (unchanged s) h

  channel_open_ack-Keeps :
      (s u : Store) (msg : MsgChannelOpenAck)
      → channel_open_ack chain clients s msg ≡ ok u
      → Keeps s u
  unfolding channel_open_ack
  channel_open_ack-Keeps s u msg h =
      let (channel, _, written) = >>=-eq_ok (open_ack_check chain clients s msg) _ h in
      set_channel-Keeps s u msg.port_id msg.channel_id _ written

  channel_open_confirm-Keeps :
      (s u : Store) (msg : MsgChannelOpenConfirm)
      → channel_open_confirm chain clients s msg ≡ ok u
      → Keeps s u
  unfolding channel_open_confirm
  channel_open_confirm-Keeps s u msg h =
      let (channel, _, written) = >>=-eq_ok (open_confirm_check chain clients s msg) _ h in
      set_channel-Keeps s u msg.port_id msg.channel_id _ written

Step-Keeps : (clients : LightClients) {s t : Store} → Step clients s t → Keeps s t
Step-Keeps clients {s} {t} (open_init chain msg id h) =
    (channel_open_init-IsOpened chain clients s msg id t h).0
Step-Keeps clients {s} {t} (open_try chain msg id h) =
    (channel_open_try-IsOpened chain clients s msg id t h).0
Step-Keeps clients {s} {t} (open_ack chain msg h) = channel_open_ack-Keeps chain clients s t msg h
Step-Keeps clients {s} {t} (open_confirm chain msg h) =
    channel_open_confirm-Keeps chain clients s t msg h
Step-Keeps clients {s} {t} (send chain packet h) = send_packet-Keeps chain clients s t packet h
Step-Keeps clients {s} {t} (receive chain msg h) = recv_packet-Keeps chain clients s t msg h
Step-Keeps clients {s} {t} (write chain port channel n acknowledgement h) =
    write_acknowledgement-Keeps chain clients s t port channel n acknowledgement h
Step-Keeps clients {s} {t} (acknowledge chain msg h) =
    acknowledge_packet-Keeps chain clients s t msg h

pub Reach-Keeps : (clients : LightClients) {s t : Store} → Reach clients s t → Keeps s t
Reach-Keeps clients {s} here = unchanged s
Reach-Keeps clients {s} (after {t = t} {u = u} r st) =
    Keeps-trans s t u (Reach-Keeps clients r) (Step-Keeps clients st)

-- A channel is opened, by one chain or by the other, under a port and an identifier.
pub data Opens (clients : LightClients) (s : Store) : Bytes → Bytes → Store → Type 0 where
  by_init :
      {t : Store} (chain : Chain) (msg : MsgChannelOpenInit) (id : Bytes)
      → channel_open_init chain clients s msg ≡ ok (id, t)
      → Opens clients s msg.port_id id t
  by_try :
      {t : Store} (chain : Chain) (msg : MsgChannelOpenTry) (id : Bytes)
      → channel_open_try chain clients s msg ≡ ok (id, t)
      → Opens clients s msg.port_id id t

pub Opens-IsOpened :
    (clients : LightClients) {s : Store} {port id : Bytes} {t : Store}
    → Opens clients s port id t
    → IsOpened s port id t
Opens-IsOpened clients {s} {t = t} (by_init chain msg id h) =
    channel_open_init-IsOpened chain clients s msg id t h
Opens-IsOpened clients {s} {t = t} (by_try chain msg id h) =
    channel_open_try-IsOpened chain clients s msg id t h
