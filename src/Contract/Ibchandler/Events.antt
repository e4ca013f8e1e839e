-- ===== src/Contract/Ibchandler/Events.antt =====
-- pkg/contract/ibchandler/ibchandler.go: the events.
use yui_ibc_solidity.Prelude.{ℕ, Bytes, List, [], Option, Bool, codes}
use yui_ibc_solidity.Prelude.Try.{Try}
use yui_ibc_solidity.Contract.Bound.{Basic}
use yui_ibc_solidity.Contract.Iterator as Iter
use yui_ibc_solidity.Contract.Iterator.{Iterator, Stream, Raised, Filterer, Unpacker, rule, parse}
use yui_ibc_solidity.Contract.Watch as WatchLoop
use yui_ibc_solidity.Contract.Watch.{Signal, Watched}
use yui_ibc_solidity.Contract.Ibchandler.Structs.{PacketData}

pub record AcknowledgePacket : Type 0 where
  pub packet : PacketData
  pub acknowledgement : Bytes

pub record RecvPacket : Type 0 where
  pub packet : PacketData

pub record SendPacket : Type 0 where
  pub packet : PacketData

pub record WriteAcknowledgement : Type 0 where
  pub destination_port_id : Bytes
  pub destination_channel : Bytes
  pub sequence : ℕ
  pub acknowledgement : Bytes

module _ {E Value FilterOpts WatchOpts Log : Type 0} (basic : Basic Value)
    (contract : Filterer E Value FilterOpts WatchOpts Log) where
  unfoldable pub filter_acknowledge_packet :
      FilterOpts → Try E (Iterator AcknowledgePacket Log E × Stream Log E)
  filter_acknowledge_packet opts = Iter.filter contract (codes "AcknowledgePacket") opts []

  unfoldable pub watch_acknowledge_packet :
      Unpacker E Log AcknowledgePacket
      → WatchOpts
      → List (Signal Log E)
      → Try E (Watched AcknowledgePacket Log E)
  watch_acknowledge_packet unpack opts signals =
      WatchLoop.watch contract unpack (codes "AcknowledgePacket") opts [] signals

  unfoldable pub parse_acknowledge_packet :
      Unpacker E Log AcknowledgePacket → Log → Try E (Raised AcknowledgePacket Log)
  parse_acknowledge_packet unpack log = parse unpack (codes "AcknowledgePacket") log

  unfoldable pub next_acknowledge_packet :
      Unpacker E Log AcknowledgePacket
      → Bool
      → Iterator AcknowledgePacket Log E
      → Stream Log E
      → Option (Bool × Iterator AcknowledgePacket Log E × Stream Log E)
  next_acknowledge_packet = Iter.next

  unfoldable pub filter_recv_packet : FilterOpts → Try E (Iterator RecvPacket Log E × Stream Log E)
  filter_recv_packet opts = Iter.filter contract (codes "RecvPacket") opts []

  unfoldable pub watch_recv_packet :
      Unpacker E Log RecvPacket → WatchOpts → List (Signal Log E) → Try E (Watched RecvPacket Log E)
  watch_recv_packet unpack opts signals =
      WatchLoop.watch contract unpack (codes "RecvPacket") opts [] signals

  unfoldable pub parse_recv_packet : Unpacker E Log RecvPacket → Log → Try E (Raised RecvPacket Log)
  parse_recv_packet unpack log = parse unpack (codes "RecvPacket") log

  unfoldable pub next_recv_packet :
      Unpacker E Log RecvPacket
      → Bool
      → Iterator RecvPacket Log E
      → Stream Log E
      → Option (Bool × Iterator RecvPacket Log E × Stream Log E)
  next_recv_packet = Iter.next

  unfoldable pub filter_send_packet : FilterOpts → Try E (Iterator SendPacket Log E × Stream Log E)
  filter_send_packet opts = Iter.filter contract (codes "SendPacket") opts []

  unfoldable pub watch_send_packet :
      Unpacker E Log SendPacket → WatchOpts → List (Signal Log E) → Try E (Watched SendPacket Log E)
  watch_send_packet unpack opts signals =
      WatchLoop.watch contract unpack (codes "SendPacket") opts [] signals

  unfoldable pub parse_send_packet : Unpacker E Log SendPacket → Log → Try E (Raised SendPacket Log)
  parse_send_packet unpack log = parse unpack (codes "SendPacket") log

  unfoldable pub next_send_packet :
      Unpacker E Log SendPacket
      → Bool
      → Iterator SendPacket Log E
      → Stream Log E
      → Option (Bool × Iterator SendPacket Log E × Stream Log E)
  next_send_packet = Iter.next

  unfoldable pub filter_write_acknowledgement :
      FilterOpts → Try E (Iterator WriteAcknowledgement Log E × Stream Log E)
  filter_write_acknowledgement opts = Iter.filter contract (codes "WriteAcknowledgement") opts []

  unfoldable pub watch_write_acknowledgement :
      Unpacker E Log WriteAcknowledgement
      → WatchOpts
      → List (Signal Log E)
      → Try E (Watched WriteAcknowledgement Log E)
  watch_write_acknowledgement unpack opts signals =
      WatchLoop.watch contract unpack (codes "WriteAcknowledgement") opts [] signals

  unfoldable pub parse_write_acknowledgement :
      Unpacker E Log WriteAcknowledgement → Log → Try E (Raised WriteAcknowledgement Log)
  parse_write_acknowledgement unpack log = parse unpack (codes "WriteAcknowledgement") log

  unfoldable pub next_write_acknowledgement :
      Unpacker E Log WriteAcknowledgement
      → Bool
      → Iterator WriteAcknowledgement Log E
      → Stream Log E
      → Option (Bool × Iterator WriteAcknowledgement Log E × Stream Log E)
  next_write_acknowledgement = Iter.next
