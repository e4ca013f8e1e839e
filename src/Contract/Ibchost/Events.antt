-- ===== src/Contract/Ibchost/Events.antt =====
-- pkg/contract/ibchost/ibchost.go: the events.
use yui_ibc_solidity.Prelude.{Bytes, List, [], Option, Bool, codes}
use yui_ibc_solidity.Prelude.Try.{Try}
use yui_ibc_solidity.Contract.Bound.{Basic}
use yui_ibc_solidity.Contract.Iterator as Iter
use yui_ibc_solidity.Contract.Iterator.{Iterator, Stream, Raised, Filterer, Unpacker, rule, parse}
use yui_ibc_solidity.Contract.Watch as WatchLoop
use yui_ibc_solidity.Contract.Watch.{Signal, Watched}

pub record GeneratedChannelIdentifier : Type 0 where
  pub arg0 : Bytes

pub record GeneratedClientIdentifier : Type 0 where
  pub arg0 : Bytes

pub record GeneratedConnectionIdentifier : Type 0 where
  pub arg0 : Bytes

module _ {E Value FilterOpts WatchOpts Log : Type 0} (basic : Basic Value)
    (contract : Filterer E Value FilterOpts WatchOpts Log) where
  unfoldable pub filter_generated_channel_identifier :
      FilterOpts → Try E (Iterator GeneratedChannelIdentifier Log E × Stream Log E)
  filter_generated_channel_identifier opts =
      Iter.filter contract (codes "GeneratedChannelIdentifier") opts []

  unfoldable pub watch_generated_channel_identifier :
      Unpacker E Log GeneratedChannelIdentifier
      → WatchOpts
      → List (Signal Log E)
      → Try E (Watched GeneratedChannelIdentifier Log E)
  watch_generated_channel_identifier unpack opts signals =
      WatchLoop.watch contract unpack (codes "GeneratedChannelIdentifier") opts [] signals

  unfoldable pub parse_generated_channel_identifier :
      Unpacker E Log GeneratedChannelIdentifier
      → Log
      → Try E (Raised GeneratedChannelIdentifier Log)
  parse_generated_channel_identifier unpack log =
      parse unpack (codes "GeneratedChannelIdentifier") log

  unfoldable pub next_generated_channel_identifier :
      Unpacker E Log GeneratedChannelIdentifier
      → Bool
      → Iterator GeneratedChannelIdentifier Log E
      → Stream Log E
      → Option (Bool × Iterator GeneratedChannelIdentifier Log E × Stream Log E)
  next_generated_channel_identifier = Iter.next

  unfoldable pub filter_generated_client_identifier :
      FilterOpts → Try E (Iterator GeneratedClientIdentifier Log E × Stream Log E)
  filter_generated_client_identifier opts =
      Iter.filter contract (codes "GeneratedClientIdentifier") opts []

  unfoldable pub watch_generated_client_identifier :
      Unpacker E Log GeneratedClientIdentifier
      → WatchOpts
      → List (Signal Log E)
      → Try E (Watched GeneratedClientIdentifier Log E)
  watch_generated_client_identifier unpack opts signals =
      WatchLoop.watch contract unpack (codes "GeneratedClientIdentifier") opts [] signals

  unfoldable pub parse_generated_client_identifier :
      Unpacker E Log GeneratedClientIdentifier → Log → Try E (Raised GeneratedClientIdentifier Log)
  parse_generated_client_identifier unpack log =
      parse unpack (codes "GeneratedClientIdentifier") log

  unfoldable pub next_generated_client_identifier :
      Unpacker E Log GeneratedClientIdentifier
      → Bool
      → Iterator GeneratedClientIdentifier Log E
      → Stream Log E
      → Option (Bool × Iterator GeneratedClientIdentifier Log E × Stream Log E)
  next_generated_client_identifier = Iter.next

  unfoldable pub filter_generated_connection_identifier :
      FilterOpts → Try E (Iterator GeneratedConnectionIdentifier Log E × Stream Log E)
  filter_generated_connection_identifier opts =
      Iter.filter contract (codes "GeneratedConnectionIdentifier") opts []

  unfoldable pub watch_generated_connection_identifier :
      Unpacker E Log GeneratedConnectionIdentifier
      → WatchOpts
      → List (Signal Log E)
      → Try E (Watched GeneratedConnectionIdentifier Log E)
  watch_generated_connection_identifier unpack opts signals =
      WatchLoop.watch contract unpack (codes "GeneratedConnectionIdentifier") opts [] signals

  unfoldable pub parse_generated_connection_identifier :
      Unpacker E Log GeneratedConnectionIdentifier
      → Log
      → Try E (Raised GeneratedConnectionIdentifier Log)
  parse_generated_connection_identifier unpack log =
      parse unpack (codes "GeneratedConnectionIdentifier") log

  unfoldable pub next_generated_connection_identifier :
      Unpacker E Log GeneratedConnectionIdentifier
      → Bool
      → Iterator GeneratedConnectionIdentifier Log E
      → Stream Log E
      → Option (Bool × Iterator GeneratedConnectionIdentifier Log E × Stream Log E)
  next_generated_connection_identifier = Iter.next
