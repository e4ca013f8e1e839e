-- ===== src/Contract/Simpletoken/Events.antt =====
-- pkg/contract/simpletoken/simpletoken.go: the events.
use yui_ibc_solidity.Prelude.{ℕ, List, [], ◌∷◌, Option, Bool, codes}
use yui_ibc_solidity.Prelude.Try.{Try}
use yui_ibc_solidity.Contract.Bound.{Basic}
use yui_ibc_solidity.Contract.Iterator as Iter
use yui_ibc_solidity.Contract.Iterator.{Iterator, Stream, Raised, Filterer, Unpacker, rule, parse}
use yui_ibc_solidity.Contract.Watch as WatchLoop
use yui_ibc_solidity.Contract.Watch.{Signal, Watched}

pub record Approval : Type 0 where
  pub owner : ℕ
  pub spender : ℕ
  pub value : ℕ

pub record Transfer : Type 0 where
  pub from : ℕ
  pub to : ℕ
  pub value : ℕ

module _ {E Value FilterOpts WatchOpts Log : Type 0} (basic : Basic Value)
    (contract : Filterer E Value FilterOpts WatchOpts Log) where
  unfoldable pub filter_approval :
      FilterOpts → List ℕ → List ℕ → Try E (Iterator Approval Log E × Stream Log E)
  filter_approval opts owner spender =
      Iter.filter contract (codes "Approval") opts
        (rule basic.address owner ∷ rule basic.address spender ∷ [])

  unfoldable pub watch_approval :
      Unpacker E Log Approval
      → WatchOpts
      → List ℕ
      → List ℕ
      → List (Signal Log E)
      → Try E (Watched Approval Log E)
  watch_approval unpack opts owner spender signals =
      WatchLoop.watch contract unpack (codes "Approval") opts
        (rule basic.address owner ∷ rule basic.address spender ∷ []) signals

  unfoldable pub parse_approval : Unpacker E Log Approval → Log → Try E (Raised Approval Log)
  parse_approval unpack log = parse unpack (codes "Approval") log

  unfoldable pub next_approval :
      Unpacker E Log Approval
      → Bool
      → Iterator Approval Log E
      → Stream Log E
      → Option (Bool × Iterator Approval Log E × Stream Log E)
  next_approval = Iter.next

  unfoldable pub filter_transfer :
      FilterOpts → List ℕ → List ℕ → Try E (Iterator Transfer Log E × Stream Log E)
  filter_transfer opts from to =
      Iter.filter contract (codes "Transfer") opts
        (rule basic.address from ∷ rule basic.address to ∷ [])

  unfoldable pub watch_transfer :
      Unpacker E Log Transfer
      → WatchOpts
      → List ℕ
      → List ℕ
      → List (Signal Log E)
      → Try E (Watched Transfer Log E)
  watch_transfer unpack opts from to signals =
      WatchLoop.watch contract unpack (codes "Transfer") opts
        (rule basic.address from ∷ rule basic.address to ∷ []) signals

  unfoldable pub parse_transfer : Unpacker E Log Transfer → Log → Try E (Raised Transfer Log)
  parse_transfer unpack log = parse unpack (codes "Transfer") log

  unfoldable pub next_transfer :
      Unpacker E Log Transfer
      → Bool
      → Iterator Transfer Log E
      → Stream Log E
      → Option (Bool × Iterator Transfer Log E × Stream Log E)
  next_transfer = Iter.next
