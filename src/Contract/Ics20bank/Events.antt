-- ===== src/Contract/Ics20bank/Events.antt =====
-- pkg/contract/ics20bank/ics20bank.go: the events.
use yui_ibc_solidity.Prelude.{ℕ, Bytes, List, [], ◌∷◌, Option, Bool, codes}
use yui_ibc_solidity.Prelude.Try.{Try}
use yui_ibc_solidity.Contract.Bound.{Basic}
use yui_ibc_solidity.Contract.Iterator as Iter
use yui_ibc_solidity.Contract.Iterator.{Iterator, Stream, Raised, Filterer, Unpacker, rule, parse}
use yui_ibc_solidity.Contract.Watch as WatchLoop
use yui_ibc_solidity.Contract.Watch.{Signal, Watched}

pub record RoleAdminChanged : Type 0 where
  pub role : Bytes
  pub previous_admin_role : Bytes
  pub new_admin_role : Bytes

pub record RoleGranted : Type 0 where
  pub role : Bytes
  pub account : ℕ
  pub sender : ℕ

pub record RoleRevoked : Type 0 where
  pub role : Bytes
  pub account : ℕ
  pub sender : ℕ

module _ {E Value FilterOpts WatchOpts Log : Type 0} (basic : Basic Value)
    (contract : Filterer E Value FilterOpts WatchOpts Log) where
  unfoldable pub filter_role_admin_changed :
      FilterOpts
      → List Bytes
      → List Bytes
      → List Bytes
      → Try E (Iterator RoleAdminChanged Log E × Stream Log E)
  filter_role_admin_changed opts role previous_admin_role new_admin_role =
      Iter.filter contract (codes "RoleAdminChanged") opts (
        rule basic.bytes32 role
        ∷ rule basic.bytes32 previous_admin_role
        ∷ rule basic.bytes32 new_admin_role
        ∷ [])

  unfoldable pub watch_role_admin_changed :
      Unpacker E Log RoleAdminChanged
      → WatchOpts
      → List Bytes
      → List Bytes
      → List Bytes
      → List (Signal Log E)
      → Try E (Watched RoleAdminChanged Log E)
  watch_role_admin_changed unpack opts role previous_admin_role new_admin_role signals =
      WatchLoop.watch contract unpack (codes "RoleAdminChanged") opts
        (rule basic.bytes32 role
          ∷ rule basic.bytes32 previous_admin_role
          ∷ rule basic.bytes32 new_admin_role
          ∷ [])
        signals

  unfoldable pub parse_role_admin_changed :
      Unpacker E Log RoleAdminChanged → Log → Try E (Raised RoleAdminChanged Log)
  parse_role_admin_changed unpack log = parse unpack (codes "RoleAdminChanged") log

  unfoldable pub next_role_admin_changed :
      Unpacker E Log RoleAdminChanged
      → Bool
      → Iterator RoleAdminChanged Log E
      → Stream Log E
      → Option (Bool × Iterator RoleAdminChanged Log E × Stream Log E)
  next_role_admin_changed = Iter.next

  unfoldable pub filter_role_granted :
      FilterOpts → List Bytes → List ℕ → List ℕ → Try E (Iterator RoleGranted Log E × Stream Log E)
  filter_role_granted opts role account sender =
      Iter.filter contract (codes "RoleGranted") opts
        (rule basic.bytes32 role ∷ rule basic.address account ∷ rule basic.address sender ∷ [])

  unfoldable pub watch_role_granted :
      Unpacker E Log RoleGranted
      → WatchOpts
      → List Bytes
      → List ℕ
      → List ℕ
      → List (Signal Log E)
      → Try E (Watched RoleGranted Log E)
  watch_role_granted unpack opts role account sender signals =
      WatchLoop.watch contract unpack (codes "RoleGranted") opts
        (rule basic.bytes32 role ∷ rule basic.address account ∷ rule basic.address sender ∷ [])
        signals

  unfoldable pub parse_role_granted :
      Unpacker E Log RoleGranted → Log → Try E (Raised RoleGranted Log)
  parse_role_granted unpack log = parse unpack (codes "RoleGranted") log

  unfoldable pub next_role_granted :
      Unpacker E Log RoleGranted
      → Bool
      → Iterator RoleGranted Log E
      → Stream Log E
      → Option (Bool × Iterator RoleGranted Log E × Stream Log E)
  next_role_granted = Iter.next

  unfoldable pub filter_role_revoked :
      FilterOpts → List Bytes → List ℕ → List ℕ → Try E (Iterator RoleRevoked Log E × Stream Log E)
  filter_role_revoked opts role account sender =
      Iter.filter contract (codes "RoleRevoked") opts
        (rule basic.bytes32 role ∷ rule basic.address account ∷ rule basic.address sender ∷ [])

  unfoldable pub watch_role_revoked :
      Unpacker E Log RoleRevoked
      → WatchOpts
      → List Bytes
      → List ℕ
      → List ℕ
      → List (Signal Log E)
      → Try E (Watched RoleRevoked Log E)
  watch_role_revoked unpack opts role account sender signals =
      WatchLoop.watch contract unpack (codes "RoleRevoked") opts
        (rule basic.bytes32 role ∷ rule basic.address account ∷ rule basic.address sender ∷ [])
        signals

  unfoldable pub parse_role_revoked :
      Unpacker E Log RoleRevoked → Log → Try E (Raised RoleRevoked Log)
  parse_role_revoked unpack log = parse unpack (codes "RoleRevoked") log

  unfoldable pub next_role_revoked :
      Unpacker E Log RoleRevoked
      → Bool
      → Iterator RoleRevoked Log E
      → Stream Log E
      → Option (Bool × Iterator RoleRevoked Log E × Stream Log E)
  next_role_revoked = Iter.next
