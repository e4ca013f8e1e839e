-- ===== src/Contract/Watch.antt =====
-- pkg/contract: the loop of WatchX, from WatchSendPacket of pkg/contract/ibchandler/ibchandler.go; the other events differ in
-- their types only. What each select takes is a list of signals.
pub mod Sunk
use yui_ibc_solidity.Prelude.{ℕ, Bytes, List, [], ◌∷◌, Bool, true, false, Option, none, some}
use yui_ibc_solidity.Prelude.Try.{Try, ok, err, ◌>>=◌}
use yui_ibc_solidity.Contract.Iterator.{Unpacker, Raised, Filterer, parse}

-- What the inner select takes: the sink has the event, the subscription is over, or the user quits.
pub data Handover (E : Type 0) : Type 0 where
  accepted : Handover E
  over_meanwhile : Option E → Handover E
  quit_meanwhile : Handover E

-- What the outer select takes; a log with what becomes of its event.
pub data Signal (Log E : Type 0) : Type 0 where
  log : Log → Handover E → Signal Log E
  over : Option E → Signal Log E
  quit : Signal Log E

-- The events in the sink, and the loop's result when it has returned: nil or an error. The deferred `Unsubscribe` runs then.
pub record Watched (T Log E : Type 0) : Type 0 where
  pub sunk : List (Raised T Log)
  pub result : Option (Option E)

module _ {E Log T : Type 0} (unpack : Unpacker E Log T) (name : Bytes) where
  abbrev pub stop : Option E → Watched T Log E
  stop r = record { sunk = []; result = some r }

  abbrev pub sink : Raised T Log → Watched T Log E → Watched T Log E
  sink e w = record { sunk = e ∷ w.sunk; result = w.result }

  -- What follows `UnpackLog`: its error ends the loop, an event goes on to the inner select.
  unfoldable pub observed : Handover E → Watched T Log E → Try E (Raised T Log) → Watched T Log E
  observed h rest (err e) = stop (some e)
  observed accepted rest (ok event) = sink event rest
  observed (over_meanwhile r) rest (ok event) = stop r
  observed quit_meanwhile rest (ok event) = stop none

  unfoldable pub watch_loop : List (Signal Log E) → Watched T Log E
  unfolding parse observed
  watch_loop [] = record { sunk = []; result = none }
  watch_loop (over r ∷ signals) = stop r
  watch_loop (quit ∷ signals) = stop none
  watch_loop (log l h ∷ signals) =
      let rest = watch_loop signals in observed h rest (parse unpack name l)

unfoldable pub watch :
    {E Value FilterOpts WatchOpts Log T : Type 0}
    → Filterer E Value FilterOpts WatchOpts Log
    → Unpacker E Log T
    → Bytes
    → WatchOpts
    → List (List Value)
    → List (Signal Log E)
    → Try E (Watched T Log E)
unfolding watch_loop
watch contract unpack name opts rules signals = do
  _ ← contract.watch_logs opts name rules
  ok (watch_loop unpack name signals)
