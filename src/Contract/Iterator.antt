-- ===== src/Contract/Iterator.antt =====
-- pkg/contract: the iterator over a contract's events, from IbchandlerSendPacketIterator of
-- pkg/contract/ibchandler/ibchandler.go; the iterators of the other events differ in their types only. The log channel and
-- the subscription are a `Stream`; a select where both are ready takes the one that a Boolean names.
pub mod Drain
pub mod Run
pub mod Faithful
use yui_ibc_solidity.Prelude.{
  ℕ, Bytes, List, [], ◌∷◌, Bool, true, false, Option, none, some, map, if◌then◌else◌,
}
use yui_ibc_solidity.Prelude.Try.{Try, ok, err, ◌>>=◌}
use yui_ibc_solidity.Contract.Bound.{Boxed}

-- `UnpackLog` of a log into a new event, by the event's name.
abbrev pub Unpacker : Type 0 → Type 0 → Type 0 → Type 0
Unpacker E Log T = Bytes → Log → Try E T

-- An event with its field Raw.
pub record Raised (T Log : Type 0) : Type 0 where
  pub event : T
  pub raw : Log

-- The logs in the channel, and what the subscription's Err channel gives, if it gives something.
pub record Stream (Log E : Type 0) : Type 0 where
  pub logs : List Log
  pub over : Option (Option E)

-- The filtering half of `bind.BoundContract`: the event's name, and a rule for each indexed field.
pub record Filterer (E Value FilterOpts WatchOpts Log : Type 0) : Type 0 where
  pub filter_logs : FilterOpts → Bytes → List (List Value) → Try E (Stream Log E)
  pub watch_logs : WatchOpts → Bytes → List (List Value) → Try E (Unit {0})

-- `for _, item := range items { rule = append(rule, item) }`
abbrev pub rule : {Value T : Type 0} → Boxed Value T → List T → List Value
rule type items = map type.box items

-- The field Event: nil, an event that could not be unpacked, or an event.
pub data Slot (T Log : Type 0) : Type 0 where
  nil unfilled : Slot T Log
  filled : Raised T Log → Slot T Log

pub record Iterator (T Log E : Type 0) : Type 0 where
  pub current : Slot T Log
  pub name : Bytes
  pub done : Bool
  pub fail : Option E

-- `Error`.
abbrev pub error : {T Log E : Type 0} → Iterator T Log E → Option E
error it = it.fail

-- `Close`, after which the subscription's Err channel is closed, as go-ethereum says of Unsubscribe; the logs in the channel
-- stay there, and an error that nothing has read is gone.
abbrev pub unsubscribe : {Log E : Type 0} → Stream Log E → Stream Log E
unsubscribe stream = record stream { over = some none }

-- `ParseX`.
unfoldable pub parse : {E Log T : Type 0} → Unpacker E Log T → Bytes → Log → Try E (Raised T Log)
parse unpack name log = do event ← unpack name log; ok (record { event = event; raw = log })

-- `FilterX`.
unfoldable pub filter :
    {E Value FilterOpts WatchOpts Log T : Type 0}
    → Filterer E Value FilterOpts WatchOpts Log
    → Bytes
    → FilterOpts
    → List (List Value)
    → Try E (Iterator T Log E × Stream Log E)
filter contract name opts rules = do
  stream ← contract.filter_logs opts name rules
  ok (record { current = nil; name = name; done = false; fail = none }, stream)

module _ {E Log T : Type 0} (unpack : Unpacker E Log T) where
  abbrev pub Answer : Type 0
  Answer = Bool × Iterator T Log E × Stream Log E

  -- The body of `case log := <-it.logs`, by what `UnpackLog` gives.
  unfoldable pub received : Iterator T Log E → Log → Stream Log E → Try E T → Answer
  received it log rest (ok event) =
      (true, record it { current = filled (record { event = event; raw = log }) }, rest)
  received it log rest (err e) = (false, record it { current = unfilled; fail = some e }, rest)

  unfoldable pub receive : Iterator T Log E → Log → Stream Log E → Answer
  unfolding received
  receive it log rest = received it log rest (unpack it.name log)

  -- `if it.done { select { … default: return false } }`
  unfoldable pub deliver_available : Iterator T Log E → List Log → Option (Option E) → Answer
  unfolding receive
  deliver_available it [] over = (false, it, record { logs = []; over = over })
  deliver_available it (log ∷ logs) over = receive it log (record { logs = logs; over = over })

  -- `case err := <-it.sub.Err()`, with the call of Next that it ends in.
  unfoldable pub complete : Iterator T Log E → List Log → Option E → Answer
  unfolding deliver_available
  complete it logs none =
      deliver_available (record it { done = true; fail = none }) logs (some none)
  complete it logs (some e) = (
    false,
    record it { done = true; fail = some e },
    record { logs = logs; over = some (some e) },
  )

  -- The select of an iterator in progress; none blocks.
  unfoldable pub wait : Bool → Iterator T Log E → List Log → Option (Option E) → Option Answer
  unfolding receive complete
  wait log_first it [] none = none
  wait log_first it [] (some r) = some (complete it [] r)
  wait log_first it (log ∷ logs) none = some (receive it log (record { logs = logs; over = none }))
  wait log_first it (log ∷ logs) (some r) = some (
      if log_first
      then receive it log (record { logs = logs; over = some r })
      else complete it (log ∷ logs) r)

  -- `Next`.
  unfoldable pub next : Bool → Iterator T Log E → Stream Log E → Option Answer
  unfolding deliver_available wait
  next log_first it stream = elim it.fail [
    | some e ↦ some (false, it, stream)
    | none ↦
        if it.done
        then some (deliver_available it stream.logs stream.over)
        else wait log_first it stream.logs stream.over
  ]
