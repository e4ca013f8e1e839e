-- ===== src/Contract/Iterator/Drain.antt =====
-- pkg/contract: a consumer's loop `for it.Next() { … }` over logs that have all arrived yields their events in order.
use yui_ibc_solidity.Prelude.{
  ℕ, zero, suc, ◌<◌, ◌≡◌, refl, ap, arith, Bytes, List, [], ◌∷◌, Bool, true, false, Option, none,
  some, length,
}
use yui_ibc_solidity.Prelude.Try.{Try, ok, err}
use yui_ibc_solidity.Contract.Iterator.{
  Unpacker, Raised, Stream, Slot, filled, Iterator, error, receive, received, deliver_available,
  complete, wait, next, Answer,
}

-- What the loop has seen: the events, and `Error()` after it, or none if Next blocks or the fuel is out.
pub record Seen (T Log E : Type 0) : Type 0 where
  pub events : List (Raised T Log)
  pub ending : Option (Option E)

module _ {E Log T : Type 0} (unpack : Unpacker E Log T) where
  abbrev pub seen_after : Slot T Log → Seen T Log E → Seen T Log E
  seen_after (filled e) s = record { events = e ∷ s.events; ending = s.ending }
  seen_after _ s = s

  unfoldable pub seen_next :
      (Iterator T Log E → Stream Log E → Seen T Log E) → Option (Answer unpack) → Seen T Log E
  seen_next loop none = record { events = []; ending = none }
  seen_next loop (some (false, it, stream)) = record { events = []; ending = some (error it) }
  seen_next loop (some (true, it, stream)) = seen_after it.current (loop it stream)

  -- `choices` decides the selects that may go either way.
  unfoldable pub consume : ℕ → (ℕ → Bool) → Iterator T Log E → Stream Log E → Seen T Log E
  unfolding seen_next
  consume zero choices it stream = record { events = []; ending = none }
  consume (suc n) choices it stream =
      seen_next (consume n choices) (next unpack (choices n) it stream)

  abbrev pub unpacked : Log → Seen T Log E → Try E T → Seen T Log E
  unpacked log rest (ok event) = record {
    events = record { event = event; raw = log } ∷ rest.events;
    ending = rest.ending;
  }
  unpacked log rest (err e) = record { events = []; ending = some (some e) }

  -- The events of the logs, up to the first that cannot be unpacked.
  unfoldable pub unpack_all : Bytes → List Log → Seen T Log E
  unpack_all name [] = record { events = []; ending = some none }
  unpack_all name (log ∷ logs) =
      let rest = unpack_all name logs in unpacked log rest (unpack name log)

  -- An iterator whose subscription is over with no error, and one still in progress.
  abbrev completed : Slot T Log → Bytes → Iterator T Log E
  completed current name = record { current = current; name = name; done = true; fail = none }

  abbrev pub running : Slot T Log → Bytes → Iterator T Log E
  running current name = record { current = current; name = name; done = false; fail = none }

  abbrev arrived : List Log → Stream Log E
  arrived logs = record { logs = logs; over = some none }

  seen_next-received :
      (loop : Iterator T Log E → Stream Log E → Seen T Log E) (it : Iterator T Log E) (log : Log)
      (stream : Stream Log E) (rest : Seen T Log E) (r : Try E T)
      → ((current : Slot T Log) → loop (record it { current = current }) stream ≡ rest)
      → seen_next loop (some (received unpack it log stream r)) ≡ unpacked log rest r
  unfolding seen_next received
  seen_next-received loop it log stream rest (ok event) h =
      let now : Slot T Log = filled (record { event = event; raw = log }) in
      ap (seen_after now) (h now)
  seen_next-received loop it log stream rest (err e) h = refl

  consume-completed :
      (n : ℕ) (choices : ℕ → Bool) (current : Slot T Log) (name : Bytes) (logs : List Log)
      → length logs < n
      → consume n choices (completed current name) (arrived logs) ≡ unpack_all name logs
  unfolding consume receive next deliver_available unpack_all
  consume-completed zero choices current name logs h = absurd (omega arith)
  consume-completed (suc n) choices current name [] h = refl
  consume-completed (suc n) choices current name (log ∷ logs) h =
      seen_next-received (consume n choices) (completed current name) log (arrived logs) _ _
        (λ c. consume-completed n choices c name logs (omega arith))

  running-chosen :
      (n : ℕ) (choices : ℕ → Bool) (log_first : Bool) (current : Slot T Log) (name : Bytes)
      (log : Log) (logs : List Log)
      → ((c : Slot T Log)
          → consume n choices (completed c name) (arrived logs) ≡ unpack_all name logs)
      → ((c : Slot T Log)
          → consume n choices (running c name) (arrived logs) ≡ unpack_all name logs)
      → seen_next
          (consume n choices)
          (wait unpack log_first (running current name) (log ∷ logs) (some none))
        ≡ unpack_all name (log ∷ logs)
  unfolding wait receive complete deliver_available consume unpack_all
  running-chosen n choices true current name log logs finished going =
      seen_next-received (consume n choices) (running current name) log (arrived logs) _ _ going
  running-chosen n choices false current name log logs finished going =
      seen_next-received (consume n choices) (completed current name) log (arrived logs) _ _
        finished

  -- A loop over an iterator, once all logs have arrived and the subscription is over with no error, ends after at most one
  -- call of Next for each log and one more, whichever way its selects go. It has seen the events of the logs, in order, up
  -- to the first log that cannot be unpacked, and Error() is that log's error, or nil.
  pub consume-unpack_all :
      (n : ℕ) (choices : ℕ → Bool) (current : Slot T Log) (name : Bytes) (logs : List Log)
      → length logs < n
      → consume n choices (running current name) (arrived logs) ≡ unpack_all name logs
  unfolding consume receive next wait complete unpack_all
  consume-unpack_all zero choices current name logs h = absurd (omega arith)
  consume-unpack_all (suc n) choices current name [] h = refl
  consume-unpack_all (suc n) choices current name (log ∷ logs) h =
      running-chosen n choices (choices n) current name log logs
        (λ c. consume-completed n choices c name logs (omega arith))
        (λ c. consume-unpack_all n choices c name logs (omega arith))
