-- ===== src/Contract/Iterator/Run.antt =====
-- pkg/contract: an iterator beside the node that sends it logs. The state is the iterator, its stream, the logs that are yet to
-- arrive, whether the caller has closed it, and the events that the caller has been given; the steps interleave the node's
-- with the caller's calls of Next and of Close.

use yui_ibc_solidity.Prelude.{
  ◌≡◌, Bytes, List, [], ◌∷◌, ◌++◌, map, All, Bool, true, false, Option, none, some,
}
use yui_ibc_solidity.Prelude.Try.{ok}
use yui_ibc_solidity.Contract.Iterator.{
  Unpacker, Raised, Stream, Slot, nil, filled, Iterator, error, unsubscribe, next, Answer,
}

pub record Run (T Log E : Type 0) : Type 0 where
  pub it : Iterator T Log E
  pub stream : Stream Log E
  pub source : List Log
  pub closed : Bool
  pub given : List (Raised T Log)

module _ {E Log T : Type 0} (unpack : Unpacker E Log T) where
  -- What the caller keeps of an answer: the event, if Next says that there is one.
  abbrev pub give : Bool → Slot T Log → List (Raised T Log) → List (Raised T Log)
  give true (filled e) given = given ++ (e ∷ [])
  give _ _ given = given

  -- The state after a call of Next. A call that blocks changes nothing.
  unfoldable pub after_next : Run T Log E → Option (Answer unpack) → Run T Log E
  after_next s none = s
  after_next s (some (more, it, stream)) = record {
    it = it;
    stream = stream;
    source = s.source;
    closed = s.closed;
    given = give more it.current s.given;
  }

  -- Next has said that there are no more events, and no error.
  unfoldable pub exhausted : Option (Answer unpack) → Bool
  exhausted (some (false, it, stream)) = elim (error it) [ none ↦ true | some e ↦ false ]
  exhausted _ = false

  pub data Step : Run T Log E → Run T Log E → Type 0 where
    arrive :
        (it : Iterator T Log E) (logs : List Log) (log : Log) (source : List Log)
        (given : List (Raised T Log))
        → Step
            (record {
              it = it;
              stream = record { logs = logs; over = none };
              source = log ∷ source;
              closed = false;
              given = given;
            })
            (record {
              it = it;
              stream = record { logs = logs ++ (log ∷ []); over = none };
              source = source;
              closed = false;
              given = given;
            })
    finish :
        (it : Iterator T Log E) (logs : List Log) (given : List (Raised T Log))
        → Step
            (record {
              it = it;
              stream = record { logs = logs; over = none };
              source = [];
              closed = false;
              given = given;
            })
            (record {
              it = it;
              stream = record { logs = logs; over = some none };
              source = [];
              closed = false;
              given = given;
            })
    break :
        (it : Iterator T Log E) (logs source : List Log) (given : List (Raised T Log)) (e : E)
        → Step
            (record {
              it = it;
              stream = record { logs = logs; over = none };
              source = source;
              closed = false;
              given = given;
            })
            (record {
              it = it;
              stream = record { logs = logs; over = some (some e) };
              source = source;
              closed = false;
              given = given;
            })
    call :
        (log_first : Bool) (s : Run T Log E)
        → Step s (after_next s (next unpack log_first s.it s.stream))
    close : (s : Run T Log E) → Step s (record s { stream = unsubscribe s.stream; closed = true })

  -- A new iterator, before any log has arrived.
  abbrev pub start : Bytes → List Log → Run T Log E
  start name logs =
      let it : Iterator T Log E = record {
        current = nil;
        name = name;
        done = false;
        fail = none;
      } in
      record {
        it = it;
        stream = record { logs = []; over = none };
        source = logs;
        closed = false;
        given = [];
      }

  pub data Reach (s : Run T Log E) : Run T Log E → Type 0 where
    here : Reach s s
    step : {t u : Run T Log E} → Reach s t → Step t u → Reach s u

  -- The logs of the given events and the logs that wait are all logs; those of the given events are some first of them.
  abbrev pub IsAccounted : Option E → List Log → List Log → List Log → Type 0
  IsAccounted none seen waiting logs = seen ++ waiting ≡ logs
  IsAccounted (some e) seen waiting logs = (rest : List Log) × (seen ++ rest ≡ logs)

  abbrev pub raw_log : Raised T Log → Log
  raw_log e = e.raw

  abbrev pub IsUnpacked : Bytes → Raised T Log → Type 0
  IsUnpacked name e = unpack name e.raw ≡ ok e.event

  abbrev pub IsFaithful : List Log → Run T Log E → Type 0
  IsFaithful logs s =
      IsAccounted s.it.fail (map raw_log s.given) (s.stream.logs ++ s.source) logs
      × All (IsUnpacked s.it.name) s.given
      × (s.closed ≡ false
          → (s.stream.over ≡ some none → s.source ≡ [])
            × (s.it.done ≡ true → s.it.fail ≡ none → s.source ≡ []))
