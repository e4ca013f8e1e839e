-- ===== src/Tests/Events.antt =====
-- The iterators and the watch loops of the contract bindings, at concrete logs.
use yui_ibc_solidity.Prelude.{
  ℕ, ◌+◌, ◌≡◌, refl, arith, Bytes, List, [], ◌∷◌, true, false, none, some, ◌==◌, if◌then◌else◌,
  codes, map, All,
}
use yui_ibc_solidity.Prelude.Try.{ok, err}
use yui_ibc_solidity.Contract.Iterator.{
  Unpacker, Raised, Iterator, nil, filled, next, received, receive, deliver_available, complete,
  wait, parse,
}
use yui_ibc_solidity.Contract.Iterator.Drain.{consume, unpack_all, running, consume-unpack_all}
use yui_ibc_solidity.Contract.Iterator.Run.{
  Run, Reach, here, step, arrive, finish, call, start, after_next, exhausted, IsFaithful,
  IsUnpacked,
}
use yui_ibc_solidity.Contract.Iterator.Faithful.{Reach-IsFaithful, exhausted-given}
use yui_ibc_solidity.Contract.Watch.{Signal, log, accepted, quit_meanwhile, watch_loop, observed}
use yui_ibc_solidity.Contract.Watch.Sunk.{IsForwarded, logs_of, watch_loop-IsForwarded}

-- A log is a number, its event the number plus ten; the log 9 cannot be unpacked.
abbrev unpack : Unpacker ℕ ℕ ℕ
unpack name n = if n == 9 then err 1 else ok (n + 10)

abbrev event_name : Bytes
event_name = codes "SendPacket"

abbrev raised : ℕ → Raised ℕ ℕ
raised n = record { event = n + 10; raw = n }

abbrev fresh : Iterator ℕ ℕ ℕ
fresh = record { current = nil; name = event_name; done = false; fail = none }

unpack_all_test :
    unpack_all {E = ℕ} unpack event_name (4 ∷ 9 ∷ 5 ∷ [])
    ≡ record { events = raised 4 ∷ []; ending = some (some 1) }
unfolding unpack_all
unpack_all_test = refl

consume-unpack_all_example :
    consume unpack 3
      (λ n. n == 2)
      (running {E = ℕ} unpack nil event_name)
      (record { logs = 4 ∷ 5 ∷ []; over = some none })
    ≡ unpack_all unpack event_name (4 ∷ 5 ∷ [])
consume-unpack_all_example =
    consume-unpack_all unpack 3 (λ n. n == 2) nil event_name (4 ∷ 5 ∷ []) (omega arith)

abbrev logs : List ℕ
logs = 4 ∷ []

abbrev arrived : Run ℕ ℕ ℕ
arrived = record {
  it = fresh;
  stream = record { logs = logs; over = none };
  source = [];
  closed = false;
  given = [];
}

abbrev finished : Run ℕ ℕ ℕ
finished = record {
  it = fresh;
  stream = record { logs = logs; over = some none };
  source = [];
  closed = false;
  given = [];
}

-- Next takes the end of the subscription first, and delivers the log that is available.
abbrev delivered : Run ℕ ℕ ℕ
delivered =
    let it = record fresh { current = filled (raised 4); done = true } in
    record {
      it = it;
      stream = record { logs = []; over = some none };
      source = [];
      closed = false;
      given = raised 4 ∷ [];
    }

delivered_test :
    after_next unpack finished (next unpack false finished.it finished.stream) ≡ delivered
unfolding after_next next wait complete deliver_available receive received
delivered_test = refl

reached :
    Reach unpack
      (start unpack event_name logs)
      (after_next unpack finished (next unpack false finished.it finished.stream))
reached =
    step (step (step here (arrive fresh [] 4 [] [])) (finish fresh logs [])) (call false finished)

Reach-IsFaithful_example :
    IsFaithful unpack logs
      (after_next unpack finished (next unpack false finished.it finished.stream))
Reach-IsFaithful_example = Reach-IsFaithful unpack event_name logs _ reached

reached_delivered : Reach unpack (start unpack event_name logs) delivered
unfolding after_next next wait complete deliver_available receive received
reached_delivered = reached

exhausted_test : exhausted unpack (next unpack true delivered.it delivered.stream) ≡ true
unfolding exhausted next deliver_available
exhausted_test = refl

exhausted-given_example :
    (map (λ (e : Raised ℕ ℕ). e.raw) delivered.given ≡ logs)
    × All (IsUnpacked {E = ℕ} unpack event_name) delivered.given
exhausted-given_example =
    exhausted-given unpack event_name logs delivered true reached_delivered refl exhausted_test

abbrev signals : List (Signal ℕ ℕ)
signals = log 4 accepted ∷ log 5 accepted ∷ log 6 quit_meanwhile ∷ []

watch_loop_test :
    watch_loop unpack event_name signals
    ≡ record { sunk = raised 4 ∷ raised 5 ∷ []; result = some none }
unfolding watch_loop observed parse
watch_loop_test = refl

watch_loop-IsForwarded_example :
    IsForwarded unpack event_name
      (logs_of unpack event_name signals)
      (watch_loop unpack event_name signals)
watch_loop-IsForwarded_example = watch_loop-IsForwarded unpack event_name signals
