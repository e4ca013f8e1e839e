-- ===== src/Contract/Watch/Sunk.antt =====
-- pkg/contract: what the loop of WatchX puts into the sink.
use mathlib.Core.Option.{some-ne-none}
use yui_ibc_solidity.Prelude.{◌≡◌, refl, ap, Bytes, List, [], ◌∷◌, ◌++◌, map, All, none, some}
use yui_ibc_solidity.Prelude.Try.{Try, ok, err, ◌>>=◌}
use yui_ibc_solidity.Contract.Iterator.{Unpacker, Raised, parse}
use yui_ibc_solidity.Contract.Watch.{
  Handover, accepted, over_meanwhile, quit_meanwhile, Signal, log, over, quit, Watched, observed,
  watch_loop,
}

module _ {E Log T : Type 0} (unpack : Unpacker E Log T) (name : Bytes) where
  abbrev pub logs_of : List (Signal Log E) → List Log
  logs_of [] = []
  logs_of (log l h ∷ signals) = l ∷ logs_of signals
  logs_of (_ ∷ signals) = logs_of signals

  abbrev pub raw_log : Raised T Log → Log
  raw_log e = e.raw

  abbrev pub IsUnpacked : Raised T Log → Type 0
  IsUnpacked e = unpack name e.raw ≡ ok e.event

  -- The sink's events are those of the first logs, and of all of them while the loop runs.
  abbrev pub IsForwarded : List Log → Watched T Log E → Type 0
  IsForwarded logs w =
      (rest : List Log) × (map raw_log w.sunk ++ rest ≡ logs)
      × (w.result ≡ none → rest ≡ [])
      × All IsUnpacked w.sunk

  observed-IsForwarded :
      (l : Log) (logs : List Log) (h : Handover E) (w : Watched T Log E) (r : Try E T)
      → unpack name l ≡ r
      → IsForwarded logs w
      → IsForwarded
          (l ∷ logs)
          (observed unpack name h w (r >>= λ event. ok (record { event = event; raw = l })))
  unfolding observed
  observed-IsForwarded l logs h w (err e) u f =
      (l ∷ logs, refl, (λ x. absurd (some-ne-none (some e) x)), tt)
  observed-IsForwarded l logs accepted w (ok event) u f = (f.0, ap (λ t. l ∷ t) f.1, f.2, (u, f.3))
  observed-IsForwarded l logs (over_meanwhile r) w (ok event) u f =
      (l ∷ logs, refl, (λ x. absurd (some-ne-none r x)), tt)
  observed-IsForwarded l logs quit_meanwhile w (ok event) u f =
      (l ∷ logs, refl, (λ x. absurd (some-ne-none none x)), tt)

  -- Whatever the selects of the loop take, the events in the sink are those of the first logs that arrived, in order, each
  -- unpacked from its log; as long as the loop has not returned, they are those of all logs that arrived.
  pub watch_loop-IsForwarded :
      (signals : List (Signal Log E))
      → IsForwarded (logs_of signals) (watch_loop unpack name signals)
  unfolding watch_loop parse
  watch_loop-IsForwarded [] = ([], refl, (λ _. refl), tt)
  watch_loop-IsForwarded (over r ∷ signals) =
      (logs_of signals, refl, (λ x. absurd (some-ne-none r x)), tt)
  watch_loop-IsForwarded (quit ∷ signals) =
      (logs_of signals, refl, (λ x. absurd (some-ne-none none x)), tt)
  watch_loop-IsForwarded (log l h ∷ signals) =
      observed-IsForwarded l (logs_of signals) h _ _ refl (watch_loop-IsForwarded signals)
