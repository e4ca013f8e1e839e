-- ===== src/Contract/Iterator/Faithful.antt =====
-- pkg/contract: an iterator loses, repeats and reorders no event, whatever the order of the steps.
use mathlib.Core.Option.{some-ne-none, none-ne-some, some-injective}
use mathlib.Core.List.{map-append, cons-ne-nil}
use mathlib.Core.Bool.{false≢true}
use yui_ibc_solidity.Prelude.{
  ◌≡◌, refl, sym, ap, ◌∙◌, subst, Bytes, List, [], ◌∷◌, ◌++◌, append_assoc, append-nil, map, All,
  Bool, true, false, Option, none, some,
}
use yui_ibc_solidity.Prelude.Try.{Try, ok, err}
use yui_ibc_solidity.Contract.Iterator.{
  Unpacker, Raised, Stream, Slot, Iterator, receive, received, deliver_available, complete, wait,
  next,
}
use yui_ibc_solidity.Contract.Iterator.Run.{
  Run, after_next, exhausted, Step, arrive, finish, break, call, close, start, Reach, here, step,
  IsAccounted, raw_log, IsUnpacked, IsFaithful,
}

module _ {E Log T : Type 0} (unpack : Unpacker E Log T) where
  IsAccounted-last :
      (fail : Option E) (e : Raised T Log) (given : List (Raised T Log)) (waiting logs : List Log)
      → fail ≡ none
      → map (raw_log unpack) given ++ (e.raw ∷ waiting) ≡ logs
      → IsAccounted unpack fail (map (raw_log unpack) (given ++ (e ∷ []))) waiting logs
  IsAccounted-last none e given waiting logs ne h =
      ap (λ l. l ++ waiting) (map-append (raw_log unpack) given (e ∷ []))
      ∙ append_assoc (map (raw_log unpack) given) (e.raw ∷ []) waiting
      ∙ h
  IsAccounted-last (some x) e given waiting logs ne h = absurd (some-ne-none x ne)

  All-last :
      {A : Type 0} (P : A → Type 0) (xs : List A) (x : A) → All P xs → P x → All P (xs ++ (x ∷ []))
  All-last P [] x h p = (p, tt)
  All-last P (y ∷ xs) x h p = (h.0, All-last P xs x h.1 p)

  received-IsFaithful :
      (logs : List Log) (s : Run T Log E) (it : Iterator T Log E) (log : Log) (waiting : List Log)
      (over : Option (Option E)) (r : Try E T)
      → unpack it.name log ≡ r
      → map (raw_log unpack) s.given ++ (log ∷ (waiting ++ s.source)) ≡ logs
      → it.fail ≡ none
      → All (IsUnpacked unpack it.name) s.given
      → (s.closed ≡ false → (over ≡ some none → s.source ≡ []) × (it.done ≡ true → s.source ≡ []))
      → IsFaithful unpack logs (
          after_next unpack s
            (some (received unpack it log (record { logs = waiting; over = over }) r)))
  unfolding after_next received
  received-IsFaithful logs s it log waiting over (ok event) e h ne u d =
      let last : Raised T Log = record { event = event; raw = log } in
      (
        IsAccounted-last it.fail last s.given (waiting ++ s.source) logs ne h,
        All-last (IsUnpacked unpack it.name) s.given last u e,
        λ c. ((d c).0, (λ k _. (d c).1 k)),
      )
  received-IsFaithful logs s it log waiting over (err x) e h ne u d =
      ((_, h), u, λ c. ((d c).0, (λ k _. (d c).1 k)))

  abbrev good : Slot T Log → Bytes → Bool → Iterator T Log E
  good current name done = record { current = current; name = name; done = done; fail = none }

  abbrev state :
      Slot T Log
      → Bytes
      → Bool
      → Option E
      → List Log
      → Option (Option E)
      → List Log
      → Bool
      → List (Raised T Log)
      → Run T Log E
  state current name done fail logs over source closed given =
      let it : Iterator T Log E = record {
        current = current;
        name = name;
        done = done;
        fail = fail;
      } in
      record {
        it = it;
        stream = record { logs = logs; over = over };
        source = source;
        closed = closed;
        given = given;
      }

  called : Bool → Run T Log E → Run T Log E
  called log_first s = after_next unpack s (next unpack log_first s.it s.stream)

  next-IsFaithful :
      (all : List Log) (log_first : Bool) (current : Slot T Log) (name : Bytes) (done : Bool)
      (fail : Option E) (logs : List Log) (over : Option (Option E)) (source : List Log)
      (closed : Bool) (given : List (Raised T Log))
      → IsFaithful unpack all (state current name done fail logs over source closed given)
      → IsFaithful unpack all
          (called log_first (state current name done fail logs over source closed given))
  unfolding called after_next next wait complete deliver_available receive
  next-IsFaithful all log_first current name done (some e) logs over source closed given h = h
  next-IsFaithful all log_first current name true none [] over source closed given h = h
  next-IsFaithful all log_first current name true none (log ∷ logs) over source closed given h =
      received-IsFaithful all (state current name true none (log ∷ logs) over source closed given)
        (good current name true) log logs over _ refl h.0 refl h.1
        (λ c. ((h.2 c).0, (λ d. (h.2 c).1 d refl)))
  next-IsFaithful all log_first current name false none [] none source closed given h = h
  next-IsFaithful all log_first current name false none [] (some none) source closed given h =
      (h.0, h.1, λ c. ((h.2 c).0, (λ _ _. (h.2 c).0 refl)))
  next-IsFaithful all log_first current name false none [] (some (some e)) source closed given h = (
    (source, h.0),
    h.1,
    λ _. (
      (λ o. absurd (some-ne-none e (some-injective (some e) none o))),
      (λ _ n. absurd (some-ne-none e n)),
    ),
  )
  next-IsFaithful all log_first current name false none (log ∷ logs) none source closed given h =
      received-IsFaithful all (state current name false none (log ∷ logs) none source closed given)
        (good current name false) log logs none _ refl h.0 refl h.1
        (λ c. ((h.2 c).0, (λ d. (h.2 c).1 d refl)))
  next-IsFaithful all true current name false none (log ∷ logs) (some r) source closed given h =
      received-IsFaithful all
        (state current name false none (log ∷ logs) (some r) source closed given)
        (good current name false) log logs (some r) _ refl h.0 refl h.1
        (λ c. ((h.2 c).0, (λ d. (h.2 c).1 d refl)))
  next-IsFaithful all false current name false none (log ∷ logs) (some none) source closed given h =
      received-IsFaithful all
        (state current name false none (log ∷ logs) (some none) source closed given)
        (good current name true) log logs (some none) _ refl h.0 refl h.1
        (λ c. ((h.2 c).0, (λ d. (h.2 c).0 refl)))
  next-IsFaithful all false current name false none (log ∷ logs) (some (some e)) source closed given
        h =
      (
        (log ∷ (logs ++ source), h.0),
        h.1,
        λ _. (
          (λ o. absurd (some-ne-none e (some-injective (some e) none o))),
          (λ _ n. absurd (some-ne-none e n)),
        ),
      )

  Step-IsFaithful :
      (all : List Log) {s t : Run T Log E}
      → Step unpack s t
      → IsFaithful unpack all s
      → IsFaithful unpack all t
  unfolding called
  Step-IsFaithful all (arrive it logs log source given) h = (
    subst (λ w. IsAccounted unpack it.fail (map (raw_log unpack) given) w all)
        (sym (append_assoc logs (log ∷ []) source)) h.0,
    h.1,
    λ c. (
      (λ o. absurd (none-ne-some none o)),
      (λ d f. absurd (cons-ne-nil log source ((h.2 c).1 d f))),
    ),
  )
  Step-IsFaithful all (finish it logs given) h = (h.0, h.1, λ c. ((λ _. refl), (h.2 c).1))
  Step-IsFaithful all (break it logs source given e) h =
      (h.0, h.1, λ c. ((λ o. absurd (some-ne-none e (some-injective (some e) none o))), (h.2 c).1))
  Step-IsFaithful all (call log_first s) h =
      next-IsFaithful all log_first s.it.current s.it.name s.it.done s.it.fail s.stream.logs
        s.stream.over s.source s.closed s.given h
  Step-IsFaithful all (close s) h = (h.0, h.1, λ c. absurd (false≢true (sym c)))

  -- In every state that the node and the caller's calls of Next and Close can reach, in whatever order they come, each event that the caller
  -- has been given is what its log unpacks to, and the logs of these events are the first of the logs there are, in order:
  -- none is lost, repeated or out of place. While the iterator has not failed, those that follow are the logs in the channel
  -- and then those yet to arrive.
  pub Reach-IsFaithful :
      (name : Bytes) (all : List Log) (s : Run T Log E)
      → Reach unpack (start unpack name all) s
      → IsFaithful unpack all s
  Reach-IsFaithful name all s here =
      (refl, tt, λ _. ((λ o. absurd (none-ne-some none o)), (λ d _. absurd (false≢true d))))
  Reach-IsFaithful name all s (step r st) = Step-IsFaithful all st (Reach-IsFaithful name all _ r)

  received-more :
      {A : Type 0} (it : Iterator T Log E) (log : Log) (stream : Stream Log E) (r : Try E T)
      → exhausted unpack (some (received unpack it log stream r)) ≡ true
      → A
  unfolding exhausted received
  received-more it log stream (ok event) x = absurd (false≢true x)
  received-more it log stream (err e) x = absurd (false≢true x)

  next-given :
      (all : List Log) (log_first : Bool) (current : Slot T Log) (name : Bytes) (done : Bool)
      (fail : Option E) (logs : List Log) (over : Option (Option E)) (source : List Log)
      (closed : Bool) (given : List (Raised T Log))
      → IsFaithful unpack all (state current name done fail logs over source closed given)
      → closed ≡ false
      → exhausted unpack (
          next unpack log_first
            (record { current = current; name = name; done = done; fail = fail })
            (record { logs = logs; over = over }))
        ≡ true
      → map (raw_log unpack) given ≡ all
  unfolding exhausted next wait complete deliver_available receive
  next-given all log_first current name done (some e) logs over source closed given h c x =
      absurd (false≢true x)
  next-given all log_first current name true none [] over source closed given h c x =
      sym (append-nil (map (raw_log unpack) given))
      ∙ ap (λ w. map (raw_log unpack) given ++ w) (sym ((h.2 c).1 refl refl))
      ∙ h.0
  next-given all log_first current name true none (log ∷ logs) over source closed given h c x =
      received-more (good current name true) log _ _ x
  next-given all log_first current name false none [] none source closed given h c x =
      absurd (false≢true x)
  next-given all log_first current name false none [] (some none) source closed given h c x =
      sym (append-nil (map (raw_log unpack) given))
      ∙ ap (λ w. map (raw_log unpack) given ++ w) (sym ((h.2 c).0 refl))
      ∙ h.0
  next-given all log_first current name false none [] (some (some e)) source closed given h c x =
      absurd (false≢true x)
  next-given all log_first current name false none (log ∷ logs) none source closed given h c x =
      received-more (good current name false) log _ _ x
  next-given all true current name false none (log ∷ logs) (some r) source closed given h c x =
      received-more (good current name false) log _ _ x
  next-given all false current name false none (log ∷ logs) (some none) source closed given h c x =
      received-more (good current name true) log _ _ x
  next-given all false current name false none (log ∷ logs) (some (some e)) source closed given h c
        x =
      absurd (false≢true x)

  -- When Next says that there are no more events and Error() is nil, and the caller has not called Close, the caller has been
  -- given all events there are: those of all logs, in order, each unpacked from its log. This holds in whatever order the
  -- steps of the node and the caller's calls of Next came.
  pub exhausted-given :
      (name : Bytes) (all : List Log) (s : Run T Log E) (log_first : Bool)
      → Reach unpack (start unpack name all) s
      → s.closed ≡ false
      → exhausted unpack (next unpack log_first s.it s.stream) ≡ true
      → (map (raw_log unpack) s.given ≡ all) × All (IsUnpacked unpack s.it.name) s.given
  exhausted-given name all s log_first r c x =
      let h = Reach-IsFaithful name all s r in
      (
        next-given all log_first s.it.current s.it.name s.it.done s.it.fail s.stream.logs
            s.stream.over s.source s.closed s.given h c x,
        h.1,
      )
