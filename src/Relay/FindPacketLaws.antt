-- ===== src/Relay/FindPacketLaws.antt =====
-- pkg/testing/chains.go: which packet `FindPacket` finds.
use yui_ibc_solidity.Prelude.{
  Bool, same_string, arith, ◌&&◌, ◌==◌, subst, ℕ, ◌≡◌, refl, sym, ap, ◌∙◌, Bytes, List, [], ◌∷◌,
  ◌++◌, true, false, Bool-cases, inl, inr,
}
use yui_ibc_solidity.Prelude.Strings.{same_string_refl, same_string-eq, both_true}
use yui_ibc_solidity.Prelude.Try.{Try, ok, err, >>=-eq_ok}
use yui_ibc_solidity.Channel.Packet.{Packet}
use yui_ibc_solidity.Relay.FindPacket.{
  panic, packet_not_found, or_failed, FilterQuery, SentValue, Value, sent, other, assert_sent,
  is_sent, to_packet, sent_query, find_loop, find_packet,
}

-- The packet that is looked for, and packets of which none is.
abbrev pub IsAsked : Bytes → Bytes → ℕ → SentValue → Type 0
IsAsked port channel sequence p =
    (p.source_port ≡ port) × (p.source_channel ≡ channel) × (p.sequence ≡ sequence)

abbrev pub NoneAsked : Bytes → Bytes → ℕ → List SentValue → Type 0
NoneAsked port channel sequence [] = Unit
NoneAsked port channel sequence (p ∷ ps) =
    (¬ (IsAsked port channel sequence p)) × NoneAsked port channel sequence ps

abbrev WhenFalse : Bool → Type 0
WhenFalse true = ⊥
WhenFalse false = Unit

false-ne-true : ◌≡◌ {A = Bool} false true → ⊥
false-ne-true h = subst WhenFalse h tt

is_sent-IsAsked :
    (port channel : Bytes) (sequence : ℕ) (p : SentValue)
    → is_sent port channel sequence p ≡ true
    → IsAsked port channel sequence p
unfolding is_sent
is_sent-IsAsked port channel sequence p h =
    let ports = same_string p.source_port port in
    let channels = same_string p.source_channel channel in
    let (h1, h2) = both_true (ports && channels) (p.sequence == sequence) h in
    let (h3, h4) = both_true ports channels h1 in
    (
      same_string-eq p.source_port port h3,
      same_string-eq p.source_channel channel h4,
      ground (arith, h2),
    )

asked-is_sent :
    (port channel : Bytes) (sequence : ℕ) (p : SentValue)
    → IsAsked port channel sequence p
    → is_sent port channel sequence p ≡ true
unfolding is_sent
asked-is_sent port channel sequence p (h1, h2, h3) =
    rw (h1, h2, h3, same_string_refl port, same_string_refl channel) (ground arith)

not-IsAsked :
    (port channel : Bytes) (sequence : ℕ) (p : SentValue)
    → is_sent port channel sequence p ≡ false
    → ¬ (IsAsked port channel sequence p)
not-IsAsked port channel sequence p f asked =
    false-ne-true (sym f ∙ asked-is_sent port channel sequence p asked)

not_sent :
    (port channel : Bytes) (sequence : ℕ) (p : SentValue)
    → ¬ (IsAsked port channel sequence p)
    → is_sent port channel sequence p ≡ false
not_sent port channel sequence p n = elim (Bool-cases (is_sent port channel sequence p)) [
  | inl t ↦ absurd (n (is_sent-IsAsked port channel sequence p t))
  | inr f ↦ f
]

-- A log whose first value is the struct that is asserted.
abbrev pub Holds : {E Log : Type 0} → (Log → Try E (List Value)) → Log → SentValue → Type 0
Holds unpack log p = (more : List Value) × (unpack log ≡ ok (sent p ∷ more))

abbrev pub AllHold :
    {E Log : Type 0} → (Log → Try E (List Value)) → List Log → List SentValue → Type 0
AllHold unpack [] [] = Unit
AllHold unpack (log ∷ logs) (p ∷ ps) = Holds unpack log p × AllHold unpack logs ps
AllHold unpack _ _ = ⊥

-- A packet in which each field is the one of that name in the struct.
pub record IsCopied (p : SentValue) (packet : Packet) : Type 0 where
  pub same_sequence : packet.sequence ≡ p.sequence
  pub same_source_port : packet.source_port ≡ p.source_port
  pub same_source_channel : packet.source_channel ≡ p.source_channel
  pub same_destination_port : packet.destination_port ≡ p.destination_port
  pub same_destination_channel : packet.destination_channel ≡ p.destination_channel
  pub same_payload : packet.payload ≡ p.payload
  pub same_revision_number :
      packet.timeout_height.revision_number ≡ p.timeout_height.revision_number
  pub same_revision_height :
      packet.timeout_height.revision_height ≡ p.timeout_height.revision_height
  pub same_timeout_timestamp : packet.timeout_timestamp ≡ p.timeout_timestamp

to_packet-IsCopied : (p : SentValue) → IsCopied p (to_packet p)
unfolding to_packet
to_packet-IsCopied p = record {
  same_sequence = refl;
  same_source_port = refl;
  same_source_channel = refl;
  same_destination_port = refl;
  same_destination_channel = refl;
  same_payload = refl;
  same_revision_number = refl;
  same_revision_height = refl;
  same_timeout_timestamp = refl;
}

-- The logs are those of some other packets, that of the packet, and more.
pub record First {E Log : Type 0} (unpack : Log → Try E (List Value)) (port channel : Bytes)
    (sequence : ℕ) (logs : List Log) (packet : Packet) : Type 0 where
  pub before : List Log
  pub others : List SentValue
  pub log : Log
  pub after : List Log
  pub value : SentValue
  pub split_logs : logs ≡ before ++ log ∷ after
  pub others_hold : AllHold unpack before others
  pub none_asked : NoneAsked port channel sequence others
  pub found : Holds unpack log value
  pub is_asked : IsAsked port channel sequence value
  pub is_copied : IsCopied value packet

ok_inj : {E A : Type 0} {x y : A} → ◌≡◌ {A = Try E A} (ok x) (ok y) → x ≡ y
ok_inj h = cc

from_failed : {E A : Type 0} (r : Try E A) {a : A} → or_failed r ≡ ok a → r ≡ ok a
from_failed (ok a) h = ap ok (ok_inj h)
from_failed (err e) h = cc

err-ne-ok : {E A : Type 0} {e : E} {x : A} → ◌≡◌ {A = Try E A} (err e) (ok x) → ⊥
err-ne-ok h = cc

-- The assertion succeeds at a first value of its type only.
assert_sent-Holds :
    {E : Type 0} (values : List Value) {p : SentValue}
    → assert_sent {E = E} values ≡ ok p
    → (more : List Value) × (values ≡ sent p ∷ more)
unfolding assert_sent
assert_sent-Holds [] h = absurd (err-ne-ok {e = panic} h)
assert_sent-Holds (sent q ∷ values) h = (values, ap (λ r. sent r ∷ values) (ok_inj h))
assert_sent-Holds (other ∷ values) h = absurd (err-ne-ok {e = panic} h)

module _ {E Log : Type 0} (unpack : Log → Try E (List Value)) (port channel : Bytes)
    (sequence : ℕ) where
  found_here :
      (log : Log) (logs : List Log) (q : SentValue) {packet : Packet}
      → Holds unpack log q
      → is_sent port channel sequence q ≡ true
      → to_packet q ≡ packet
      → First unpack port channel sequence (log ∷ logs) packet
  found_here log logs q e1 e2 e3 = record {
    before = [];
    others = [];
    log = log;
    after = logs;
    value = q;
    split_logs = refl;
    others_hold = tt;
    none_asked = tt;
    found = e1;
    is_asked = is_sent-IsAsked port channel sequence q e2;
    is_copied = subst (IsCopied q) e3 (to_packet-IsCopied q);
  }

  found_later :
      (log : Log) (logs : List Log) (q : SentValue) {packet : Packet}
      → Holds unpack log q
      → is_sent port channel sequence q ≡ false
      → First unpack port channel sequence logs packet
      → First unpack port channel sequence (log ∷ logs) packet
  found_later log logs q e1 e2 later = record {
    before = log ∷ later.before;
    others = q ∷ later.others;
    log = later.log;
    after = later.after;
    value = later.value;
    split_logs = ap (λ l. log ∷ l) later.split_logs;
    others_hold = (e1, later.others_hold);
    none_asked = (not-IsAsked port channel sequence q e2, later.none_asked);
    found = later.found;
    is_asked = later.is_asked;
    is_copied = later.is_copied;
  }

  find_loop-First :
      (logs : List Log) {packet : Packet}
      → find_loop unpack port channel sequence logs ≡ ok packet
      → First unpack port channel sequence logs packet
  unfolding find_loop
  find_loop-First [] e = cc
  find_loop-First (log ∷ logs) {packet} e =
      let (values, e1, h1) = >>=-eq_ok (or_failed (unpack log)) _ e in
      let (q, e2, h2) = >>=-eq_ok (assert_sent values) _ h1 in
      let (more, e3) = assert_sent-Holds values e2 in
      let holds : Holds unpack log q = (more, from_failed _ e1 ∙ ap ok e3) in
      elim (Bool-cases (is_sent port channel sequence q)) [
        | inl t ↦ found_here log logs q holds t (ok_inj (sym (rw (t) refl) ∙ h2))
        | inr f ↦ found_later log logs q holds f (find_loop-First logs (sym (rw (f) refl) ∙ h2))
      ]

  not_in_loop :
      (logs : List Log) (values : List SentValue)
      → AllHold unpack logs values
      → NoneAsked port channel sequence values
      → find_loop unpack port channel sequence logs ≡ err (packet_not_found port channel sequence)
  unfolding find_loop assert_sent
  not_in_loop [] [] e n = refl
  not_in_loop [] (q ∷ values) e n = absurd e
  not_in_loop (log ∷ logs) [] e n = absurd e
  not_in_loop (log ∷ logs) (q ∷ values) e n =
      rw (e.0.1, not_sent port channel sequence q (n.0)) (not_in_loop logs values (e.1) (n.1))

  module _ {Hash : Type 0} (filter_logs : FilterQuery Hash → Try E (List Log)) (handler : ℕ)
      (id : Hash) where
    -- The logs of the handler's address whose topic is the event's identifier, from block 0.
    abbrev pub all_sent : FilterQuery Hash
    all_sent = record { from_block = 0; addresses = handler ∷ []; topics = (id ∷ []) ∷ [] }

    -- A packet that `FindPacket` returns is, field by field, the struct that the first log holds whose port, channel and
    -- sequence are the ones asked for, among the logs that the node has of the event SendPacket of the handler's address from
    -- block 0. Each log before it holds a struct of other port, channel or sequence.
    pub find_packet-First :
        {packet : Packet}
        → find_packet unpack filter_logs handler id port channel sequence ≡ ok packet
        → (logs : List Log) × (filter_logs all_sent ≡ ok logs)
          × First unpack port channel sequence logs packet
    unfolding find_packet sent_query
    find_packet-First e =
        let (logs, e1, h1) = >>=-eq_ok (or_failed (filter_logs all_sent)) _ e in
        (logs, from_failed _ e1, find_loop-First logs h1)

    -- Where all those logs hold such a struct and none is that of the packet, the error says what was looked for.
    pub find_packet-NoneAsked :
        (logs : List Log) (values : List SentValue)
        → filter_logs all_sent ≡ ok logs
        → AllHold unpack logs values
        → NoneAsked port channel sequence values
        → find_packet unpack filter_logs handler id port channel sequence
          ≡ err (packet_not_found port channel sequence)
    unfolding find_packet sent_query
    find_packet-NoneAsked logs values e h n = rw (e) (not_in_loop logs values h n)
