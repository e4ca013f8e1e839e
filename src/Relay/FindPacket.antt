-- ===== src/Relay/FindPacket.antt =====
-- pkg/testing/chains.go: `FindPacket` and `GetLastSentPacket`. The node's logs, their decoding by the ABI of SendPacket and
-- the call of IBCHost are parameters.
use yui_ibc_solidity.Prelude.{
  ℕ, ◌+◌, ◌-◌, ◌%◌, ◌^◌, Bytes, List, [], ◌∷◌, Bool, ◌&&◌, ◌==◌, if◌then◌else◌, same_string,
}
use yui_ibc_solidity.Prelude.Try.{Try, ok, err, ◌>>=◌}
use yui_ibc_solidity.Channel.Packet.{Packet}

-- The errors, or a runtime panic.
pub data FindError (E : Type 0) : Type 0 where
  failed : E → FindError E
  packet_not_found : Bytes → Bytes → ℕ → FindError E
  panic : FindError E

abbrev pub or_failed : {E A : Type 0} → Try E A → Try (FindError E) A
or_failed (ok a) = ok a
or_failed (err e) = err (failed e)

-- `ethereum.FilterQuery`, in the fields that are set.
pub record FilterQuery (Hash : Type 0) : Type 0 where
  pub from_block : ℕ
  pub addresses : List ℕ
  pub topics : List (List Hash)

-- The query for the events of an ABI identifier that the handler at an address has emitted.
unfoldable pub sent_query : {Hash : Type 0} → ℕ → Hash → FilterQuery Hash
sent_query handler id = record { from_block = 0; addresses = handler ∷ []; topics = (id ∷ []) ∷ [] }

-- The anonymous struct that an unpacked log holds.
pub record SentHeight : Type 0 where
  pub revision_number : ℕ
  pub revision_height : ℕ

pub record SentValue : Type 0 where
  pub sequence : ℕ
  pub source_port : Bytes
  pub source_channel : Bytes
  pub destination_port : Bytes
  pub destination_channel : Bytes
  pub payload : Bytes
  pub timeout_height : SentHeight
  pub timeout_timestamp : ℕ

-- A value that `Unpack` returns, of the type that is asserted or of another.
pub data Value : Type 0 where
  sent : SentValue → Value
  other : Value

-- `values[0].(struct { … })` panics where there is no first value, and where it is of another type.
unfoldable pub assert_sent : {E : Type 0} → List Value → Try (FindError E) SentValue
assert_sent [] = err panic
assert_sent (sent p ∷ values) = ok p
assert_sent (other ∷ values) = err panic

unfoldable pub is_sent : Bytes → Bytes → ℕ → SentValue → Bool
is_sent port channel sequence p =
    same_string p.source_port port
    && same_string p.source_channel channel
    && (p.sequence == sequence)

-- `&channeltypes.Packet{ … }`
unfoldable pub to_packet : SentValue → Packet
to_packet p = record {
  sequence = p.sequence;
  source_port = p.source_port;
  source_channel = p.source_channel;
  destination_port = p.destination_port;
  destination_channel = p.destination_channel;
  payload = p.payload;
  timeout_height = record {
    revision_number = p.timeout_height.revision_number;
    revision_height = p.timeout_height.revision_height;
  };
  timeout_timestamp = p.timeout_timestamp;
}

module _ {E Log : Type 0} (unpack : Log → Try E (List Value)) where
  -- The loop over the logs: a log is decoded when it is reached.
  unfoldable pub find_loop : Bytes → Bytes → ℕ → List Log → Try (FindError E) Packet
  unfolding is_sent assert_sent to_packet
  find_loop port channel sequence [] = err (packet_not_found port channel sequence)
  find_loop port channel sequence (log ∷ logs) = or_failed (unpack log) >>= λ values.
      assert_sent values >>= λ p.
      if is_sent port channel sequence p
      then ok (to_packet p)
      else find_loop port channel sequence logs

  module _ {Hash : Type 0} (filter_logs : FilterQuery Hash → Try E (List Log)) (handler : ℕ)
      (id : Hash) where
    unfoldable pub find_packet : Bytes → Bytes → ℕ → Try (FindError E) Packet
    unfolding sent_query find_loop
    find_packet port channel sequence = do
      logs ← or_failed (filter_logs (sent_query handler id))
      find_loop port channel sequence logs

    -- The sequence before the next one, as uint64s.
    unfoldable pub get_last_sent_packet :
        (Bytes → Bytes → Try E ℕ) → Bytes → Bytes → Try (FindError E) Packet
    unfolding find_packet
    get_last_sent_packet next_sequence_send port channel = do
      seq ← or_failed (next_sequence_send port channel)
      find_packet port channel ((seq + (2 ^ 64 - 1)) % 2 ^ 64)
