-- ===== src/Core/Host.antt =====
-- contracts/core/IBCHost.sol and IBCIdentifier.sol: the commitment keys, the getters and the setters of channels, packets,
-- sequences and capabilities, and the generator of channel identifiers. What a setter returns is the store after it.
use yui_ibc_solidity.Prelude.{
  ℕ, zero, suc, ◌+◌, ◌-◌, ◌*◌, ◌/◌, ◌%◌, ◌^◌, Bytes, [], ◌∷◌, ◌++◌, Bool, true, not, if◌then◌else◌,
  ◌==◌, same_string, replicate, codes,
}
use yui_ibc_solidity.Prelude.Try.{Try, ok, err, ◌>>=◌}
use yui_ibc_solidity.Commitment.Uint64.{uint64_to_big_endian}
use yui_ibc_solidity.Contract.Ibchost.Structs.{ChannelData, ConnectionEndData}
use yui_ibc_solidity.Contract.Ibchandler.Structs.{PacketData}
use yui_ibc_solidity.Core.Store.{Store, Chain, require, put, put2}

-- `bytes32(0)`
abbrev pub zero_word : Bytes
zero_word = replicate 32 0

-- The first loop of uint2str, on fuel: `len` is a uint64.
unfoldable pub count_digits : ℕ → ℕ → ℕ → ℕ
count_digits zero j len = len
count_digits (suc fuel) j len =
    let rest = count_digits fuel (j / 10) ((len + 1) % 2 ^ 64) in if j == 0 then len else rest

-- `bstr[k] = b1`, which fails out of range.
unfoldable pub set_byte : Bytes → ℕ → ℕ → Try Bytes Bytes
set_byte [] k b = err []
set_byte (x ∷ xs) zero b = ok (b ∷ xs)
set_byte (x ∷ xs) (suc k) b = do rest ← set_byte xs k b; ok (x ∷ rest)

-- The second loop of uint2str, on fuel, from `_i`, `k` and `bstr`; `k-1` wraps around.
unfoldable pub write_digits : ℕ → ℕ → ℕ → Bytes → Try Bytes Bytes
unfolding set_byte
write_digits zero i k bstr = ok bstr
write_digits (suc fuel) i k bstr =
    let k' = (k + (2 ^ 64 - 1)) % 2 ^ 64 in
    let rest : Try Bytes Bytes = (do
      written ← set_byte bstr k' ((48 + (i - i / 10 * 10) % 256) % 256)
      write_digits fuel (i / 10) k' written) in
    if i == 0 then ok bstr else rest

-- A uint64 has at most twenty digits.
unfoldable pub uint2str : ℕ → Try Bytes Bytes
unfolding count_digits write_digits
uint2str i =
    let len = count_digits 20 i 0 in
    if i == 0 then ok (codes "0") else write_digits 20 i len (replicate len 0)

module _ (chain : Chain) where
  -- The keys of IBCIdentifier; `abi.encodePacked` of a uint64 is its eight bytes.
  unfoldable pub channel_commitment_key : Bytes → Bytes → Bytes
  channel_commitment_key port_id channel_id =
      chain.keccak256 ((3 ∷ []) ++ (port_id ++ (codes "/" ++ channel_id)))

  unfoldable pub packet_commitment_key : Bytes → Bytes → ℕ → Bytes
  packet_commitment_key port_id channel_id sequence = chain.keccak256 (
      (4 ∷ [])
      ++ (port_id ++ (codes "/" ++ (channel_id ++ (codes "/" ++ uint64_to_big_endian sequence)))))

  unfoldable pub packet_acknowledgement_commitment_key : Bytes → Bytes → ℕ → Bytes
  packet_acknowledgement_commitment_key port_id channel_id sequence = chain.keccak256 (
      (5 ∷ [])
      ++ (port_id ++ (codes "/" ++ (channel_id ++ (codes "/" ++ uint64_to_big_endian sequence)))))

  unfoldable pub only_ibc_module : Store → Try Bytes (Unit {0})
  unfolding require
  only_ibc_module s = require (chain.sender == s.ibc_module) []

  unfoldable pub set_channel : Store → Bytes → Bytes → ChannelData → Try Bytes Store
  unfolding only_ibc_module put put2 channel_commitment_key
  set_channel s port_id channel_id channel = do
    _ ← only_ibc_module s
    ok (record s {
      channels = put2 s.channels port_id channel_id channel;
      commitments =
          put s.commitments (channel_commitment_key port_id channel_id)
            (chain.keccak256 (chain.encode_channel channel));
    })

  unfoldable pub set_next_sequence_send : Store → Bytes → Bytes → ℕ → Try Bytes Store
  unfolding only_ibc_module put2
  set_next_sequence_send s port_id channel_id sequence = do
    _ ← only_ibc_module s
    ok (record s { next_sequence_sends = put2 s.next_sequence_sends port_id channel_id sequence })

  unfoldable pub set_next_sequence_recv : Store → Bytes → Bytes → ℕ → Try Bytes Store
  unfolding only_ibc_module put2
  set_next_sequence_recv s port_id channel_id sequence = do
    _ ← only_ibc_module s
    ok (record s { next_sequence_recvs = put2 s.next_sequence_recvs port_id channel_id sequence })

  unfoldable pub set_next_sequence_ack : Store → Bytes → Bytes → ℕ → Try Bytes Store
  unfolding only_ibc_module put2
  set_next_sequence_ack s port_id channel_id sequence = do
    _ ← only_ibc_module s
    ok (record s { next_sequence_acks = put2 s.next_sequence_acks port_id channel_id sequence })

  unfoldable pub make_packet_commitment : PacketData → Bytes
  make_packet_commitment packet = chain.sha256 (
      uint64_to_big_endian packet.timeout_timestamp
      ++ (uint64_to_big_endian packet.timeout_height.revision_number
          ++ (uint64_to_big_endian packet.timeout_height.revision_height
              ++ chain.sha256 packet.payload)))

  unfoldable pub set_packet_commitment : Store → Bytes → Bytes → ℕ → PacketData → Try Bytes Store
  unfolding only_ibc_module put packet_commitment_key make_packet_commitment
  set_packet_commitment s port_id channel_id sequence packet = do
    _ ← only_ibc_module s
    ok (record s {
      commitments =
          put s.commitments (packet_commitment_key port_id channel_id sequence)
            (make_packet_commitment packet);
    })

  unfoldable pub delete_packet_commitment : Store → Bytes → Bytes → ℕ → Try Bytes Store
  unfolding only_ibc_module put packet_commitment_key
  delete_packet_commitment s port_id channel_id sequence = do
    _ ← only_ibc_module s
    ok (record s {
      commitments = put s.commitments (packet_commitment_key port_id channel_id sequence) zero_word;
    })

  -- The commitment, and whether it is not zero.
  unfoldable pub get_packet_commitment : Store → Bytes → Bytes → ℕ → Bytes × Bool
  unfolding packet_commitment_key
  get_packet_commitment s port_id channel_id sequence =
      let commitment = s.commitments (packet_commitment_key port_id channel_id sequence) in
      (commitment, not (same_string commitment zero_word))

  unfoldable pub set_packet_acknowledgement_commitment :
      Store → Bytes → Bytes → ℕ → Bytes → Try Bytes Store
  unfolding only_ibc_module put packet_acknowledgement_commitment_key
  set_packet_acknowledgement_commitment s port_id channel_id sequence acknowledgement = do
    _ ← only_ibc_module s
    ok (record s {
      commitments =
          put s.commitments (packet_acknowledgement_commitment_key port_id channel_id sequence)
            (chain.sha256 acknowledgement);
    })

  unfoldable pub get_packet_acknowledgement_commitment : Store → Bytes → Bytes → ℕ → Bytes × Bool
  unfolding packet_acknowledgement_commitment_key
  get_packet_acknowledgement_commitment s port_id channel_id sequence =
      let commitment =
        s.commitments (packet_acknowledgement_commitment_key port_id channel_id sequence) in
      (commitment, not (same_string commitment zero_word))

  unfoldable pub set_packet_receipt : Store → Bytes → Bytes → ℕ → Try Bytes Store
  unfolding only_ibc_module put2
  set_packet_receipt s port_id channel_id sequence = do
    _ ← only_ibc_module s
    ok (record s {
      packet_receipts =
          put2 s.packet_receipts port_id channel_id
            (λ n. if n == sequence then true else s.packet_receipts port_id channel_id n);
    })

  unfoldable pub generate_channel_identifier : Store → Try Bytes (Bytes × Store)
  unfolding only_ibc_module uint2str
  generate_channel_identifier s = do
    _ ← only_ibc_module s
    id ← uint2str s.next_channel_sequence
    ok (
      codes "channel-" ++ id,
      record s { next_channel_sequence = (s.next_channel_sequence + 1) % 2 ^ 64 },
    )

unfoldable pub get_channel : Store → Bytes → Bytes → ChannelData × Bool
get_channel s port_id channel_id =
    let channel = s.channels port_id channel_id in (channel, not (channel.state == 0))

unfoldable pub get_connection : Store → Bytes → ConnectionEndData × Bool
get_connection s connection_id =
    let connection = s.connections connection_id in (connection, not (connection.state == 0))

unfoldable pub get_client_impl : Store → Bytes → ℕ × Bool
get_client_impl s client_type =
    (s.client_registry client_type, not (s.client_registry client_type == 0))

unfoldable pub get_client_type : Store → Bytes → Bytes
get_client_type s client_id = s.client_types client_id

unfoldable pub get_next_sequence_send : Store → Bytes → Bytes → ℕ
get_next_sequence_send s port_id channel_id = s.next_sequence_sends port_id channel_id

unfoldable pub get_next_sequence_recv : Store → Bytes → Bytes → ℕ
get_next_sequence_recv s port_id channel_id = s.next_sequence_recvs port_id channel_id

unfoldable pub get_next_sequence_ack : Store → Bytes → Bytes → ℕ
get_next_sequence_ack s port_id channel_id = s.next_sequence_acks port_id channel_id

unfoldable pub has_packet_receipt : Store → Bytes → Bytes → ℕ → Bool
has_packet_receipt s port_id channel_id sequence = s.packet_receipts port_id channel_id sequence
