-- ===== src/Tests/Relays.antt =====
-- pkg/client and pkg/testing at a node of one block, whose packages return what they are given.
use yui_ibc_solidity.Prelude.{
  ℕ, ◌≡◌, ◌≢◌, refl, ap, arith, Bytes, List, [], ◌∷◌, ◌++◌, Bool, true, Option, none, some, codes,
  length,
}
use yui_ibc_solidity.Prelude.Try.{Try, ok, err}
use yui_ibc_solidity.Channel.Packet.{Packet}
use yui_ibc_solidity.Ibft2.Header as HeaderCodec
use yui_ibc_solidity.Ibft2.ClientState as ClientStateCodec
use yui_ibc_solidity.Ibft2.ClientState.{ClientState}
use yui_ibc_solidity.Chains.Header.{ParsedHeader, Rlp, get_sealing_header_bytes}
use yui_ibc_solidity.Chains.Seals.{Crypto}
use yui_ibc_solidity.Client.Proof.{EthProof, Node, get_eth_proof}
use yui_ibc_solidity.Client.State.{ibft2, Blocks, besu_ibft2_client, get_contract_state}
use yui_ibc_solidity.Client.StateLaws.{Sealed, get_contract_state-Sealed}
use yui_ibc_solidity.Client.ProofLaws.{Reencoded, get_eth_proof-Reencoded}
use yui_ibc_solidity.Relay.Any.{
  Any, AnyCodec, unexpected_type, type_url_of, marshal_with_any, unmarshal_with_any,
}
use yui_ibc_solidity.Relay.AnyLaws.{
  IsFaithful, unmarshal_with_any-marshal_with_any, unmarshal_with_any-other,
}
use yui_ibc_solidity.Relay.UpdateClient.{
  header_message, client_state_message, MsgUpdateClient, get_ibft2_client_state,
  construct_ibft2_msg_update_client,
}
use yui_ibc_solidity.Relay.UpdateClientLaws.{
  update_header, construct_ibft2_msg_update_client-header,
}
use yui_ibc_solidity.Relay.FindPacket.{
  panic, packet_not_found, FilterQuery, SentValue, Value, sent, other, find_packet,
}
use yui_ibc_solidity.Relay.FindPacketLaws.{
  First, NoneAsked, all_sent, find_packet-First, find_packet-NoneAsked,
}

abbrev node : Node ℕ Bytes
node = record {
  unmarshal_text = λ k. ok k;
  call_get_proof = λ address hashes number. ok number;
  json_unmarshal = λ bz.
      ok
        (record { account_proof = codes "0x1" ∷ []; storage_proof = (codes "0x2" ∷ []) ∷ [] ∷ [] });
  hex_decode = λ s. ok s;
  rlp_decode = λ s. ok (s ∷ []);
  rlp_encode = λ nodes. ok (length nodes ∷ []);
  text_16 = λ n. n ∷ [];
}

abbrev storage_proofs : EthProof
storage_proofs = record { account_proof_rlp = 1 ∷ []; storage_proof_rlp = (1 ∷ []) ∷ (0 ∷ []) ∷ [] }

two_proofs : get_eth_proof node [] ((5 ∷ []) ∷ []) 7 ≡ ok storage_proofs
unfolding get_eth_proof
two_proofs = refl

get_eth_proof-Reencoded_example : Reencoded node [] ((5 ∷ []) ∷ []) 7 storage_proofs
get_eth_proof-Reencoded_example = get_eth_proof-Reencoded node [] ((5 ∷ []) ∷ []) 7 two_proofs

abbrev blocks : Blocks ℕ Bytes ℕ
blocks = record { block_by_number = λ bn. ok 7; block_header = λ b. b ∷ []; block_number = λ b. b }

abbrev first_byte : Bytes → Bytes → Try ℕ ℕ
first_byte hash [] = err 0
first_byte hash (b ∷ bs) = ok b

abbrev crypto : Crypto ℕ ℕ
crypto = record { sig_to_pub = first_byte; pubkey_to_address = λ key. key; keccak256 = λ s. s }

abbrev rlp : Rlp ℕ Bytes ℕ Bytes
rlp = record {
  encode_sealing = λ vanity validators vote round. ok (1 ∷ validators);
  encode_chain = λ vanity validators vote. ok validators;
  encode_header = λ header. ok (2 ∷ header);
  new_stream = λ s. s;
  list = λ s. ok s;
  decode_array = λ n s. ok ([], s);
  decode_addresses = λ s. ok (10 ∷ 11 ∷ [], s);
  decode_vote = λ s. ok (0, s);
  decode_seals = λ s. ok ((11 ∷ []) ∷ (10 ∷ []) ∷ [], s);
  list_end = λ s. ok s;
  extra = λ header. header;
  with_extra = λ header extra. extra;
}

abbrev parsed_block : ParsedHeader Bytes ℕ
parsed_block = record {
  base = 7 ∷ [];
  vanity = [];
  validators = 10 ∷ 11 ∷ [];
  vote = 0;
  round = [];
  seals = (11 ∷ []) ∷ (10 ∷ []) ∷ [];
}

abbrev both_seals : List (Option Bytes)
both_seals = some (10 ∷ []) ∷ some (11 ∷ []) ∷ []

latest_state :
    get_contract_state node blocks rlp crypto besu_ibft2_client [] ((5 ∷ []) ∷ []) none
    ≡ ok (ibft2 parsed_block storage_proofs both_seals)
unfolding get_contract_state
latest_state = refl

get_contract_state-Sealed_example :
    Sealed node blocks rlp crypto []
      ((5 ∷ []) ∷ [])
      none
      (ibft2 parsed_block storage_proofs both_seals)
get_contract_state-Sealed_example =
    get_contract_state-Sealed node blocks rlp crypto [] ((5 ∷ []) ∷ []) none latest_state

-- A codec of Any that puts the length of the type URL in front.
abbrev split_at : ℕ → Bytes → Bytes × Bytes
split_at Prim.Native.Nat.zero s = ([], s)
split_at (Prim.Native.Nat.suc n) [] = ([], [])
split_at (Prim.Native.Nat.suc n) (c ∷ s) = let (a, b) = split_at n s in (c ∷ a, b)

abbrev read_any : Bytes → Try ℕ Any
read_any [] = err 0
read_any (n ∷ s) = let (a, b) = split_at n s in ok (record { type_url = a; value = b })

abbrev any_codec : AnyCodec ℕ
any_codec = record {
  marshal_any = λ a. ok (length a.type_url ∷ (a.type_url ++ a.value));
  unmarshal_any = read_any;
}

split_at-append : (a b : Bytes) → split_at (length a) (a ++ b) ≡ (a, b)
split_at-append [] b = refl
split_at-append (c ∷ a) b = rw (split_at-append a b) refl

any_codec-IsFaithful : IsFaithful any_codec
any_codec-IsFaithful a = (
  length a.type_url ∷ (a.type_url ++ a.value),
  refl,
  rw (split_at-append a.type_url a.value) refl,
)

abbrev trusted : ClientState
trusted = record { chain_id = codes "2018"; ibc_store_address = 1 ∷ []; latest_height = 6 }

trusted_fits : client_state_message.Fits trusted
unfolding ClientStateCodec.size yui_ibc_solidity.Wire.Writer.size_uint
    yui_ibc_solidity.Wire.Writer.size_bytes yui_ibc_solidity.Wire.Writer.bit_length
trusted_fits = (record { latest_height = omega arith }, omega arith)

unmarshal_with_any-marshal_with_any_example :
    (bs : Bytes) × (marshal_with_any any_codec client_state_message trusted ≡ ok bs)
    × (unmarshal_with_any any_codec client_state_message bs ≡ ok trusted)
unmarshal_with_any-marshal_with_any_example =
    unmarshal_with_any-marshal_with_any any_codec any_codec-IsFaithful client_state_message trusted
      trusted_fits

different_names : client_state_message.message_name ≢ header_message.message_name
different_names e = let longer = ap (λ (s : Bytes). length s) e in omega arith

unmarshal_with_any-other_example :
    (bs : Bytes) × (marshal_with_any any_codec client_state_message trusted ≡ ok bs)
    × (unmarshal_with_any any_codec header_message bs
        ≡ err (
            unexpected_type
              (type_url_of any_codec header_message)
              (type_url_of any_codec client_state_message)))
unmarshal_with_any-other_example =
    unmarshal_with_any-other any_codec any_codec-IsFaithful client_state_message header_message
      trusted trusted_fits different_names

-- The client state that the contract stores.
abbrev stored : Bytes
stored =
    length (type_url_of any_codec client_state_message)
    ∷ (type_url_of any_codec client_state_message
        ++ (0x0a ∷ 4 ∷ (codes "2018" ++ (0x12 ∷ 1 ∷ 1 ∷ 0x18 ∷ 6 ∷ []))))

abbrev get_client_state : Bytes → Try ℕ (Bytes × Bool)
get_client_state client_id = ok (stored, true)

stored_state : get_ibft2_client_state any_codec rlp get_client_state (codes "client-0") ≡ ok trusted
unfolding get_ibft2_client_state unmarshal_with_any ClientStateCodec.unmarshal
    yui_ibc_solidity.Wire.Reader.unmarshal ClientStateCodec.switch
    yui_ibc_solidity.Wire.Reader.case_bytes yui_ibc_solidity.Wire.Reader.case_uint
stored_state = refl

sealing_bytes : get_sealing_header_bytes rlp parsed_block ≡ ok (2 ∷ 1 ∷ 10 ∷ 11 ∷ [])
unfolding get_sealing_header_bytes
sealing_bytes = refl

update_fits : header_message.Fits (update_header (2 ∷ 1 ∷ 10 ∷ 11 ∷ []) both_seals 6 (1 ∷ []))
unfolding HeaderCodec.size yui_ibc_solidity.Wire.Writer.size_uint
    yui_ibc_solidity.Wire.Writer.size_bytes yui_ibc_solidity.Wire.Writer.size_repeated
    yui_ibc_solidity.Wire.Writer.bit_length
update_fits = (record { trusted_height = omega arith }, omega arith)

construct_ibft2_msg_update_client-header_example :
    (msg : MsgUpdateClient) × (construct_ibft2_msg_update_client any_codec rlp get_client_state
        (ibft2 parsed_block storage_proofs both_seals)
        (codes "client-0")
      ≡ ok msg)
    × (msg.client_id ≡ codes "client-0")
    × (unmarshal_with_any any_codec header_message msg.header
        ≡ ok (update_header (2 ∷ 1 ∷ 10 ∷ 11 ∷ []) both_seals 6 (1 ∷ [])))
construct_ibft2_msg_update_client-header_example =
    construct_ibft2_msg_update_client-header any_codec any_codec-IsFaithful rlp get_client_state
      parsed_block storage_proofs both_seals (codes "client-0") trusted (2 ∷ 1 ∷ 10 ∷ 11 ∷ [])
      stored_state sealing_bytes update_fits

abbrev sent_packet : ℕ → Packet
sent_packet sequence = record {
  sequence = sequence;
  source_port = codes "transfer";
  source_channel = codes "channel-0";
  destination_port = codes "transfer";
  destination_channel = codes "channel-1";
  payload = sequence ∷ [];
  timeout_height = record { revision_number = 0; revision_height = 1000 };
  timeout_timestamp = 0;
}

abbrev sent_value : ℕ → SentValue
sent_value sequence = record {
  sequence = sequence;
  source_port = codes "transfer";
  source_channel = codes "channel-0";
  destination_port = codes "transfer";
  destination_channel = codes "channel-1";
  payload = sequence ∷ [];
  timeout_height = record { revision_number = 0; revision_height = 1000 };
  timeout_timestamp = 0;
}

abbrev unpack : ℕ → Try ℕ (List Value)
unpack n = ok (sent (sent_value n) ∷ [])

-- A node that has logs of one handler only.
abbrev filter_logs : List ℕ → FilterQuery ℕ → Try ℕ (List ℕ)
filter_logs logs query = ok logs

third_packet :
    find_packet unpack
      (filter_logs (1 ∷ 2 ∷ 3 ∷ 3 ∷ []))
      77
      5
      (codes "transfer")
      (codes "channel-0")
      3
    ≡ ok (sent_packet 3)
unfolding find_packet
third_packet = refl

other_value :
    find_packet {E = ℕ}
      (λ (log : ℕ). ok (other ∷ []))
      (filter_logs (1 ∷ []))
      77
      5
      (codes "transfer")
      (codes "channel-0")
      3
    ≡ err panic
unfolding find_packet
other_value = refl

find_packet-First_example :
    (logs : List ℕ) × (filter_logs (1 ∷ 2 ∷ 3 ∷ 3 ∷ []) (
        all_sent unpack
          (codes "transfer")
          (codes "channel-0")
          3
          (filter_logs (1 ∷ 2 ∷ 3 ∷ 3 ∷ []))
          77
          5)
      ≡ ok logs)
    × First unpack (codes "transfer") (codes "channel-0") 3 logs (sent_packet 3)
find_packet-First_example =
    find_packet-First unpack (codes "transfer") (codes "channel-0") 3
      (filter_logs (1 ∷ 2 ∷ 3 ∷ 3 ∷ [])) 77 5 third_packet

none_ninth : NoneAsked (codes "transfer") (codes "channel-0") 9 (sent_value 1 ∷ sent_value 2 ∷ [])
none_ninth = ((λ h. omega (arith, h.2)), ((λ h. omega (arith, h.2)), tt))

find_packet-NoneAsked_example :
    find_packet unpack (filter_logs (1 ∷ 2 ∷ [])) 77 5 (codes "transfer") (codes "channel-0") 9
    ≡ err (packet_not_found (codes "transfer") (codes "channel-0") 9)
find_packet-NoneAsked_example =
    find_packet-NoneAsked unpack (codes "transfer") (codes "channel-0") 9 (filter_logs (1 ∷ 2 ∷ []))
      77 5 (1 ∷ 2 ∷ []) (sent_value 1 ∷ sent_value 2 ∷ []) refl (([], refl), (([], refl), tt))
      none_ninth
