-- ===== src/Chains/Header.antt =====
-- pkg/chains/besu.go: `ParsedHeader`, `ParseHeader` and the two encodings of a header. The packages rlp and core/types of
-- go-ethereum are the record `Rlp`, an address is its 160-bit number.
use yui_ibc_solidity.Prelude.{ℕ, Bytes, List}
use yui_ibc_solidity.Prelude.Try.{Try, ok, ◌>>=◌}

abbrev pub Address : Type 0
Address = ℕ

pub record ParsedHeader (Header Vote : Type 0) : Type 0 where
  pub base : Header
  pub vanity : Bytes
  pub validators : List Address
  pub vote : Vote
  pub round : Bytes
  pub seals : List Bytes

-- `EncodeToBytes` of the lists and the header the code encodes, the stream's decoder at each type it is used at, and the
-- field Extra of a header.
pub record Rlp (E Header Vote Stream : Type 0) : Type 0 where
  pub encode_sealing : Bytes → List Address → Vote → Bytes → Try E Bytes
  pub encode_chain : Bytes → List Address → Vote → Try E Bytes
  pub encode_header : Header → Try E Bytes
  pub new_stream : Bytes → Stream
  pub list : Stream → Try E Stream
  pub decode_array : ℕ → Stream → Try E (Bytes × Stream)
  pub decode_addresses : Stream → Try E (List Address × Stream)
  pub decode_vote : Stream → Try E (Vote × Stream)
  pub decode_seals : Stream → Try E (List Bytes × Stream)
  pub list_end : Stream → Try E Stream
  pub extra : Header → Bytes
  pub with_extra : Header → Bytes → Header

module _ {E Header Vote Stream : Type 0} (rlp : Rlp E Header Vote Stream) where
  unfoldable pub parse_header : Header → Try E (ParsedHeader Header Vote)
  parse_header header = do
    s0 ← rlp.list (rlp.new_stream (rlp.extra header))
    (vanity, s1) ← rlp.decode_array 32 s0
    (validators, s2) ← rlp.decode_addresses s1
    (vote, s3) ← rlp.decode_vote s2
    (round, s4) ← rlp.decode_array 4 s3
    (seals, s5) ← rlp.decode_seals s4
    _ ← rlp.list_end s5
    ok (record {
      base = header;
      vanity = vanity;
      validators = validators;
      vote = vote;
      round = round;
      seals = seals;
    })

  unfoldable pub get_sealing_header_bytes : ParsedHeader Header Vote → Try E Bytes
  get_sealing_header_bytes h = do
    extra ← rlp.encode_sealing h.vanity h.validators h.vote h.round
    rlp.encode_header (rlp.with_extra h.base extra)

  unfoldable pub get_chain_header_bytes : ParsedHeader Header Vote → Try E Bytes
  get_chain_header_bytes h = do
    extra ← rlp.encode_chain h.vanity h.validators h.vote
    rlp.encode_header (rlp.with_extra h.base extra)
