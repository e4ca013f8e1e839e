-- ===== src/Tests/Blocks.antt =====
-- pkg/chains at four validators, where the first byte of a seal names its signer.
use yui_ibc_solidity.Prelude.{ℕ, ◌≡◌, refl, Bytes, Option, none, some, List, [], ◌∷◌}
use yui_ibc_solidity.Prelude.Try.{Try, ok, err}
use yui_ibc_solidity.Chains.Header.{ParsedHeader, Rlp, get_sealing_header_bytes}
use yui_ibc_solidity.Chains.Seals.{Crypto, insufficient_voting, validate_and_get_commit_seals}
use yui_ibc_solidity.Chains.SealsLaws.{certified, validate_and_get_commit_seals-certified}
use yui_ibc_solidity.Chains.Certificate.{Certificate, validate_and_get_commit_seals-Certificate}

abbrev first_byte : Bytes → Bytes → Try ℕ ℕ
first_byte hash [] = err 0
first_byte hash (b ∷ bs) = ok b

abbrev crypto : Crypto ℕ ℕ
crypto = record { sig_to_pub = first_byte; pubkey_to_address = λ key. key; keccak256 = λ s. s }

abbrev rlp : Rlp ℕ Bytes ℕ Bytes
rlp = record {
  encode_sealing = λ vanity validators vote round. ok (1 ∷ validators);
  encode_chain = λ vanity validators vote. ok validators;
  encode_header = λ header. ok (2 ∷ header);
  new_stream = λ s. s;
  list = λ s. ok s;
  decode_array = λ n s. ok (s, s);
  decode_addresses = λ s. ok (s, s);
  decode_vote = λ s. ok (0, s);
  decode_seals = λ s. ok ([], s);
  list_end = λ s. ok s;
  extra = λ header. header;
  with_extra = λ header extra. extra;
}

abbrev block : List Bytes → ParsedHeader Bytes ℕ
block seals = record {
  base = [];
  vanity = [];
  validators = 10 ∷ 11 ∷ 12 ∷ 13 ∷ [];
  vote = 0;
  round = [];
  seals = seals;
}

abbrev three_seals : List Bytes
three_seals = (13 ∷ 1 ∷ []) ∷ (10 ∷ []) ∷ (13 ∷ 2 ∷ []) ∷ (11 ∷ []) ∷ []

abbrev three_signed : List (Option Bytes)
three_signed = some (10 ∷ []) ∷ some (11 ∷ []) ∷ none ∷ some (13 ∷ 2 ∷ []) ∷ []

three_of_four : validate_and_get_commit_seals crypto rlp (block three_seals) ≡ ok three_signed
unfolding validate_and_get_commit_seals
three_of_four = refl

two_of_four :
    validate_and_get_commit_seals crypto rlp (block ((13 ∷ []) ∷ (10 ∷ []) ∷ []))
    ≡ err (insufficient_voting 2 2)
unfolding validate_and_get_commit_seals
two_of_four = refl

validate_and_get_commit_seals-certified_example :
    validate_and_get_commit_seals crypto rlp (block three_seals)
    ≡ certified crypto rlp (block three_seals)
validate_and_get_commit_seals-certified_example =
    validate_and_get_commit_seals-certified crypto rlp (block three_seals)

validate_and_get_commit_seals-Certificate_example :
    (header : Bytes) × (get_sealing_header_bytes rlp (block three_seals) ≡ ok header)
    × Certificate crypto header three_seals (10 ∷ 11 ∷ 12 ∷ 13 ∷ []) three_signed
validate_and_get_commit_seals-Certificate_example =
    validate_and_get_commit_seals-Certificate crypto rlp (block three_seals) three_of_four
