-- ===== src/Tests/Commitments.antt =====
-- pkg/testing/types.go with a hash that keeps its input, and pkg/client/besu.go at a short revert reason.
use yui_ibc_solidity.Prelude.{
  ℕ, length, take, drop, ◌<◌, ◌%◌, ◌^◌, ◌+◌, ◌≡◌, ◌⊎◌, refl, arith, Bytes, [], ◌∷◌, replicate, ◌++◌,
  codes,
}
use yui_ibc_solidity.Channel.Packet.{Packet}
use yui_ibc_solidity.Commitment.Commit.{commit_packet}
use yui_ibc_solidity.Commitment.Binding.{SameCommitted, Collision, IsBounded, commit_packet-binding}
use yui_ibc_solidity.Client.RevertReason.{
  parsed, parse_revert_reason, revert_reason, parse_revert_reason-revert_reason,
  parse_revert_reason-panic, panic, set_bytes,
}

abbrev sent : ℕ → Packet
sent sequence = record {
  sequence = sequence;
  source_port = codes "transfer";
  source_channel = codes "channel-0";
  destination_port = codes "transfer";
  destination_channel = codes "channel-1";
  payload = 1 ∷ 2 ∷ [];
  timeout_height = record { revision_number = 0; revision_height = 1000 };
  timeout_timestamp = 9;
}

sent-IsBounded : (sequence : ℕ) → IsBounded (sent sequence)
sent-IsBounded sequence = record {
  timestamp = omega arith;
  revision_number = omega arith;
  revision_height = omega arith;
}

same_commitment : commit_packet (λ s. s) (sent 1) ≡ commit_packet (λ s. s) (sent 2)
unfolding commit_packet
same_commitment = refl

commit_packet-binding_example : SameCommitted (sent 1) (sent 2) ⊎ Collision (λ s. s)
commit_packet-binding_example =
    commit_packet-binding (λ s. s) (sent 1) (sent 2) (sent-IsBounded 1) (sent-IsBounded 2)
      same_commitment

abbrev size_2 : Bytes
size_2 = replicate 31 0 ++ (2 ∷ [])

size_word_2 : set_bytes 0 size_2 ≡ 2
unfolding set_bytes
size_word_2 = refl

parse_revert_reason-revert_reason_example :
    parse_revert_reason
      (revert_reason (8 ∷ 195 ∷ 121 ∷ 160 ∷ []) (replicate 32 0) size_2 (codes "no") (0 ∷ []))
      []
    ≡ parsed (codes "no")
parse_revert_reason-revert_reason_example =
    parse_revert_reason-revert_reason (8 ∷ 195 ∷ 121 ∷ 160 ∷ []) (replicate 32 0) size_2
      (codes "no") (0 ∷ []) [] refl refl refl size_word_2 (omega arith)

-- 70 bytes, of which the last of the size word is 9.
abbrev cut_off : Bytes
cut_off = replicate 67 0 ++ (9 ∷ 1 ∷ 2 ∷ [])

size_word_9 :
    length cut_off + length {A = ℕ} [] < 68 + set_bytes 0 (take 32 (drop 36 cut_off)) % 2 ^ 64
unfolding set_bytes
size_word_9 = omega arith

parse_revert_reason-panic_example : parse_revert_reason cut_off [] ≡ panic
parse_revert_reason-panic_example = parse_revert_reason-panic cut_off [] (omega arith) size_word_9
