-- ===== src/Commitment/Commit.antt =====
-- pkg/testing/types.go: `commitPacket` and `commitAcknowledgement`. The hash sha256 is a parameter.
use yui_ibc_solidity.Prelude.{Bytes, ◌++◌}
use yui_ibc_solidity.Channel.Packet.{Packet}
use yui_ibc_solidity.Commitment.Uint64.{uint64_to_big_endian}

-- The fixed front of a preimage, three uint64s, and the hash of the payload behind it.
unfoldable pub preimage : (Bytes → Bytes) → Packet → Bytes
unfolding uint64_to_big_endian
preimage sha256 packet =
    ((uint64_to_big_endian packet.timeout_timestamp
        ++ uint64_to_big_endian packet.timeout_height.revision_number)
      ++ uint64_to_big_endian packet.timeout_height.revision_height)
    ++ sha256 packet.payload

unfoldable pub commit_packet : (Bytes → Bytes) → Packet → Bytes
unfolding preimage
commit_packet sha256 packet = sha256 (preimage sha256 packet)

unfoldable pub commit_acknowledgement : (Bytes → Bytes) → Bytes → Bytes
commit_acknowledgement sha256 acknowledgement = sha256 acknowledgement
