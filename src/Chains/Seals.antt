-- ===== src/Chains/Seals.antt =====
-- pkg/chains/ether.go, and `ValidateAndGetCommitSeals` of pkg/chains/besu.go. The package crypto of go-ethereum is the
-- record `Crypto`; a Go map is an association list whose keys are different.
use yui_ibc_solidity.Prelude.{
  ℕ, ◌+◌, ◌*◌, ◌/◌, Bytes, List, [], ◌∷◌, ◌++◌, ◌==◌, ltb, if◌then◌else◌, Option, none, some,
  length,
}
use yui_ibc_solidity.Prelude.Try.{Try, ok, err, ◌>>=◌}
use yui_ibc_solidity.Chains.Header.{Address, ParsedHeader, Rlp, get_sealing_header_bytes}

pub record Crypto (E PublicKey : Type 0) : Type 0 where
  pub sig_to_pub : Bytes → Bytes → Try E PublicKey
  pub pubkey_to_address : PublicKey → Address
  pub keccak256 : Bytes → Bytes

abbrev pub Vals : Type 0
Vals = List (Address × Bytes)

-- `seal, ok := vals[val]` and `vals[addr] = seal`.
unfoldable pub get_val : Vals → Address → Option Bytes
get_val [] a = none
get_val ((b, s) ∷ vals) a = if b == a then some s else get_val vals a

unfoldable pub set_val : Vals → Address → Bytes → Vals
set_val [] a s = (a, s) ∷ []
set_val ((b, t) ∷ vals) a s = if b == a then (a, s) ∷ vals else (b, t) ∷ set_val vals a s

-- The errors of `ValidateAndGetCommitSeals`; `library` is one of go-ethereum.
pub data SealError (E : Type 0) : Type 0 where
  library : E → SealError E
  insufficient_voting : ℕ → ℕ → SealError E

abbrev pub library_result : {E A : Type 0} → Try E A → Try (SealError E) A
library_result (ok a) = ok a
library_result (err e) = err (library e)

-- The loop over the validators, at its count and its list of seals; none is a nil slice.
unfoldable pub collect_seals :
    Vals → List Address → ℕ → List (Option Bytes) → ℕ × List (Option Bytes)
unfolding get_val
collect_seals vals [] count new_seals = (count, new_seals)
collect_seals vals (val ∷ validators) count new_seals = elim (get_val vals val) [
  | some seal ↦ collect_seals vals validators (count + 1) (new_seals ++ (some seal ∷ []))
  | none ↦ collect_seals vals validators count (new_seals ++ (none ∷ []))
]

module _ {E PublicKey : Type 0} (crypto : Crypto E PublicKey) where
  unfoldable pub ec_recover_address : Bytes → Bytes → Try E Address
  ec_recover_address hash sig = do
    key ← crypto.sig_to_pub hash sig
    ok (crypto.pubkey_to_address key)

  -- The loop over the seals, at the map it has built.
  unfoldable pub recover_loop : Bytes → List Bytes → Vals → Try E Vals
  unfolding ec_recover_address set_val
  recover_loop header_hash [] vals = ok vals
  recover_loop header_hash (seal ∷ seals) vals = ec_recover_address header_hash seal >>= λ addr.
      recover_loop header_hash seals (set_val vals addr seal)

  unfoldable pub recover_committer_addresses_vals : Bytes → List Bytes → Try E Vals
  unfolding recover_loop
  recover_committer_addresses_vals header_hash seals = recover_loop header_hash seals []

  module _ {Header Vote Stream : Type 0} (rlp : Rlp E Header Vote Stream) where
    unfoldable pub validate_and_get_commit_seals :
        ParsedHeader Header Vote → Try (SealError E) (List (Option Bytes))
    unfolding get_sealing_header_bytes recover_committer_addresses_vals collect_seals
    validate_and_get_commit_seals h = do
      header ← library_result (get_sealing_header_bytes rlp h)
      vals ← library_result (recover_committer_addresses_vals (crypto.keccak256 header) h.seals)
      let (count, new_seals) = collect_seals vals h.validators 0 []
      let threshold = length h.validators * 2 / 3
      if ltb threshold count then ok new_seals else err (insufficient_voting count threshold)
