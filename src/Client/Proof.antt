-- ===== src/Client/Proof.antt =====
-- pkg/client/proof.go: `GetETHProof`, `getProof` and `encodeRLP`. The connection, the packages json, hex and rlp and
-- `Hash.UnmarshalText` are the record `Node`.
use yui_ibc_solidity.Prelude.{
  ℕ, Bytes, List, [], ◌∷◌, ◌++◌, ltb, if◌then◌else◌, length, drop, codes,
}
use yui_ibc_solidity.Prelude.Try.{Try, ok, err, ◌>>=◌}

pub record EthProof : Type 0 where
  pub account_proof_rlp : Bytes
  pub storage_proof_rlp : List Bytes

-- The JSON answer: the account's proof and one proof for each key, as hexadecimal strings.
pub record ProofJson : Type 0 where
  pub account_proof : List Bytes
  pub storage_proof : List (List Bytes)

-- An error of a package, or a runtime panic.
pub data ClientError (E : Type 0) : Type 0 where
  failed : E → ClientError E
  panic : ClientError E

abbrev pub or_failed : {E A : Type 0} → Try E A → Try (ClientError E) A
or_failed (ok a) = ok a
or_failed (err e) = err (failed e)

-- `if err != nil { panic(err) }`
abbrev pub or_panic : {E A : Type 0} → Try E A → Try (ClientError E) A
or_panic (ok a) = ok a
or_panic (err e) = err panic

pub record Node (E Hash : Type 0) : Type 0 where
  pub unmarshal_text : Bytes → Try E Hash
  pub call_get_proof : Bytes → List Hash → Bytes → Try E Bytes
  pub json_unmarshal : Bytes → Try E ProofJson
  pub hex_decode : Bytes → Try E Bytes
  pub rlp_decode : Bytes → Try E (List Bytes)
  pub rlp_encode : List (List Bytes) → Try E Bytes
  pub text_16 : ℕ → Bytes

module _ {E Hash : Type 0} (node : Node E Hash) where
  -- The loop over the proof's strings; `p[2:]` of a shorter string panics.
  unfoldable pub decode_nodes :
      List Bytes → List (List Bytes) → Try (ClientError E) (List (List Bytes))
  decode_nodes [] target = ok target
  decode_nodes (p ∷ ps) target =
      if ltb (length p) 2
      then err panic
      else (or_panic (node.hex_decode (drop 2 p)) >>= λ bz.
          or_panic (node.rlp_decode bz) >>= λ val. decode_nodes ps (target ++ (val ∷ [])))

  unfoldable pub encode_rlp : List Bytes → Try (ClientError E) Bytes
  unfolding decode_nodes
  encode_rlp proof = do target ← decode_nodes proof []; or_failed (node.rlp_encode target)

  -- The loop over the keys, at the hashes it has.
  unfoldable pub parse_keys : List Bytes → List Hash → Try (ClientError E) (List Hash)
  parse_keys [] hashes = ok hashes
  parse_keys (k ∷ ks) hashes =
      or_failed (node.unmarshal_text k) >>= λ h. parse_keys ks (hashes ++ (h ∷ []))

  unfoldable pub get_proof : Bytes → List Bytes → Bytes → Try (ClientError E) Bytes
  unfolding parse_keys
  get_proof address storage_keys block_number = do
    hashes ← parse_keys storage_keys []
    or_failed (node.call_get_proof address hashes block_number)

  -- `if err != nil { panic(err) }` around `encodeRLP`.
  abbrev pub panicking : {A : Type 0} → Try (ClientError E) A → Try (ClientError E) A
  panicking (ok a) = ok a
  panicking (err e) = err panic

  -- The loop over the storage proofs.
  unfoldable pub encode_storage : List (List Bytes) → List Bytes → Try (ClientError E) (List Bytes)
  unfolding encode_rlp
  encode_storage [] encoded = ok encoded
  encode_storage (p ∷ ps) encoded =
      panicking (encode_rlp p) >>= λ bz. encode_storage ps (encoded ++ (bz ∷ []))

  unfoldable pub get_eth_proof : Bytes → List Bytes → ℕ → Try (ClientError E) EthProof
  unfolding get_proof encode_rlp encode_storage
  get_eth_proof address storage_keys block_number = do
    bz ← get_proof address storage_keys (codes "0x" ++ node.text_16 block_number)
    proof ← or_failed (node.json_unmarshal bz)
    account_proof_rlp ← encode_rlp proof.account_proof
    storage_proof_rlp ← encode_storage proof.storage_proof []
    ok (record { account_proof_rlp = account_proof_rlp; storage_proof_rlp = storage_proof_rlp })
