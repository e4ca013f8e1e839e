-- ===== src/Client/ProofLaws.antt =====
-- pkg/client/proof.go: what `GetETHProof` asks the node for, and what it makes of the answer.
use yui_ibc_solidity.Prelude.{
  ℕ, ◌≤◌, ◌≡◌, refl, sym, ap, ◌∙◌, arith, Bytes, List, [], ◌∷◌, ◌++◌, map, append_assoc, append-nil,
  subst, Bool, if◌then◌else◌, false, Bool-cases, inl, inr, ltb, length, drop, codes,
}
use yui_ibc_solidity.Prelude.Try.{Try, ok, err, >>=-eq_ok}
use yui_ibc_solidity.Client.Proof.{
  EthProof, ProofJson, ClientError, panic, or_failed, or_panic, panicking, Node, decode_nodes,
  encode_rlp, encode_storage, parse_keys, get_proof, get_eth_proof,
}

pub ok_inj : {E A : Type 0} {x y : A} → ◌≡◌ {A = Try E A} (ok x) (ok y) → x ≡ y
ok_inj h = cc

err-ne-ok : {E A : Type 0} {e : E} {x : A} → ◌≡◌ {A = Try E A} (err e) (ok x) → ⊥
err-ne-ok h = cc

from_false :
    {A : Type 0} (b : Bool) (x : A) {y r : A} → b ≡ false → (if b then x else y) ≡ r → y ≡ r
from_false b x f h = sym (rw (f) refl) ∙ h

pub from_failed : {E A : Type 0} (r : Try E A) {a : A} → or_failed r ≡ ok a → r ≡ ok a
from_failed (ok a) h = ap ok (ok_inj h)
from_failed (err e) h = cc

from_or_panic : {E A : Type 0} (r : Try E A) {a : A} → or_panic r ≡ ok a → r ≡ ok a
from_or_panic (ok a) h = ap ok (ok_inj h)
from_or_panic (err e) h = cc

from_panicking :
    {E Hash A : Type 0} (node : Node E Hash) (r : Try (ClientError E) A) {a : A}
    → panicking node r ≡ ok a
    → r ≡ ok a
from_panicking node (ok a) h = ap ok (ok_inj h)
from_panicking node (err e) h = cc

-- Strings of a proof, and the node of the trie that each stands for: the RLP in hexadecimal after two characters.
pub data Decoded {E Hash : Type 0} (node : Node E Hash)
    : List Bytes → List (List Bytes) → Type 0 where
  no_nodes : Decoded node [] []
  a_node :
      {p bz : Bytes} {val : List Bytes} {ps : List Bytes} {vals : List (List Bytes)}
      → 2 ≤ length p
      → node.hex_decode (drop 2 p) ≡ ok bz
      → node.rlp_decode bz ≡ ok val
      → Decoded node ps vals
      → Decoded node (p ∷ ps) (val ∷ vals)

-- A proof's strings, and the RLP of the list of their nodes.
pub record Encoded {E Hash : Type 0} (node : Node E Hash) (proof : List Bytes) (out : Bytes)
    : Type 0 where
  pub nodes : List (List Bytes)
  pub decoded : Decoded node proof nodes
  pub encoded : node.rlp_encode nodes ≡ ok out

pub data EachEncoded {E Hash : Type 0} (node : Node E Hash)
    : List (List Bytes) → List Bytes → Type 0 where
  no_proofs : EachEncoded node [] []
  a_proof :
      {p : List Bytes} {out : Bytes} {ps : List (List Bytes)} {outs : List Bytes}
      → Encoded node p out
      → EachEncoded node ps outs
      → EachEncoded node (p ∷ ps) (out ∷ outs)

-- The node's answer for the account, the hashes of the keys and the block, and the proof that is made of it.
pub record Reencoded {E Hash : Type 0} (node : Node E Hash) (address : Bytes)
    (storage_keys : List Bytes) (block_number : ℕ) (proof : EthProof) : Type 0 where
  pub hashes : List Hash
  pub answer : Bytes
  pub json : ProofJson
  pub keys : map node.unmarshal_text storage_keys ≡ map ok hashes
  pub asked :
      node.call_get_proof address hashes (codes "0x" ++ node.text_16 block_number) ≡ ok answer
  pub read : node.json_unmarshal answer ≡ ok json
  pub account : Encoded node json.account_proof proof.account_proof_rlp
  pub storage : EachEncoded node json.storage_proof proof.storage_proof_rlp

module _ {E Hash : Type 0} (node : Node E Hash) where
  decode_nodes-Decoded :
      (ps : List Bytes) (target : List (List Bytes)) {out : List (List Bytes)}
      → decode_nodes node ps target ≡ ok out
      → (vals : List (List Bytes)) × (out ≡ target ++ vals) × Decoded node ps vals
  unfolding decode_nodes
  decode_nodes-Decoded [] target e = ([], sym (ok_inj e) ∙ sym (append-nil target), no_nodes)
  decode_nodes-Decoded (p ∷ ps) target {out} e = elim (Bool-cases (ltb (length p) 2)) [
    | inl t ↦ absurd (err-ne-ok {e = panic} (sym (rw (t) refl) ∙ e))
    | inr f ↦
        let (bz, e1, h1) =
          >>=-eq_ok (or_panic (node.hex_decode (drop 2 p))) _
            (from_false (ltb (length p) 2) _ f e) in
        let (val, e2, h2) = >>=-eq_ok (or_panic (node.rlp_decode bz)) _ h1 in
        let (vals, e3, later) = decode_nodes-Decoded ps (target ++ (val ∷ [])) h2 in
        (
          val ∷ vals,
          e3 ∙ append_assoc target (val ∷ []) vals,
          a_node (ground (arith, f)) (from_or_panic _ e1) (from_or_panic _ e2) later,
        )
  ]

  encode_rlp-Encoded :
      (p : List Bytes) {out : Bytes} → encode_rlp node p ≡ ok out → Encoded node p out
  unfolding encode_rlp
  encode_rlp-Encoded p e =
      let (target, e1, h1) = >>=-eq_ok (decode_nodes node p []) _ e in
      let (vals, e2, decoded) = decode_nodes-Decoded p [] e1 in
      record {
        nodes = vals;
        decoded = decoded;
        encoded = ap node.rlp_encode (sym e2) ∙ from_failed _ h1;
      }

  encode_storage-EachEncoded :
      (ps : List (List Bytes)) (encoded : List Bytes) {out : List Bytes}
      → encode_storage node ps encoded ≡ ok out
      → (more : List Bytes) × (out ≡ encoded ++ more) × EachEncoded node ps more
  unfolding encode_storage
  encode_storage-EachEncoded [] encoded e =
      ([], sym (ok_inj e) ∙ sym (append-nil encoded), no_proofs)
  encode_storage-EachEncoded (p ∷ ps) encoded e =
      let (bz, e1, h1) = >>=-eq_ok (panicking node (encode_rlp node p)) _ e in
      let (more, e2, later) = encode_storage-EachEncoded ps (encoded ++ (bz ∷ [])) h1 in
      (
        bz ∷ more,
        e2 ∙ append_assoc encoded (bz ∷ []) more,
        a_proof (encode_rlp-Encoded p (from_panicking node _ e1)) later,
      )

  parse_keys-map :
      (ks : List Bytes) (hashes : List Hash) {out : List Hash}
      → parse_keys node ks hashes ≡ ok out
      → (more : List Hash) × (out ≡ hashes ++ more) × (map node.unmarshal_text ks ≡ map ok more)
  unfolding parse_keys
  parse_keys-map [] hashes e = ([], sym (ok_inj e) ∙ sym (append-nil hashes), refl)
  parse_keys-map (k ∷ ks) hashes e =
      let (h, e1, h1) = >>=-eq_ok (or_failed (node.unmarshal_text k)) _ e in
      let (more, e2, e3) = parse_keys-map ks (hashes ++ (h ∷ [])) h1 in
      (h ∷ more, e2 ∙ append_assoc hashes (h ∷ []) more, rw (from_failed _ e1, e3) refl)

  get_proof-keys :
      (address : Bytes) (storage_keys : List Bytes) (number : Bytes) {answer : Bytes}
      → get_proof node address storage_keys number ≡ ok answer
      → (hashes : List Hash) × (map node.unmarshal_text storage_keys ≡ map ok hashes)
        × (node.call_get_proof address hashes number ≡ ok answer)
  unfolding get_proof
  get_proof-keys address storage_keys number e =
      let (hashes, e1, h1) = >>=-eq_ok (parse_keys node storage_keys []) _ e in
      let (more, e2, e3) = parse_keys-map storage_keys [] e1 in
      (more, e3, ap (λ hs. node.call_get_proof address hs number) (sym e2) ∙ from_failed _ h1)

  -- What `GetETHProof` returns is made of the node's answer for the account, the hashes of all storage keys in order and
  -- the block's number: for the account proof, and for each storage proof in order, the RLP of the list of the nodes that
  -- the proof's strings stand for, in order, each string being the hexadecimal RLP of its node after two characters.
  pub get_eth_proof-Reencoded :
      (address : Bytes) (storage_keys : List Bytes) (block_number : ℕ) {proof : EthProof}
      → get_eth_proof node address storage_keys block_number ≡ ok proof
      → Reencoded node address storage_keys block_number proof
  unfolding get_eth_proof
  get_eth_proof-Reencoded address storage_keys block_number {proof} e =
      let number = codes "0x" ++ node.text_16 block_number in
      let (answer, e0, h0) = >>=-eq_ok (get_proof node address storage_keys number) _ e in
      let (json, e1, h1) = >>=-eq_ok (or_failed (node.json_unmarshal answer)) _ h0 in
      let (account, e2, h2) = >>=-eq_ok (encode_rlp node json.account_proof) _ h1 in
      let (storage, e3, h3) = >>=-eq_ok (encode_storage node json.storage_proof []) _ h2 in
      let (more, e4, each) = encode_storage-EachEncoded json.storage_proof [] e3 in
      let (hashes, e5, e6) = get_proof-keys address storage_keys number e0 in
      let storage_eq = sym e4 ∙ ap (λ q. q.storage_proof_rlp) (ok_inj h3) in
      record {
        hashes = hashes;
        answer = answer;
        json = json;
        keys = e5;
        asked = e6;
        read = from_failed _ e1;
        account =
            encode_rlp-Encoded json.account_proof
              (e2 ∙ ap (λ q. ok q.account_proof_rlp) (ok_inj h3));
        storage = subst (EachEncoded node json.storage_proof) storage_eq each;
      }
