-- ===== src/Chains/Certificate.antt =====
-- pkg/chains: what a header's commit seals are evidence of.
use yui_ibc_solidity.Prelude.{
  ℕ, zero, suc, ◌*◌, ◌<◌, ◌≡◌, refl, sym, ap, ◌∙◌, arith, Bytes, List, [], ◌∷◌, Bool, true, false,
  ◌==◌, ltb, if◌then◌else◌, Option, none, some, length, get_elem?, map, subst, ltb→lt,
}
use yui_ibc_solidity.Prelude.Try.{Try, ok, err, >>=-eq_ok}
use yui_ibc_solidity.Chains.Header.{Address, ParsedHeader, Rlp, get_sealing_header_bytes}
use yui_ibc_solidity.Chains.Seals.{
  Crypto, Vals, SealError, library_result, ec_recover_address, validate_and_get_commit_seals,
}
use yui_ibc_solidity.Chains.SealsLaws.{
  or_else, last_seal, signed, quorum, signers, validate_and_get_commit_seals-certified,
}

-- Seals, one for each validator or none, for the hash of the sealing header.
pub record Certificate {E PublicKey : Type 0} (crypto : Crypto E PublicKey) (hash : Bytes)
    (seals : List Bytes) (validators : List Address) (result : List (Option Bytes)) : Type 0 where
  pub one_each : length result ≡ length validators
  pub two_thirds : 2 * length validators < 3 * signed result
  pub recovers :
      (i : ℕ) {v : Address} {s : Bytes}
      → get_elem? validators i ≡ some v
      → get_elem? result i ≡ some (some s)
      → (ec_recover_address crypto hash s ≡ ok v) × (j : ℕ) × (get_elem? seals j ≡ some s)

some_inj : {A : Type 0} {x y : A} → some x ≡ some y → x ≡ y
some_inj h = cc

ok_inj : {E A : Type 0} {x y : A} → ◌≡◌ {A = Try E A} (ok x) (ok y) → x ≡ y
ok_inj h = cc

length-map : {A B : Type 0} (f : A → B) (xs : List A) → length (map f xs) ≡ length xs
length-map f [] = refl
length-map f (x ∷ xs) = ap suc (length-map f xs)

get_elem?-map :
    {A B : Type 0} (f : A → B) (xs : List A) (i : ℕ) {x : A} {y : B}
    → get_elem? xs i ≡ some x
    → get_elem? (map f xs) i ≡ some y
    → f x ≡ y
get_elem?-map f [] i h1 h2 = cc
get_elem?-map f (z ∷ xs) zero {x} {y} h1 h2 = ap f (sym (some_inj h1)) ∙ some_inj h2
get_elem?-map f (z ∷ xs) (suc i) h1 h2 = get_elem?-map f xs i h1 h2

last_step :
    (b : Address) (t : Bytes) (ps : Vals) (a : Address) (o : Option Bytes) {s : Bytes}
    → ((r : Bytes) → o ≡ some r → (j : ℕ) × (get_elem? ps j ≡ some (a, r)))
    → or_else o (if b == a then some t else none) ≡ some s
    → (j : ℕ) × (get_elem? ((b, t) ∷ ps) j ≡ some (a, s))
last_step b t ps a (some r) {s} rest h = let (j, e) = rest s h in (suc j, e)
last_step b t ps a none rest h = (0, ground arith)

last_seal-In :
    (ps : Vals) (a : Address) {s : Bytes}
    → last_seal ps a ≡ some s
    → (j : ℕ) × (get_elem? ps j ≡ some (a, s))
unfolding last_seal
last_seal-In [] a h = cc
last_seal-In ((b, t) ∷ ps) a {s} h =
    last_step b t ps a (last_seal ps a) (λ r e. last_seal-In ps a e) h

checked :
    {E A : Type 0} (b : Bool) (x : A) (e : E) {r : A}
    → ◌≡◌ {A = Try E A} (if b then ok x else err e) (ok r)
    → (r ≡ x) × (b ≡ true)
checked true x e h = (sym (ok_inj h), refl)
checked false x e h = cc

quorum_sound :
    {E : Type 0} (vs : List Address) (ps : Vals) {r : List (Option Bytes)}
    → ◌≡◌ {A = Try (SealError E) (List (Option Bytes))} (quorum vs ps) (ok r)
    → (r ≡ map (last_seal ps) vs) × (2 * length vs < 3 * signed r)
unfolding quorum
quorum_sound vs ps {r} h =
    let (same, enough) = checked (ltb (2 * length vs) (3 * signed (map (last_seal ps) vs))) _ _ h in
    (same, subst (λ l. 2 * length vs < 3 * signed l) (sym same) (ltb→lt _ _ enough))

from_library : {E A : Type 0} (r : Try E A) {a : A} → library_result r ≡ ok a → r ≡ ok a
from_library (ok a) h = ap ok (ok_inj h)
from_library (err e) h = cc

module _ {E PublicKey : Type 0} (crypto : Crypto E PublicKey) where
  signer_step :
      (hash : Bytes) (seal : Bytes) (addr : Address) (qs : Vals) (seals : List Bytes) (j : ℕ)
      {a : Address} {s : Bytes}
      → ec_recover_address crypto hash seal ≡ ok addr
      → ((k : ℕ)
          → get_elem? qs k ≡ some (a, s)
          → (ec_recover_address crypto hash s ≡ ok a) × (get_elem? seals k ≡ some s))
      → get_elem? ((addr, seal) ∷ qs) j ≡ some (a, s)
      → (ec_recover_address crypto hash s ≡ ok a) × (get_elem? (seal ∷ seals) j ≡ some s)
  signer_step hash seal addr qs seals zero {a} {s} e1 rest e =
      let pair = some_inj e in
      (
        ap (λ x. ec_recover_address crypto hash x) (sym (ap (λ p. p.1) pair))
            ∙ e1
            ∙ ap ok (ap (λ p. p.0) pair),
        ap (λ p. some (p.1)) pair,
      )
  signer_step hash seal addr qs seals (suc j) e1 rest e = rest j e

  signers_sound :
      (hash : Bytes) (seals : List Bytes) {ps : Vals} (j : ℕ) {a : Address} {s : Bytes}
      → signers crypto hash seals ≡ ok ps
      → get_elem? ps j ≡ some (a, s)
      → (ec_recover_address crypto hash s ≡ ok a) × (get_elem? seals j ≡ some s)
  unfolding signers
  signers_sound hash [] j h e = cc
  signers_sound hash (seal ∷ seals) {ps} j h e =
      let (addr, e1, h1) = >>=-eq_ok (ec_recover_address crypto hash seal) _ h in
      let (qs, e2, h2) = >>=-eq_ok (signers crypto hash seals) _ h1 in
      signer_step hash seal addr qs seals j e1 (λ k. signers_sound hash seals k e2)
        (ap (λ l. get_elem? l j) (ok_inj h2) ∙ e)

  certify :
      (hash : Bytes) (seals : List Bytes) (vs : List Address) (ps : Vals)
      → signers crypto hash seals ≡ ok ps
      → 2 * length vs < 3 * signed (map (last_seal ps) vs)
      → Certificate crypto hash seals vs (map (last_seal ps) vs)
  certify hash seals vs ps e enough = record {
    one_each = length-map (last_seal ps) vs;
    two_thirds = enough;
    recovers = λ i {v} {s} e1 e2.
        let (j, e3) = last_seal-In ps v (get_elem?-map (last_seal ps) vs i e1 e2) in
        let (signed_by, e4) = signers_sound hash seals j e e3 in (signed_by, j, e4);
  }

  module _ {Header Vote Stream : Type 0} (rlp : Rlp E Header Vote Stream) where
    -- Seals that `ValidateAndGetCommitSeals` returns are a certificate: one entry per validator, more than two thirds of
    -- them present, and each entry a seal of the header from which the validator's address is recovered.
    pub validate_and_get_commit_seals-Certificate :
        (h : ParsedHeader Header Vote) {result : List (Option Bytes)}
        → validate_and_get_commit_seals crypto rlp h ≡ ok result
        → (header : Bytes) × (get_sealing_header_bytes rlp h ≡ ok header)
          × Certificate crypto (crypto.keccak256 header) h.seals h.validators result
    validate_and_get_commit_seals-Certificate h {result} e =
        let (header, e1, h1) =
          >>=-eq_ok (library_result (get_sealing_header_bytes rlp h)) _
            (sym (validate_and_get_commit_seals-certified crypto rlp h) ∙ e) in
        let (ps, e2, h2) =
          >>=-eq_ok (library_result (signers crypto (crypto.keccak256 header) h.seals)) _ h1 in
        let (same, enough) = quorum_sound h.validators ps h2 in
        (
          header,
          from_library _ e1,
          subst (Certificate crypto (crypto.keccak256 header) h.seals h.validators) (sym same) (
              certify (crypto.keccak256 header) h.seals h.validators ps (from_library _ e2)
                (subst (λ l. 2 * length h.validators < 3 * signed l) same enough)),
        )
