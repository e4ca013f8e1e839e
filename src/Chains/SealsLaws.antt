-- ===== src/Chains/SealsLaws.antt =====
-- pkg/chains: what the commit seals of `ValidateAndGetCommitSeals` certify.
use yui_ibc_solidity.Prelude.{
  ℕ, suc, ◌+◌, ◌*◌, ◌/◌, ◌≡◌, refl, ap, ◌∙◌, ◌⊎◌, arith, Bytes, List, [], ◌∷◌, ◌++◌, Bool, true,
  false, ◌==◌, ltb, if◌then◌else◌, Option, none, some, length, map, append_assoc, append-nil, inl,
  inr,
}
use yui_ibc_solidity.Prelude.Try.{Try, ok, err, ◌>>=◌, >>=-assoc, >>=-ap}
use yui_ibc_solidity.Chains.Header.{Address, ParsedHeader, Rlp, get_sealing_header_bytes}
use yui_ibc_solidity.Chains.Seals.{
  Crypto, Vals, get_val, set_val, SealError, insufficient_voting, library_result, collect_seals,
  ec_recover_address, recover_loop, recover_committer_addresses_vals, validate_and_get_commit_seals,
}

-- The seals with their signers, in order, and the last seal of a signer.
pub Option-cases : {A : Type 0} (o : Option A) → ((a : A) × (o ≡ some a)) ⊎ (o ≡ none)
Option-cases (some a) = inl (a, refl)
Option-cases none = inr refl

abbrev pub or_else : {A : Type 0} → Option A → Option A → Option A
or_else (some a) o = some a
or_else none o = o

unfoldable pub last_seal : Vals → Address → Option Bytes
last_seal [] a = none
last_seal ((b, s) ∷ ps) a = or_else (last_seal ps a) (if b == a then some s else none)

abbrev set_all : Vals → Vals → Vals
set_all vals [] = vals
set_all vals ((a, s) ∷ ps) = set_all (set_val vals a s) ps

get_val-set_val :
    (vals : Vals) (a : Address) (s : Bytes) (b : Address)
    → get_val (set_val vals a s) b ≡ (if a == b then some s else get_val vals b)
unfolding get_val set_val
get_val-set_val [] a s b = refl
get_val-set_val ((c, t) ∷ vals) a s b = ground (arith, get_val-set_val vals a s b)

or_else_assoc : {A : Type 0} (x y z : Option A) → or_else x (or_else y z) ≡ or_else (or_else x y) z
or_else_assoc (some x) y z = refl
or_else_assoc none y z = refl

or_else-if :
    {A : Type 0} (b : Bool) (x : A) (z : Option A)
    → (if b then some x else z) ≡ or_else (if b then some x else none) z
or_else-if true x z = refl
or_else-if false x z = refl

get_val-set_all :
    (vals ps : Vals) (b : Address)
    → get_val (set_all vals ps) b ≡ or_else (last_seal ps b) (get_val vals b)
unfolding last_seal
get_val-set_all vals [] b = refl
get_val-set_all vals ((a, s) ∷ ps) b =
    get_val-set_all (set_val vals a s) ps b
    ∙ ap (or_else (last_seal ps b)) (get_val-set_val vals a s b ∙ or_else-if (a == b) s _)
    ∙ or_else_assoc (last_seal ps b) _ _

-- How many validators have a seal.
abbrev pub signed : List (Option Bytes) → ℕ
signed [] = 0
signed (some s ∷ os) = suc (signed os)
signed (none ∷ os) = signed os

append_one :
    {A : Type 0} (xs : List A) (x : A) (ys : List A) → (xs ++ (x ∷ [])) ++ ys ≡ xs ++ x ∷ ys
append_one xs x ys = append_assoc xs (x ∷ []) ys

signed-cons :
    (count : ℕ) (o : Option Bytes) (os : List (Option Bytes))
    → count + signed (o ∷ []) + signed os ≡ count + signed (o ∷ os)
signed-cons count (some s) os = omega arith
signed-cons count none os = omega arith

collect_step :
    (vals : Vals) (v : Address) (vs : List Address) (count : ℕ) (seals : List (Option Bytes))
    (o : Option Bytes)
    → get_val vals v ≡ o
    → collect_seals vals (v ∷ vs) count seals
      ≡ collect_seals vals vs (count + signed (o ∷ [])) (seals ++ (o ∷ []))
unfolding collect_seals
collect_step vals v vs count seals (some s) e = ground arith
collect_step vals v vs count seals none e = ground arith

collect_seals-eq :
    (vals : Vals) (vs : List Address) (count : ℕ) (seals : List (Option Bytes))
    → collect_seals vals vs count seals
      ≡ (count + signed (map (get_val vals) vs), seals ++ map (get_val vals) vs)
unfolding collect_seals
collect_seals-eq vals [] count seals = rw (append-nil seals) (ap (λ n. (n, seals)) (omega arith))
collect_seals-eq vals (v ∷ vs) count seals =
    collect_step vals v vs count seals (get_val vals v) refl
    ∙ collect_seals-eq vals vs _ _
    ∙ ap (λ n. (n, (seals ++ (get_val vals v ∷ [])) ++ map (get_val vals) vs))
        (signed-cons count (get_val vals v) (map (get_val vals) vs))
    ∙ ap (λ l. (count + signed (get_val vals v ∷ map (get_val vals) vs), l))
        (append_one seals (get_val vals v) _)

map_ext : {A B : Type 0} (f g : A → B) (xs : List A) → ((a : A) → f a ≡ g a) → map f xs ≡ map g xs
map_ext f g [] h = refl
map_ext f g (x ∷ xs) h = rw (h x, map_ext f g xs h) refl

-- The last seal of each validator, when more than two thirds of the validators have one.
unfoldable pub quorum : {E : Type 0} → List Address → Vals → Try (SealError E) (List (Option Bytes))
quorum validators ps =
    let seals = map (last_seal ps) validators in
    if ltb (2 * length validators) (3 * signed seals)
    then ok seals
    else err (insufficient_voting (signed seals) (length validators * 2 / 3))

or_else-none : {A : Type 0} (x : Option A) → or_else x none ≡ x
or_else-none (some x) = refl
or_else-none none = refl

get_val-all : (ps : Vals) (b : Address) → get_val (set_all [] ps) b ≡ last_seal ps b
unfolding get_val
get_val-all ps b = get_val-set_all [] ps b ∙ or_else-none (last_seal ps b)

library_cases :
    {E A B C : Type 0} (r : Try E A) (f : A → B) (g : B → Try (SealError E) C)
    (k : A → Try (SealError E) C)
    → ((a : A) → g (f a) ≡ k a)
    → (library_result (r >>= λ a. ok (f a)) >>= g) ≡ (library_result r >>= k)
library_cases (ok a) f g k h = h a
library_cases (err e) f g k h = refl

-- A count exceeds the whole part of two thirds of n just when three of it exceed 2 n.
threshold_lem :
    {E : Type 0} (n count : ℕ) (seals : List (Option Bytes))
    → ◌≡◌ {A = Try (SealError E) (List (Option Bytes))}
        (if ltb (n * 2 / 3) (0 + count)
          then ok seals
          else err (insufficient_voting (0 + count) (n * 2 / 3)))
        (if ltb (2 * n) (3 * count) then ok seals else err (insufficient_voting count (n * 2 / 3)))
threshold_lem n count seals = ground arith

module _ {E PublicKey : Type 0} (crypto : Crypto E PublicKey) where
  unfoldable pub signers : Bytes → List Bytes → Try E Vals
  signers hash [] = ok []
  signers hash (seal ∷ seals) = do
    addr ← ec_recover_address crypto hash seal
    ps ← signers hash seals
    ok ((addr, seal) ∷ ps)

  recover_loop-signers :
      (hash : Bytes) (seals : List Bytes) (vals : Vals)
      → recover_loop crypto hash seals vals ≡ (signers hash seals >>= λ ps. ok (set_all vals ps))
  unfolding recover_loop signers
  recover_loop-signers hash [] vals = refl
  recover_loop-signers hash (seal ∷ seals) vals =
      >>=-ap (ec_recover_address crypto hash seal) _ _ (λ addr.
        recover_loop-signers hash seals (set_val vals addr seal)
        ∙ >>=-assoc (signers hash seals) _ _)
      ∙ >>=-assoc (ec_recover_address crypto hash seal) _ _

  -- What `ValidateAndGetCommitSeals` does with the map.
  abbrev count_map : List Address → Vals → Try (SealError E) (List (Option Bytes))
  count_map validators vals =
      let (count, new_seals) = collect_seals vals validators 0 [] in
      let threshold = length validators * 2 / 3 in
      if ltb threshold count then ok new_seals else err (insufficient_voting count threshold)

  count_map-quorum :
      (validators : List Address) (ps : Vals)
      → count_map validators (set_all [] ps) ≡ quorum validators ps
  unfolding quorum
  count_map-quorum validators ps =
      rw
        (
          collect_seals-eq (set_all [] ps) validators 0 [],
          map_ext (get_val (set_all [] ps)) (last_seal ps) validators (get_val-all ps),
        )
        (threshold_lem (length validators) (signed (map (last_seal ps) validators)) _)

  recovered-quorum :
      (hash : Bytes) (seals : List Bytes) (validators : List Address)
      → (library_result (recover_committer_addresses_vals crypto hash seals)
          >>= count_map validators)
        ≡ (library_result (signers hash seals) >>= quorum validators)
  unfolding recover_committer_addresses_vals
  recovered-quorum hash seals validators =
      ap (λ r. library_result r >>= count_map validators) (recover_loop-signers hash seals [])
      ∙ library_cases (signers hash seals) (set_all []) _ _ (count_map-quorum validators)

  module _ {Header Vote Stream : Type 0} (rlp : Rlp E Header Vote Stream) where
    -- What the header certifies, in terms of the signers of its seals.
    abbrev pub certified : ParsedHeader Header Vote → Try (SealError E) (List (Option Bytes))
    certified h = do
      header ← library_result (get_sealing_header_bytes rlp h)
      ps ← library_result (signers (crypto.keccak256 header) h.seals)
      quorum h.validators ps

    -- `ValidateAndGetCommitSeals` gives each validator the last seal of the header that recovers to its address, when more
    -- than two thirds of the validators have one; its errors are that of the first encoding or recovery to fail, and
    -- insufficient voting otherwise.
    pub validate_and_get_commit_seals-certified :
        (h : ParsedHeader Header Vote) → validate_and_get_commit_seals crypto rlp h ≡ certified h
    unfolding validate_and_get_commit_seals recover_committer_addresses_vals quorum
    validate_and_get_commit_seals-certified h =
        >>=-ap (library_result (get_sealing_header_bytes rlp h)) _ _
          λ header. recovered-quorum (crypto.keccak256 header) h.seals h.validators
