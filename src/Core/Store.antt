-- ===== src/Core/Store.antt =====
-- contracts/core/IBCHost.sol: the storage, and what a call depends on. A mapping is a function whose default is Solidity's, a
-- revert is an error with its reason, an address is its number; an enum is its number, as the ABI has it.
use yui_ibc_solidity.Prelude.{
  ℕ, ◌≡◌, ◌≢◌, ◌⊎◌, inl, inr, refl, sym, ap, subst, ◌∙◌, Bool-cases, Bytes, List, Bool, true, false,
  if◌then◌else◌, same_string,
}
use yui_ibc_solidity.Prelude.Strings.{same_string_refl, same_string-eq, different}
use yui_ibc_solidity.Prelude.Try.{Try, ok, err}
use yui_ibc_solidity.Contract.Ibchost.Structs.{ChannelData, ConnectionEndData}

pub record Store : Type 0 where
  pub commitments : Bytes → Bytes
  pub client_registry : Bytes → ℕ
  pub client_types : Bytes → Bytes
  pub client_states : Bytes → Bytes
  pub consensus_states : Bytes → ℕ → Bytes
  pub connections : Bytes → ConnectionEndData
  pub channels : Bytes → Bytes → ChannelData
  pub next_sequence_sends : Bytes → Bytes → ℕ
  pub next_sequence_recvs : Bytes → Bytes → ℕ
  pub next_sequence_acks : Bytes → Bytes → ℕ
  pub packet_receipts : Bytes → Bytes → ℕ → Bool
  pub capabilities : Bytes → List ℕ
  pub next_client_sequence : ℕ
  pub next_connection_sequence : ℕ
  pub next_channel_sequence : ℕ
  pub owner : ℕ
  pub ibc_module : ℕ

-- The chain: msg.sender, the block, the hashes, the generated encoders and the string library.
pub record Chain : Type 0 where
  pub sender : ℕ
  pub block_number : ℕ
  pub block_timestamp : ℕ
  pub keccak256 : Bytes → Bytes
  pub sha256 : Bytes → Bytes
  pub encode_channel : ChannelData → Bytes
  pub equals : Bytes → Bytes → Bool

-- `require(condition, reason)`
unfoldable pub require : Bool → Bytes → Try Bytes (Unit {0})
require true reason = ok tt
require false reason = err reason

-- `m[k] = v`
unfoldable pub put : {A : Type 0} → (Bytes → A) → Bytes → A → Bytes → A
put m k v j = if same_string k j then v else m j

-- `m[k1][k2] = v`
unfoldable pub put2 : {A : Type 0} → (Bytes → Bytes → A) → Bytes → Bytes → A → Bytes → Bytes → A
unfolding put
put2 m k1 k2 v = put m k1 (put (m k1) k2 v)

pub put-same : {A : Type 0} (m : Bytes → A) (k : Bytes) (v : A) → put m k v k ≡ v
unfolding put
put-same m k v = rw (same_string_refl k) refl

pub put-other :
    {A : Type 0} (m : Bytes → A) (k : Bytes) (v : A) (j : Bytes) → k ≢ j → put m k v j ≡ m j
unfolding put
put-other m k v j h = rw (different k j h) refl

pub put2-same :
    {A : Type 0} (m : Bytes → Bytes → A) (k1 k2 : Bytes) (v : A) → put2 m k1 k2 v k1 k2 ≡ v
unfolding put2
put2-same m k1 k2 v = ap (λ f. f k2) (put-same m k1 (put (m k1) k2 v)) ∙ put-same (m k1) k2 v

pub put-cases :
    {A : Type 0} (m : Bytes → A) (k : Bytes) (v : A) (j : Bytes)
    → ((k ≡ j) × (put m k v j ≡ v)) ⊎ (put m k v j ≡ m j)
unfolding put
put-cases m k v j = elim (Bool-cases (same_string k j)) [
  | inl e ↦ inl (same_string-eq k j e, rw (e, put) refl)
  | inr e ↦ inr (rw (e, put) refl)
]

pub put2-cases :
    {A : Type 0} (m : Bytes → Bytes → A) (k1 k2 : Bytes) (v : A) (j1 j2 : Bytes)
    → ((k1 ≡ j1) × (k2 ≡ j2) × (put2 m k1 k2 v j1 j2 ≡ v)) ⊎ (put2 m k1 k2 v j1 j2 ≡ m j1 j2)
unfolding put2
put2-cases m k1 k2 v j1 j2 = elim (put-cases m k1 (put (m k1) k2 v) j1) [
  | inl outer ↦ elim (put-cases (m k1) k2 v j2) [
    | inl inner ↦ inl (outer.0, inner.0, ap (λ f. f j2) outer.1 ∙ inner.1)
    | inr inner ↦ inr (ap (λ f. f j2) outer.1 ∙ inner ∙ ap (λ k. m k j2) outer.0)
  ]
  | inr outer ↦ inr (ap (λ f. f j2) outer)
]

-- A property that the new value has at its key, and that the old map's value has.
pub put2-keeps :
    {A : Type 0} (P : A → Type 0) (m : Bytes → Bytes → A) (k1 k2 : Bytes) (v : A) (j1 j2 : Bytes)
    → (k1 ≡ j1 → k2 ≡ j2 → P v)
    → P (m j1 j2)
    → P (put2 m k1 k2 v j1 j2)
put2-keeps P m k1 k2 v j1 j2 new old = elim (put2-cases m k1 k2 v j1 j2) [
  | inl e ↦ subst P (sym e.2) (new e.0 e.1)
  | inr e ↦ subst P (sym e) old
]
