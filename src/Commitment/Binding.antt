-- ===== src/Commitment/Binding.antt =====
-- pkg/testing/types.go: what a packet commitment binds.
use yui_ibc_solidity.Prelude.{
  ℕ, ◌^◌, ◌<◌, ◌≡◌, ◌≢◌, ◌⊎◌, inl, inr, refl, sym, ap, ◌∙◌, arith, Bytes, List, [], ◌∷◌, ◌++◌,
  false, ◌==◌, take, drop, append_assoc, Bool-cases,
}
use yui_ibc_solidity.Channel.Packet.{Packet}
use yui_ibc_solidity.Commitment.Uint64.{
  uint64_to_big_endian, from_big_endian, from_big_endian-uint64,
}
use yui_ibc_solidity.Commitment.Commit.{preimage, commit_packet}

-- Two inputs with one hash.
pub record Collision (sha256 : Bytes → Bytes) : Type 0 where
  pub left : Bytes
  pub right : Bytes
  pub apart : left ≢ right
  pub together : sha256 left ≡ sha256 right

-- What a commitment binds.
pub record SameCommitted (p q : Packet) : Type 0 where
  pub timestamp : p.timeout_timestamp ≡ q.timeout_timestamp
  pub revision_number : p.timeout_height.revision_number ≡ q.timeout_height.revision_number
  pub revision_height : p.timeout_height.revision_height ≡ q.timeout_height.revision_height
  pub payload : p.payload ≡ q.payload

cons_inj : {A : Type 0} {x y : A} {xs ys : List A} → x ∷ xs ≡ y ∷ ys → (x ≡ y) × (xs ≡ ys)
cons_inj h = (cc, cc)

ap2_cons : (x y : ℕ) (xs ys : Bytes) → x ≡ y → xs ≡ ys → x ∷ xs ≡ y ∷ ys
ap2_cons x y xs ys h k = ap (λ a. a ∷ xs) h ∙ ap (λ l. y ∷ l) k

apart_heads : (x y : ℕ) → (x == y) ≡ false → x ≢ y
apart_heads x y h e = ground arith

bytes_cases : (xs ys : Bytes) → (xs ≡ ys) ⊎ (xs ≢ ys)
bytes_cases [] [] = inl refl
bytes_cases [] (y ∷ ys) = inr (λ h. cc)
bytes_cases (x ∷ xs) [] = inr (λ h. cc)
bytes_cases (x ∷ xs) (y ∷ ys) = elim (Bool-cases (x == y)) [
  | inl h ↦ elim (bytes_cases xs ys) [
    | inl k ↦ inl (ap2_cons x y xs ys (ground arith) k)
    | inr k ↦ inr (λ e. k ((cons_inj e).1))
  ]
  | inr h ↦ inr (λ e. apart_heads x y h ((cons_inj e).0))
]

uint64-inj :
    (i j : ℕ) → i < 2 ^ 64 → j < 2 ^ 64 → uint64_to_big_endian i ≡ uint64_to_big_endian j → i ≡ j
uint64-inj i j hi hj h =
    sym (from_big_endian-uint64 i hi) ∙ ap (from_big_endian 0) h ∙ from_big_endian-uint64 j hj

-- Equal strings whose fronts are uint64s have equal fronts.
split_uint64 :
    (i j : ℕ) (xs ys : Bytes)
    → uint64_to_big_endian i ++ xs ≡ uint64_to_big_endian j ++ ys
    → (uint64_to_big_endian i ≡ uint64_to_big_endian j) × (xs ≡ ys)
unfolding uint64_to_big_endian
split_uint64 i j xs ys h = (ap (take 8) h, ap (drop 8) h)

-- The numbers of the timeout are uint64s.
pub record IsBounded (p : Packet) : Type 0 where
  pub timestamp : p.timeout_timestamp < 2 ^ 64
  pub revision_number : p.timeout_height.revision_number < 2 ^ 64
  pub revision_height : p.timeout_height.revision_height < 2 ^ 64

preimage-fields :
    (sha256 : Bytes → Bytes) (p : Packet)
    → preimage sha256 p
      ≡ uint64_to_big_endian p.timeout_timestamp
        ++ (uint64_to_big_endian p.timeout_height.revision_number
            ++ (uint64_to_big_endian p.timeout_height.revision_height ++ sha256 p.payload))
unfolding preimage
preimage-fields sha256 p = simp append_assoc refl

split_once :
    (sha256 : Bytes → Bytes) (xs ys : Bytes) → sha256 xs ≡ sha256 ys → (xs ≡ ys) ⊎ Collision sha256
split_once sha256 xs ys h = elim (bytes_cases xs ys) [
  | inl e ↦ inl e
  | inr e ↦ inr (record { left = xs; right = ys; apart = e; together = h })
]

preimage_same :
    (sha256 : Bytes → Bytes) (p q : Packet)
    → IsBounded p
    → IsBounded q
    → preimage sha256 p ≡ preimage sha256 q
    → SameCommitted p q ⊎ Collision sha256
preimage_same sha256 p q hp hq h =
    let (e1, h1) =
      split_uint64 p.timeout_timestamp q.timeout_timestamp _ _
        (sym (preimage-fields sha256 p) ∙ h ∙ preimage-fields sha256 q) in
    let (e2, h2) =
      split_uint64 p.timeout_height.revision_number q.timeout_height.revision_number _ _ h1 in
    let (e3, h3) =
      split_uint64 p.timeout_height.revision_height q.timeout_height.revision_height _ _ h2 in
    elim (split_once sha256 p.payload q.payload h3) [
      | inl e ↦ inl (record {
        timestamp = uint64-inj _ _ hp.timestamp hq.timestamp e1;
        revision_number = uint64-inj _ _ hp.revision_number hq.revision_number e2;
        revision_height = uint64-inj _ _ hp.revision_height hq.revision_height e3;
        payload = e;
      })
      | inr c ↦ inr c
    ]

-- Two packets whose timeout numbers are uint64s and that have one commitment have the same timeout timestamp, the same timeout height and the same data, unless
-- their hashes exhibit a collision.
pub commit_packet-binding :
    (sha256 : Bytes → Bytes) (p q : Packet)
    → IsBounded p
    → IsBounded q
    → commit_packet sha256 p ≡ commit_packet sha256 q
    → SameCommitted p q ⊎ Collision sha256
unfolding commit_packet
commit_packet-binding sha256 p q hp hq h =
    elim (split_once sha256 (preimage sha256 p) (preimage sha256 q) h) [
      | inl e ↦ preimage_same sha256 p q hp hq e
      | inr c ↦ inr c
    ]
