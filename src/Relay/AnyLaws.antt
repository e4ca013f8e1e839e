-- ===== src/Relay/AnyLaws.antt =====
-- pkg/testing/types.go: what is wrapped in Any is unwrapped, and only at its own type.
use yui_ibc_solidity.Prelude.{ℕ, ◌≡◌, ◌≢◌, refl, Bytes, ◌∷◌}
use yui_ibc_solidity.Prelude.Strings.{same_string_refl, different}
use yui_ibc_solidity.Prelude.Try.{ok, err}
use yui_ibc_solidity.Wire.Result as Wire
use yui_ibc_solidity.Relay.Any.{
  Any, AnyCodec, Message, unexpected_type, type_url_of, marshal_with_any, unmarshal_with_any,
}

cons_tail : (x y : ℕ) (xs ys : Bytes) → x ∷ xs ≡ y ∷ ys → xs ≡ ys
cons_tail x y xs ys h = cc

-- The codec of Any reads back what it writes.
abbrev pub IsFaithful : {E : Type 0} → AnyCodec E → Type 0
IsFaithful codec =
    (a : Any) → (bs : Bytes) × (codec.marshal_any a ≡ ok bs) × (codec.unmarshal_any bs ≡ ok a)

module _ {E : Type 0} (codec : AnyCodec E) (faithful : IsFaithful codec) {M : Type 0}
    (msg : Message M) where
  -- The bytes that `MarshalWithAny` makes of a message, and the value in them.
  marshal_with_any-eq :
      (m : M)
      → msg.Fits m
      → (value : Bytes) × (bs : Bytes) × (msg.unmarshal value ≡ Wire.ok m)
        × (marshal_with_any codec msg m ≡ ok bs)
        × (codec.unmarshal_any bs ≡ ok (record { type_url = type_url_of codec msg; value = value }))
  unfolding marshal_with_any
  marshal_with_any-eq m fits =
      let (value, e1, e2) = msg.round_trip m fits in
      let (bs, e3, e4) = faithful (record { type_url = type_url_of codec msg; value = value }) in
      (value, bs, e2, rw (e1, e3) refl, e4)

  -- With a faithful codec of Any, a message that fits is wrapped with no panic and no error, and unwrapped to itself.
  pub unmarshal_with_any-marshal_with_any :
      (m : M)
      → msg.Fits m
      → (bs : Bytes) × (marshal_with_any codec msg m ≡ ok bs)
        × (unmarshal_with_any codec msg bs ≡ ok m)
  unfolding unmarshal_with_any
  unmarshal_with_any-marshal_with_any m fits =
      let (value, bs, e1, e2, e3) = marshal_with_any-eq m fits in
      (bs, e2, rw (e3, same_string_refl (type_url_of codec msg), e1) refl)

  -- With a faithful codec of Any, a wrapped message that fits is, at a message type of another name, refused with both type URLs.
  pub unmarshal_with_any-other :
      {N : Type 0} (other : Message N) (m : M)
      → msg.Fits m
      → msg.message_name ≢ other.message_name
      → (bs : Bytes) × (marshal_with_any codec msg m ≡ ok bs)
        × (unmarshal_with_any codec other bs
            ≡ err (unexpected_type (type_url_of codec other) (type_url_of codec msg)))
  unfolding unmarshal_with_any
  unmarshal_with_any-other other m fits apart =
      let (value, bs, e1, e2, e3) = marshal_with_any-eq m fits in
      (
        bs,
        e2,
        rw
            (
              e3,
              different (type_url_of codec msg) (type_url_of codec other)
                  (λ h. apart (cons_tail _ _ _ _ h)),
            )
            refl,
      )
