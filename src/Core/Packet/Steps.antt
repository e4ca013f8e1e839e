-- ===== src/Core/Packet/Steps.antt =====
-- contracts/core: what the checks and setters of the host do, and what a store keeps of another.
use yui_ibc_solidity.Prelude.{
  ℕ, ◌+◌, ◌%◌, ◌^◌, ◌≡◌, ◌≢◌, ◌⊎◌, inl, inr, refl, ap, subst, ◌∙◌, arith, Bytes, [], Bool, true,
  false, ◌==◌, if◌then◌else◌,
}
use yui_ibc_solidity.Prelude.Try.{Try, ok, err, ◌>>=◌}
use yui_ibc_solidity.Contract.Ibchost.Structs.{ChannelData}
use yui_ibc_solidity.Contract.Ibchandler.Structs.{PacketData}
use yui_ibc_solidity.Core.Store.{Store, Chain, require, put2, put2-keeps}
use yui_ibc_solidity.Core.Host.{only_ibc_module}

pub ok-injective : {E A : Type 0} (a b : A) → ◌≡◌ {A = Try E A} (ok a) (ok b) → a ≡ b
ok-injective a b h = cc

pub require-ok :
    {A : Type 0} (b : Bool) (reason : Bytes) (x : Try Bytes A) (u : A)
    → (require b reason >>= λ _. x) ≡ ok u
    → (b ≡ true) × (x ≡ ok u)
unfolding require
require-ok true reason x u h = (refl, h)
require-ok false reason x u h = cc

pub err-not_ok : {E A : Type 0} (e : E) (a : A) → ◌≡◌ {A = Try E A} (err e) (ok a) → ⊥
err-not_ok e a h = cc

pub if-ok :
    {E A : Type 0} (b : Bool) (x y : Try E A) (u : A)
    → (if b then x else y) ≡ ok u
    → ((b ≡ true) × (x ≡ ok u)) ⊎ ((b ≡ false) × (y ≡ ok u))
if-ok true x y u h = inl (refl, h)
if-ok false x y u h = inr (refl, h)

-- Receipts stay, and a next acknowledgement sequence that is not zero does not become zero.
abbrev pub Keeps : Store → Store → Type 0
Keeps s t =
    ((port channel : Bytes) (n : ℕ)
      → s.packet_receipts port channel n ≡ true
      → t.packet_receipts port channel n ≡ true)
    × ((port channel : Bytes)
        → s.next_sequence_acks port channel ≢ 0
        → t.next_sequence_acks port channel ≢ 0)

pub Keeps-trans : (s t u : Store) → Keeps s t → Keeps t u → Keeps s u
Keeps-trans s t u a b = (
  (λ port channel n h. b.0 port channel n (a.0 port channel n h)),
  λ port channel h. b.1 port channel (a.1 port channel h),
)

pub equal : (m n : ℕ) → (m == n) ≡ true → m ≡ n
equal m n h = ground arith

-- The channel that a packet is sent on.
abbrev pub channel_of : Store → PacketData → ChannelData
channel_of s packet = s.channels packet.source_port packet.source_channel

pub after_zero : (n : ℕ) → n ≡ 0 → (n + 1) % 2 ^ 64 ≢ 0
after_zero n h = λ z. absurd (omega arith)

either_true : (b x : Bool) → x ≡ true → (if b then true else x) ≡ true
either_true true x h = refl
either_true false x h = h

pub Keeps-eq : (s t u : Store) → Keeps s t → t ≡ u → Keeps s u
Keeps-eq s t u k e = subst (Keeps s) e k

pub unchanged : (s : Store) → Keeps s s
unchanged s = ((λ port channel n h. h), λ port channel h. h)

pub receipt-Keeps :
    (s : Store) (p c : Bytes) (q : ℕ)
    → Keeps s (record s {
      packet_receipts =
          put2 s.packet_receipts p c (λ n. if n == q then true else s.packet_receipts p c n);
    })
receipt-Keeps s p c q = (
  (λ port channel n h.
      put2-keeps (λ f. f n ≡ true) s.packet_receipts p c _ port channel
        (λ e f.
          either_true (n == q) _
            (ap (λ x. s.packet_receipts x c n) e ∙ ap (λ x. s.packet_receipts port x n) f ∙ h))
        h),
  λ port channel h. h,
)

pub ack-Keeps :
    (s : Store) (p c : Bytes) (q : ℕ)
    → q ≢ 0
    → Keeps s (record s { next_sequence_acks = put2 s.next_sequence_acks p c q })
ack-Keeps s p c q h = (
  (λ port channel n r. r),
  λ port channel r. put2-keeps (λ x. x ≢ 0) s.next_sequence_acks p c q port channel (λ _ _. h) r,
)

module _ (chain : Chain) where
  -- A setter that passes its check writes.
  pub only_ibc_module-ok : (s t u : Store) → (only_ibc_module chain s >>= λ _. ok t) ≡ ok u → t ≡ u
  unfolding only_ibc_module
  only_ibc_module-ok s t u h = ok-injective t u (require-ok _ [] (ok t) u h).1

  -- A setter that leaves receipts and acknowledgement sequences alone.
  pub written-Keeps :
      (s t u : Store) → Keeps s t → (only_ibc_module chain s >>= λ _. ok t) ≡ ok u → Keeps s u
  written-Keeps s t u k h = Keeps-eq s t u k (only_ibc_module-ok s t u h)
