-- ===== src/Prelude/Try.antt =====
-- Go's (value, error) pairs: a value, or an error of the type `E`.
use mathlib.Core.Path.{◌≡◌, refl}

pub data Try {ℓ κ} (E : Type ℓ) (A : Type κ) : Type (ℓ ⊔ κ) where
  ok : A → Try E A
  err : E → Try E A

infixl 5 ◌>>=◌
abbrev pub ◌>>=◌ {ℓ κ μ} :
    {E : Type ℓ} {A : Type κ} {B : Type μ} → Try E A → (A → Try E B) → Try E B
ok a >>= f = f a
err e >>= f = err e

-- Where a chain succeeds, its first step does.
pub >>=-eq_ok {ℓ κ μ} :
    {E : Type ℓ} {A : Type κ} {B : Type μ} (m : Try E A) (f : A → Try E B) {b : B}
    → (m >>= f) ≡ ok b
    → (a : A) × (m ≡ ok a) × (f a ≡ ok b)
>>=-eq_ok (ok a) f h = (a, refl, h)
>>=-eq_ok (err e) f h = cc

pub >>=-assoc {ℓ κ μ ν} :
    {E : Type ℓ} {A : Type κ} {B : Type μ} {C : Type ν} (m : Try E A) (f : A → Try E B)
    (g : B → Try E C)
    → (m >>= λ a. f a >>= g) ≡ ((m >>= f) >>= g)
>>=-assoc (ok a) f g = refl
>>=-assoc (err e) f g = refl

pub >>=-ap {ℓ κ μ} :
    {E : Type ℓ} {A : Type κ} {B : Type μ} (m : Try E A) (f g : A → Try E B)
    → ((a : A) → f a ≡ g a)
    → (m >>= f) ≡ (m >>= g)
>>=-ap (ok a) f g h = h a
>>=-ap (err e) f g h = refl
