-- ===== src/Client/Wait.antt =====
-- pkg/client/chain.go: `Client`, `WaitForReceiptAndGet`. `retry.Do` of the package retry-go is a parameter: it runs an action on
-- a state, which is the world that the node is part of and the variable `receipt` of the function.
use mathlib.Core.Bool.{false≢true}
use yui_ibc_solidity.Prelude.{
  ℕ, zero, suc, ◌≡◌, refl, sym, ap, subst, Bytes, Bool, true, false, Option, none, some,
}
use yui_ibc_solidity.Prelude.Try.{Try, ok, err}

-- The fields of a client that its methods read.
pub record Client : Type 0 where
  pub endpoint : Bytes
  pub client_type : Bytes

-- The state that the attempts run on: the world, and the captured variable, which is nil at first.
pub record Waiting (World R : Type 0) : Type 0 where
  pub world : World
  pub receipt : Option R

abbrev pub Action : Type 0 → Type 0 → Type 0
Action S E = S → Try E (Unit {0}) × S

-- `return receipt, nil`, where the receipt may be nil, or `return nil, err`.
abbrev pub waited :
    {F World R : Type 0} → Try F (Unit {0}) × Waiting World R → Try F (Option R) × World
waited (ok _, s) = (ok s.receipt, s.world)
waited (err e, s) = (err e, s.world)

-- At most n attempts, each on the state that the one before left, up to the first that returns nil: what `retry.Do` promises.
-- Its error, after n attempts that failed, is left open.
pub data Attempts {S E F : Type 0} (f : Action S E) : ℕ → S → Try F (Unit {0}) × S → Type 0 where
  success : {n : ℕ} {s t : S} → f s ≡ (ok tt, t) → Attempts f (suc n) s (ok tt, t)
  again :
      {n : ℕ} {s t : S} {e : E} {r : Try F (Unit {0}) × S}
      → f s ≡ (err e, t)
      → Attempts f n t r
      → Attempts f (suc n) s r
  given_up : {s : S} (e : F) → Attempts f zero s (err e, s)

-- The result of a wait: the receipt itself, or an error where there is none.
abbrev pub IsWaited : {F World R : Type 0} → Option R × World → Try F (Option R) × World → Type 0
IsWaited (some rc, world) result = result ≡ (ok (some rc), world)
IsWaited (none, world) result = (e : _) × (result ≡ (err e, world))

is_ok : {E A : Type 0} → Try E A → Bool
is_ok (ok a) = true
is_ok (err e) = false

module _ {World E R : Type 0} where
  -- The function that each attempt calls, by what `TransactionReceipt` returns.
  unfoldable pub attempted : Option R → Try E R × World → Try E (Unit {0}) × Waiting World R
  attempted receipt (ok rc, world) = (ok tt, record { world = world; receipt = some rc })
  attempted receipt (err e, world) = (err e, record { world = world; receipt = receipt })

  unfoldable pub attempt : (World → Try E R × World) → Action (Waiting World R) E
  unfolding attempted
  attempt transaction_receipt s = attempted s.receipt (transaction_receipt s.world)

  unfoldable pub wait_for_receipt_and_get :
      {F : Type 0}
      → (Action (Waiting World R) E → ℕ → Waiting World R → Try F (Unit {0}) × Waiting World R)
      → (World → Try E R × World)
      → World
      → Try F (Option R) × World
  unfolding attempt
  wait_for_receipt_and_get retry_do transaction_receipt world =
      waited (retry_do (attempt transaction_receipt) 10 (record { world = world; receipt = none }))

  -- The receipt of the first of n reads that succeeds, with the world after it; otherwise the world after them all.
  abbrev pub first_step : Try E R × World → Option R × World → Option R × World
  first_step (ok rc, world) rest = (some rc, world)
  first_step (err e, world) rest = rest

  unfoldable pub first_receipt : ℕ → (World → Try E R × World) → World → Option R × World
  first_receipt zero read world = (none, world)
  first_receipt (suc n) read world =
      let rest = first_receipt n read (read world).1 in first_step (read world) rest

  attempted-ok :
      (F : Type 0) (receipt : Option R) (a : Try E R × World) (rest : Option R × World)
      (t : Waiting World R)
      → attempted receipt a ≡ (ok tt, t)
      → IsWaited {F = F} (first_step a rest) (waited (ok tt, t))
  unfolding attempted is_ok
  attempted-ok F receipt (ok rc, world) rest t eq = ap (λ p. (ok p.1.receipt, p.1.world)) (sym eq)
  attempted-ok F receipt (err e, world) rest t eq = absurd (false≢true (ap (λ p. is_ok p.0) eq))

  attempted-err :
      {F : Type 0} (receipt : Option R) (a : Try E R × World) (rest : World → Option R × World)
      (e : E) (t : Waiting World R) (r : Try F (Option R) × World)
      → attempted receipt a ≡ (err e, t)
      → IsWaited (rest t.world) r
      → IsWaited (first_step a (rest a.1)) r
  unfolding attempted is_ok
  attempted-err receipt (ok rc, world) rest e t r eq h =
      absurd (false≢true (ap (λ p. is_ok p.0) (sym eq)))
  attempted-err receipt (err x, world) rest e t r eq h =
      subst (λ w. IsWaited (rest w) r) (ap (λ p. p.1.world) (sym eq)) h

  Attempts-IsWaited :
      {F : Type 0} (read : World → Try E R × World) (n : ℕ) (s : Waiting World R)
      (r : Try F (Unit {0}) × Waiting World R)
      → Attempts (attempt read) n s r
      → IsWaited (first_receipt n read s.world) (waited r)
  unfolding attempt first_receipt
  Attempts-IsWaited read _ s _ (given_up e) = (e, refl)
  Attempts-IsWaited read _ s _ (success {n = n} {t = t} eq) =
      attempted-ok _ s.receipt (read s.world) _ t eq
  Attempts-IsWaited read _ s r (again {n = n} {t = t} {e = e} eq rest) =
      attempted-err s.receipt (read s.world) (first_receipt n read) e t (waited r) eq
        (Attempts-IsWaited read n t r rest)

  -- With a `retry.Do` that makes its attempts one after another up to the first that returns nil, WaitForReceiptAndGet
  -- returns the receipt of the first of ten reads that succeeds, never nil, and makes no read after it; an error is what it
  -- returns where all ten fail, and only there.
  pub wait_for_receipt_and_get-first :
      {F : Type 0}
      (retry_do : Action (Waiting World R) E
        → ℕ
        → Waiting World R
        → Try F (Unit {0}) × Waiting World R)
      (read : World → Try E R × World) (world : World)
      → ((f : Action (Waiting World R) E) (n : ℕ) (s : Waiting World R)
          → Attempts f n s (retry_do f n s))
      → IsWaited (first_receipt 10 read world) (wait_for_receipt_and_get retry_do read world)
  unfolding wait_for_receipt_and_get
  wait_for_receipt_and_get-first retry_do read world h =
      Attempts-IsWaited read 10 _ _ (h (attempt read) 10 _)
