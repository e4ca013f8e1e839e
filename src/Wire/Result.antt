-- ===== src/Wire/Result.antt =====
-- Go's (value, error) pairs of the generated decoders, and a runtime panic. `stuck` is no Go value: a
-- loop of the model ran out of fuel, as one that does not end would.

-- The errors of a generated decoder: the four package variables (`ErrIntOverflow…`,
-- `io.ErrUnexpectedEOF`, `ErrInvalidLength…`, `ErrUnexpectedEndOfGroup…`) and the four that
-- `fmt.Errorf` makes.
pub data Error : Type 0 where
  int_overflow unexpected_eof invalid_length unexpected_end_of_group : Error
  end_group illegal_tag wrong_wire_type illegal_wire_type : Error

pub data Result {ℓ} (A : Type ℓ) : Type ℓ where
  ok : A → Result A
  err : Error → Result A
  panic : Result A
  stuck : Result A

infixl 5 ◌>>=◌
abbrev pub ◌>>=◌ {ℓ κ} : {A : Type ℓ} {B : Type κ} → Result A → (A → Result B) → Result B
ok a >>= f = f a
err e >>= f = err e
panic >>= f = panic
stuck >>= f = stuck
