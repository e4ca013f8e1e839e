-- ===== src/Tests/Wire.antt =====
-- The primitives of the wire format at small numbers.
use yui_ibc_solidity.Prelude.{◌-◌, ◌^◌, ◌<◌, ◌≡◌, refl, arith, Bytes, [], ◌∷◌}
use yui_ibc_solidity.Wire.Result.{err, panic, invalid_length}
use yui_ibc_solidity.Wire.Reader.{slice, skip, advance}
use yui_ibc_solidity.Wire.Total.{Ends}
use yui_ibc_solidity.Wire.Skips.{skip-Ends}

-- An unknown field of bytes whose length is -1.
abbrev negative_field : Bytes
negative_field = 0x0a ∷ 0xff ∷ 0xff ∷ 0xff ∷ 0xff ∷ 0xff ∷ 0xff ∷ 0xff ∷ 0xff ∷ 0xff ∷ 0x01 ∷ []

negative_length : skip negative_field ≡ err invalid_length
unfolding skip
negative_length = refl

-- A step by -1 moves the index back.
moved_back :
    advance (2 ^ 64 - 1) (record { index = 5; depth = 0 }) ≡ record { index = 4; depth = 0 }
unfolding advance
moved_back = refl

slice_backwards : slice 3 2 1 (7 ∷ []) ≡ panic
unfolding slice
slice_backwards = refl

skip-Ends_example : Ends (λ n. (0 < n) × (n < 2 ^ 63)) (skip negative_field)
skip-Ends_example = skip-Ends negative_field (omega arith)
