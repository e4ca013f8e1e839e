-- ===== src/Prelude/Strings.antt =====
-- What the comparison of two strings decides.

use mathlib.Core.Path.{◌≡◌, refl, ap, ◌∙◌}
use mathlib.Core.Logic.{◌≢◌, inl, inr}
use mathlib.Core.Bool.{Bool, true, false, ◌&&◌}
use mathlib.Core.List.{[], ◌∷◌}
use native.Mathlib.Omega.{arith}
use yui_ibc_solidity.Prelude.Tests.{Bytes, same_string, Bool-cases, ◌==◌}

pub same_string_refl : (s : Bytes) → same_string s s ≡ true
same_string_refl [] = refl
same_string_refl (c ∷ s) = ground (arith, same_string_refl s)

pub both_true : (x y : Bool) → (x && y) ≡ true → (x ≡ true) × (y ≡ true)
both_true true true h = (refl, refl)
both_true true false h = cc
both_true false y h = cc

pub same_string-eq : (s t : Bytes) → same_string s t ≡ true → s ≡ t
same_string-eq [] [] h = refl
same_string-eq [] (d ∷ t) h = cc
same_string-eq (c ∷ s) [] h = cc
same_string-eq (c ∷ s) (d ∷ t) h =
    let (heads, tails) = both_true (c == d) (same_string s t) h in
    let first : c ≡ d = ground (arith, heads) in
    ap (λ x. x ∷ s) first ∙ ap (λ l. d ∷ l) (same_string-eq s t tails)

pub different : (s t : Bytes) → s ≢ t → same_string s t ≡ false
different s t h = elim (Bool-cases (same_string s t)) [
  | inl e ↦ absurd (h (same_string-eq s t e))
  | inr e ↦ e
]
