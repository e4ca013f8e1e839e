-- ===== src/Wire/Skips.antt =====
-- `skip…` ends on every input, and passes over bytes: no read is at a negative index, each round of its loop moves on,
-- and its result is not negative.
use yui_ibc_solidity.Prelude.{
  ℕ, zero, suc, ◌+◌, ◌-◌, ◌%◌, ◌^◌, ◌≤◌, ◌<◌, ◌≡◌, arith, Bytes, true, false, leb, ltb, ◌==◌, ◌||◌,
  Bool, refl, length, drop, length-drop,
}
use yui_ibc_solidity.Wire.Result.{ok}
use yui_ibc_solidity.Wire.Reader.{
  int_lt, read_varint, skip_varint, SkipState, advance, bytes_at, skip_value, skip_loop, skip,
  move_to, skip_field,
}
use yui_ibc_solidity.Wire.Total.{
  Ends, Ends-bind, Ends-if, Ends-guard, Ends-weaken, Reads, read_varint-Ends, skip_varint-Ends,
  leb-lt, true-ne-false,
}

-- The index is not negative, and does not move back.
abbrev Moves : SkipState → SkipState → Type 0
Moves s t = s.index ≤ t.index

bytes_at-Ends :
    (src : Bytes) (index : ℕ)
    → index < 2 ^ 63
    → Ends (λ rest. length rest ≡ length src - index) (bytes_at src index)
unfolding bytes_at
bytes_at-Ends src index h =
    Ends-guard (λ rest. length rest ≡ length src - index) (leb (2 ^ 63) index) _ _
      (λ t. absurd (ground (arith, t))) (λ _. length-drop index src)

advance-index : (n : ℕ) (s : SkipState) → s.index + n < 2 ^ 64 → (advance n s).index ≡ s.index + n
unfolding advance
advance-index n s h = omega arith

skip_value-Ends :
    (src : Bytes) (ty : ℕ) (s : SkipState)
    → length src < 2 ^ 63
    → s.index < 2 ^ 63
    → Ends (Moves s) (skip_value src ty s)
unfolding skip_value
skip_value-Ends src ty s hl h =
    let P = Moves s in
    let At : Bytes → Type 0 = λ rest. length rest ≡ length src - s.index in
    let by : (n : ℕ) → s.index + n < 2 ^ 64 → Moves s (advance n s) =
      λ n k. omega (arith, advance-index n s k) in
    let stay : (d : ℕ) → Moves s (record s { depth = d }) = λ d. omega arith in
    Ends-if P (ty == 0) _ _
      (Ends-bind At P (bytes_at src s.index) _ (bytes_at-Ends src s.index h) (λ rest e.
        Ends-bind (λ behind. length behind ≤ length rest) P (skip_varint rest 0) _
          (skip_varint-Ends rest 0) (λ behind k. by (length rest - length behind) (omega arith))))
      (Ends-if P (ty == 1) _ _ (by 8 (omega arith)) (
        Ends-if P (ty == 2) _ _
          (Ends-bind At P (bytes_at src s.index) _ (bytes_at-Ends src s.index h) (λ rest e.
            Ends-bind (Reads 64 (length rest)) P (read_varint 64 rest 0 0) _
              (read_varint-Ends 64 rest)
              (λ (n, behind) k.
                let t = advance (length rest - length behind) s in
                let t_index = advance-index (length rest - length behind) s (omega arith) in
                Ends-guard P (leb (2 ^ 63) n) _ (ok (advance n t)) (λ _. tt)
                  (λ small.
                    let n_lt = leb-lt (2 ^ 63) n small in
                    omega (arith, t_index, advance-index n t (omega arith))))))
          (Ends-if P (ty == 3) _ _ (stay (s.depth + 1)) (
            Ends-if P (ty == 4) _ _
              (Ends-if P (s.depth == 0) _ (ok (record s { depth = s.depth - 1 })) tt
                (stay (s.depth - 1)))
              (Ends-if P (ty == 5) _ _ (by 4 (omega arith)) tt)))))

skip_loop-Ends :
    (fuel : ℕ) (src : Bytes) (s : SkipState)
    → length src < 2 ^ 63
    → s.index < 2 ^ 63
    → length src < fuel + s.index
    → 0 < fuel
    → Ends (λ n. (s.index < n) × (n < 2 ^ 63)) (skip_loop fuel src s)
unfolding skip_loop
skip_loop-Ends zero src s hl h f p = absurd (omega arith)
skip_loop-Ends (suc fuel) src s hl h f p =
    let P : ℕ → Type 0 = λ n. (s.index < n) × (n < 2 ^ 63) in
    let At : Bytes → Type 0 = λ rest. length rest ≡ length src - s.index in
    Ends-if P (int_lt s.index (length src)) _ _
      (Ends-bind At P (bytes_at src s.index) _ (bytes_at-Ends src s.index h) (λ rest e.
        Ends-bind (Reads 64 (length rest)) P (read_varint 64 rest 0 0) _ (read_varint-Ends 64 rest)
          (λ (wire, behind) k.
            let s' = advance (length rest - length behind) s in
            let moved = advance-index (length rest - length behind) s (omega arith) in
            Ends-bind (Moves s') P (skip_value src (wire % 8) s') _
              (skip_value-Ends src (wire % 8) s' hl (omega (arith, moved)))
              (λ t m.
                Ends-guard P (leb (2 ^ 63) t.index) _ _ (λ _. tt)
                  (λ positive.
                    let t_lt = leb-lt (2 ^ 63) t.index positive in
                    Ends-if P (t.depth == 0) (ok t.index) _ (omega (arith, moved), t_lt)
                      (Ends-weaken (λ n. (t.index < n) × (n < 2 ^ 63)) P (skip_loop fuel src t)
                        (λ n q. (omega (arith, moved), q.1))
                        (skip_loop-Ends fuel src t hl t_lt (omega (arith, moved))
                          (omega (arith, moved)))))))))
      tt

-- On any bytes whose number fits an int, `skip…` ends, with an error or with a result that is positive and an int: it
-- does not panic, and its loop, whose index an unguarded length could turn negative, is over after a round for each byte
-- and one more.
pub skip-Ends : (src : Bytes) → length src < 2 ^ 63 → Ends (λ n. (0 < n) × (n < 2 ^ 63)) (skip src)
unfolding skip
skip-Ends src h =
    skip_loop-Ends (suc (length src)) src (record { index = 0; depth = 0 }) h (omega arith)
      (omega arith) (omega arith)

move_to-Ends :
    (l index next : ℕ) (pre : Bytes)
    → next < 2 ^ 63
    → index < next
    → 0 < length pre
    → Ends (λ rest. length rest < length pre) (move_to l index next pre)
unfolding move_to
move_to-Ends l index next pre h1 h2 h3 =
    let P : Bytes → Type 0 = λ rest. length rest < length pre in
    Ends-guard P (leb (2 ^ 63) next) _ _ (λ t. absurd (ground (arith, t)))
      (λ _.
        Ends-guard P (ltb next index) _ _ (λ t. absurd (ground (arith, t)))
          (λ _.
            Ends-if P (ltb l next) _ (ok (drop (next - index) pre)) tt
              (omega (arith, length-drop (next - index) pre))))

or-false : (a b : Bool) → (a || b) ≡ false → (a ≡ false) × (b ≡ false)
or-false false false h = (refl, refl)
or-false true b h = absurd (true-ne-false h)
or-false false true h = absurd (true-ne-false h)

-- The guards of the default case keep the index between the field's tag and the end.
pub skip_field-Ends :
    (l : ℕ) (pre : Bytes)
    → l < 2 ^ 63
    → length pre ≤ l
    → 0 < length pre
    → Ends (λ rest. length rest < length pre) (skip_field l pre)
unfolding skip_field
skip_field-Ends l pre hl hp h =
    let P : Bytes → Type 0 = λ rest. length rest < length pre in
    Ends-bind (λ n. (0 < n) × (n < 2 ^ 63)) P (skip pre) _ (skip-Ends pre (omega arith))
      (λ n k.
        let index = l - length pre in
        let next = (index + n) % 2 ^ 64 in
        Ends-guard P (leb (2 ^ 63) n || leb (2 ^ 63) next) _ _ (λ _. tt)
          (λ g.
            let (_, positive) = or-false (leb (2 ^ 63) n) (leb (2 ^ 63) next) g in
            Ends-if P (int_lt l next) _ (move_to l index next pre) tt
              (move_to-Ends l index next pre (leb-lt (2 ^ 63) next positive) (omega arith) h)))
