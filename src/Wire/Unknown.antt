-- ===== src/Wire/Unknown.antt =====
-- A field that the switch of a message does not know is passed over by `skip…`.
use yui_ibc_solidity.Prelude.{
  ℕ, suc, ap, ◌∷◌, ◌+◌, ◌-◌, ◌/◌, ◌%◌, ◌^◌, ◌≤◌, ◌<◌, ◌≡◌, arith, Bytes, ◌++◌, none, length,
  length-append, drop-append, append_assoc,
}
use yui_ibc_solidity.Wire.Result.{Result, ok}
use yui_ibc_solidity.Wire.Reader.{
  Switch, int_lt, advance, bytes_at, move_to, skip_value, skip_loop, skip, skip_field, read_field,
  read_varint,
}
use yui_ibc_solidity.Wire.ReaderLaws.{read_u64, read_tag}
use yui_ibc_solidity.Wire.Runs.{Runs, Runs-field, IsTag}
use yui_ibc_solidity.Wire.Format.{IsLength, varint, chunk}

-- `skip…` on a length-delimited field: its state behind the tag, and behind the bytes.
skip_value-chunk :
    (tag : ℕ) (s rest : Bytes)
    → IsLength (length (varint (length s) ++ (s ++ rest)))
    → skip_value (tag ∷ (varint (length s) ++ (s ++ rest))) 2 (record { index = 1; depth = 0 })
      ≡ ok (record { index = 1 + length (varint (length s) ++ s); depth = 0 })
unfolding skip_value advance bytes_at
skip_value-chunk tag s rest h =
    let all = length-append {0} (varint (length s)) (s ++ rest) in
    let both = length-append {0} s rest in
    let block = length-append {0} (varint (length s)) s in
    let used : length (varint (length s) ++ (s ++ rest)) - length (s ++ rest)
        ≡ length (varint (length s)) =
      omega (arith, all) in
    let index : ((1 + length (varint (length s))) % 2 ^ 64 + length s) % 2 ^ 64
        ≡ 1 + length (varint (length s) ++ s) =
      omega (arith, all, both, block, h) in
    rw (read_u64 (length s) (s ++ rest) (omega (arith, all, both, h)), used, index)
      (ground (arith, all, both))

skip-chunk :
    (tag : ℕ) (s rest : Bytes)
    → IsTag 2 tag
    → IsLength (length (chunk tag s ++ rest))
    → skip (chunk tag s ++ rest) ≡ ok (length (chunk tag s))
unfolding skip skip_loop chunk bytes_at advance int_lt
skip-chunk tag s rest ht h =
    let behind = varint (length s) ++ (s ++ rest) in
    let one : suc (length behind) - length behind ≡ 1 = omega arith in
    let same = append_assoc (varint (length s)) s rest in
    let fits : length behind < 2 ^ 63 = omega (arith, ap (λ (t : Bytes). length t) same, h) in
    rw
      (same, read_tag tag behind ht.0, one, ht.2, skip_value-chunk tag s rest (omega (arith, fits)))
      (ground (
        arith,
        fits,
        length-append {0} (varint (length s)) s,
        length-append {0} (varint (length s) ++ s) rest,
        ap (λ (t : Bytes). length t) same,
      ))

move_to-append :
    (l index : ℕ) (s rest : Bytes)
    → IsLength l
    → index + length s ≤ l
    → move_to l index (index + length s) (s ++ rest) ≡ ok rest
unfolding move_to
move_to-append l index s rest fits h =
    let size : index + length s - index ≡ length s = omega arith in
    rw (size, drop-append s rest) (ground arith)

skip_field-chunk :
    (l tag : ℕ) (s rest : Bytes)
    → IsTag 2 tag
    → IsLength l
    → length (chunk tag s ++ rest) ≤ l
    → skip_field l (chunk tag s ++ rest) ≡ ok rest
unfolding skip_field int_lt
skip_field-chunk l tag s rest ht fits h =
    let whole = length-append (chunk tag s) rest in
    let index = l - length (chunk tag s ++ rest) in
    let next : (index + length (chunk tag s)) % 2 ^ 64 ≡ index + length (chunk tag s) =
      omega (arith, whole) in
    rw
      (
        skip-chunk tag s rest ht (omega arith),
        next,
        move_to-append l index (chunk tag s) rest fits (omega (arith, whole)),
      )
      (ground (arith, whole))

-- An unknown field leaves the message as it is.
pub Runs-unknown {ℓ} :
    {M : Type ℓ} {switch : Switch M} {l tag : ℕ} (s : Bytes) {rest : Bytes} {m : M} {r : Result M}
    → IsTag 2 tag
    → IsLength l
    → ((t : Bytes) → switch l (tag / 8) (tag % 8) t m ≡ none)
    → Runs switch l rest m r
    → Runs switch l (chunk tag s ++ rest) m r
Runs-unknown {M} {switch} {l} {tag} s {rest} {m} {r} ht fits e =
    Runs-field (λ hl. read hl) (omega (arith, length-append {0} (chunk tag s) rest, more))
  where
    more : 0 < length (chunk tag s)
    more = unfold chunk in omega arith

    read :
        length (chunk tag s ++ rest) ≤ l
        → read_field switch l (chunk tag s ++ rest) m ≡ ok (m, rest)
    read hl =
        unfold read_field in
        let behind = (varint (length s) ++ s) ++ rest in
        let tagged : read_varint 64 (chunk tag s ++ rest) 0 0 ≡ ok (tag, behind) =
          unfold chunk in read_tag tag behind ht.0 in
        let num : tag / 8 % 2 ^ 32 ≡ tag / 8 = omega arith in
        rw (tagged, num, e behind, skip_field-chunk l tag s rest ht fits hl) (ground arith)
