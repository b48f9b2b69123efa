-- ===== src/Prelude/Parse.antt =====
-- strconv.ParseInt and strings.IndexByte on lists of bytes.
use Prim.Native.Nat.{ℕ, zero, suc, ◌+◌, ◌-◌, ◌*◌, ◌^◌}
use mathlib.Core.Bool.{Bool, false, ◌&&◌, ◌||◌}
use mathlib.Core.Option.{Option, none, some}
use mathlib.Core.List.{[], ◌∷◌}
use torrin.Prelude.Tests.{leb, ltb, ◌==◌, if◌then◌else◌}
use torrin.Prelude.Int.{ℤ, pos, negsuc}
use torrin.Prelude.Text.{Text}

unfoldable pub is_digit : ℕ → Bool
is_digit c = leb b'0' c && leb c b'9'

unfoldable pub digits_from : ℕ → Text → Option ℕ
unfolding is_digit
digits_from acc [] = some acc
digits_from acc (c ∷ s) =
    let rest = digits_from (acc * 10 + (c - b'0')) s in if is_digit c then rest else none

-- At least one digit, and nothing else.
unfoldable pub parse_digits : Text → Option ℕ
unfolding digits_from
parse_digits [] = none
parse_digits (c ∷ s) = digits_from 0 (c ∷ s)

unfoldable pub negate : ℕ → ℤ
negate zero = pos 0
negate (suc n) = negsuc n

-- The sign, and what an int64 holds.
unfoldable pub parse_int : Text → Option ℤ
unfolding parse_digits negate
parse_int [] = none
parse_int (c ∷ s) =
    if c == b'-'
    then elim (parse_digits s) [
      | none ↦ none
      | some n ↦ if ltb (2 ^ 63) n then none else some (negate n)
    ]
    else elim (parse_digits (if c == b'+' then s else c ∷ s)) [
      | none ↦ none
      | some n ↦ if ltb n (2 ^ 63) then some (pos n) else none
    ]

unfoldable pub contains_byte : ℕ → Text → Bool
contains_byte b [] = false
contains_byte b (c ∷ s) = c == b || contains_byte b s

-- strings.Cut at a byte: what stands before the first one, and behind it.
unfoldable pub cut_byte : ℕ → Text → Option (Text × Text)
cut_byte b [] = none
cut_byte b (c ∷ s) =
    let rest = cut_byte b s in
    if c == b then some ([], s) else elim rest [ none ↦ none | some (l, r) ↦ some (c ∷ l, r) ]
