-- ===== src/Prelude/Text.antt =====
-- Go strings as lists of bytes, with the functions of package strings that the program calls.
-- Letters outside ASCII are left as they are by `to_lower` and `to_upper`.
use Prim.Native.Nat.{ℕ, ◌+◌, ◌-◌}
use Prim.Native.Char.{code}
use Prim.Native.String.{String}
use mathlib.Core.Path.{◌≡◌, refl}
use mathlib.Core.Logic.{◌↔◌}
use mathlib.Core.Bool.{Bool, true, false, ◌&&◌, ◌||◌}
use mathlib.Core.List.{List, [], ◌∷◌, map, reverse}
use native.Mathlib.Omega.{arith}
use torrin.Prelude.Tests.{◌==◌, leb, ltb, if◌then◌else◌}

abbrev pub Text : Type 0
Text = List ℕ

-- The bytes of a literal.
abbrev pub bytes : String → Text
bytes String.[] = []
bytes (String.◌∷◌ c s) = code c ∷ bytes s

unfoldable pub same : Text → Text → Bool
same [] [] = true
same (a ∷ s) (b ∷ t) = a == b && same s t
same _ _ = false

pub same_self : (s : Text) → same s s ≡ true
unfolding same
same_self [] = refl
same_self (a ∷ s) = ground (arith, same_self s)

pub eq_of_same : (s t : Text) → same s t ≡ true → s ≡ t
unfolding same
eq_of_same [] [] h = refl
eq_of_same (a ∷ s) (b ∷ t) h = ground (arith, eq_of_same s t)
eq_of_same [] (b ∷ t) h = ground arith
eq_of_same (a ∷ s) [] h = ground arith

pub same_iff : (s t : Text) → (same s t ≡ true) ↔ (s ≡ t)
same_iff s t = (eq_of_same s t, λ e. ground (arith, e, same_self s))

pub same_comm : (s t : Text) → same s t ≡ same t s
same_comm s t = ground (arith, same_iff s t, same_iff t s)

-- The order of bytes, as in a comparison of two strings.
unfoldable pub before : Text → Text → Bool
before [] [] = false
before [] (b ∷ t) = true
before (a ∷ s) [] = false
before (a ∷ s) (b ∷ t) = let rest = before s t in if a == b then rest else ltb a b

pub lower_byte : ℕ → ℕ
lower_byte c = if leb b'A' c && leb c b'Z' then c + 32 else c

-- strings.ToLower, and lower() of SQL
unfoldable pub to_lower : Text → Text
unfolding lower_byte
to_lower = map lower_byte

pub to_lower_idem : (s : Text) → to_lower (to_lower s) ≡ to_lower s
unfolding to_lower
to_lower_idem [] = refl
to_lower_idem (c ∷ s) = ground (arith, to_lower_idem s)

upper_byte : ℕ → ℕ
upper_byte c = if leb b'a' c && leb c b'z' then c - 32 else c

-- strings.ToUpper
unfoldable pub to_upper : Text → Text
unfolding upper_byte
to_upper = map upper_byte

unfoldable pub is_space : ℕ → Bool
is_space c = c == 32 || (leb 9 c && leb c 13)

drop_space : Text → Text
unfolding is_space
drop_space [] = []
drop_space (c ∷ s) = let rest = drop_space s in if is_space c then rest else c ∷ s

-- strings.TrimSpace
unfoldable pub trim_space : Text → Text
unfolding drop_space
trim_space s = reverse (drop_space (reverse (drop_space s)))

starts : Text → Text → Bool
starts [] s = true
starts (a ∷ p) [] = false
starts (a ∷ p) (b ∷ s) = a == b && starts p s

unfoldable pub has_prefix : Text → Text → Bool
unfolding starts
has_prefix s p = starts p s

unfoldable pub has_suffix : Text → Text → Bool
unfolding starts
has_suffix s p = starts (reverse p) (reverse s)

pub to_lower-eq_nil : (s : Text) → to_lower s ≡ [] → s ≡ []
unfolding to_lower
to_lower-eq_nil [] h = refl
to_lower-eq_nil (c ∷ s) h = ground arith

pub to_lower_nil : to_lower [] ≡ []
unfolding to_lower
to_lower_nil = refl
