-- ===== src/Prelude/Select.antt =====
-- The elements of a list that pass a Boolean test.
use Prim.Native.Nat.{◌+◌, ◌≤◌}
use mathlib.Core.Path.{◌≡◌, refl}
use mathlib.Core.Bool.{Bool, true, false, not, ◌||◌}
use mathlib.Core.List.{List, [], ◌∷◌}
use native.Mathlib.Omega.{arith}
use torrin.Prelude.Tests.{if◌then◌else◌}
use torrin.Prelude.Lists.{length}

module _ {ℓ} {A : Type ℓ} where
  unfoldable pub keep : (A → Bool) → List A → List A
  keep p [] = []
  keep p (x ∷ l) = let rest = keep p l in if p x then x ∷ rest else rest

  unfoldable pub any_of : (A → Bool) → List A → Bool
  any_of p [] = false
  any_of p (x ∷ l) = p x || any_of p l

  pub length-keep-le : (p : A → Bool) (l : List A) → length (keep p l) ≤ length l
  unfolding keep
  length-keep-le p [] = omega arith
  length-keep-le p (x ∷ l) = ground (arith, length-keep-le p l)

  pub any-keep : (p q : A → Bool) (l : List A) → any_of p l ≡ false → any_of p (keep q l) ≡ false
  unfolding keep any_of
  any-keep p q [] h = refl
  any-keep p q (x ∷ l) h = ground (arith, any-keep p q l)

  -- Taking out what passes a test that some element passes makes the list shorter.
  pub length-keep-lt :
      (p : A → Bool) (l : List A)
      → any_of p l ≡ true
      → length (keep (λ x. not (p x)) l) + 1 ≤ length l
  unfolding keep any_of
  length-keep-lt p [] h = absurd (ground arith)
  length-keep-lt p (x ∷ l) h = ground (arith, length-keep-lt p l, length-keep-le (λ x. not (p x)) l)
