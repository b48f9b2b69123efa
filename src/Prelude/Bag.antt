-- ===== src/Prelude/Bag.antt =====
-- A list of keys as a bag: what is held, as often as it is held.
use Prim.Native.Nat.{ℕ, suc, ◌+◌, ◌-◌, ◌≤◌, ◌<◌}
use mathlib.Core.Path.{◌≡◌, refl}
use mathlib.Core.List.{List, [], ◌∷◌}
use native.Mathlib.Omega.{arith}
use torrin.Prelude.Tests.{if◌then◌else◌}
use torrin.Prelude.Lists.{length}
use torrin.Prelude.Text.{Text, same, same_iff}

unfoldable pub count : Text → List Text → ℕ
count k [] = 0
count k (j ∷ l) = if same j k then suc (count k l) else count k l

-- One occurrence less.
unfoldable pub erase : Text → List Text → List Text
erase k [] = []
erase k (j ∷ l) = let rest = erase k l in if same j k then l else j ∷ rest

pub count-cons :
    (j k : Text) (l : List Text)
    → count j (k ∷ l) ≡ (if same k j then suc (count j l) else count j l)
unfolding count
count-cons j k l = refl

pub count-erase :
    (j k : Text) (l : List Text)
    → count j (erase k l) ≡ (if same k j then count j l - 1 else count j l)
unfolding count erase
count-erase j k [] = ground arith
count-erase j k (i ∷ l) =
    ground (arith, count-erase j k l, same_iff i k, same_iff i j, same_iff k j)

pub length-erase : (k : Text) (l : List Text) → 0 < count k l → length (erase k l) + 1 ≡ length l
unfolding count erase
length-erase k [] h = absurd (omega arith)
length-erase k (i ∷ l) h = ground (arith, length-erase k l)

pub count-le-length : (k : Text) (l : List Text) → count k l ≤ length l
unfolding count
count-le-length k [] = omega arith
count-le-length k (i ∷ l) = ground (arith, count-le-length k l)
