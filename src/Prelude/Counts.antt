-- ===== src/Prelude/Counts.antt =====
-- Go maps from strings to counts, where an absent key reads as 0.
use Prim.Native.Nat.{ℕ}
use mathlib.Core.Path.{◌≡◌}
use mathlib.Core.Option.{none, some}
use mathlib.Core.List.{List}
use native.Mathlib.Omega.{arith}
use torrin.Prelude.Tests.{if◌then◌else◌}
use torrin.Prelude.Text.{Text, same}
use torrin.Prelude.Dict.{get, put, del, DistinctKeys, get-put, get-del}

-- `m[k]` of a map of counts.
abbrev pub count_at : Text → List (Text × ℕ) → ℕ
count_at k m = elim (get k m) [ none ↦ 0 | some n ↦ n ]

pub put_count :
    (u id : Text) (n : ℕ) (m : List (Text × ℕ))
    → count_at u (put id n m) ≡ (if same id u then n else count_at u m)
put_count u id n m = ground (arith, get-put u id n m)

pub del_count :
    (u id : Text) (m : List (Text × ℕ))
    → DistinctKeys m
    → count_at u (del id m) ≡ (if same id u then 0 else count_at u m)
del_count u id m d = ground (arith, get-del u id m d)
