-- ===== src/Prelude/Dict.antt =====
-- Go maps with string keys, as lists of pairs in which no key stands twice.
use mathlib.Core.Path.{◌≡◌, refl}
use mathlib.Core.Logic.{inl, inr}
use mathlib.Core.Bool.{Bool, false, ◌||◌}
use mathlib.Core.Option.{Option, none, some}
use mathlib.Core.List.{List, [], ◌∷◌}
use native.Mathlib.Omega.{arith}
use torrin.Prelude.Tests.{if◌then◌else◌, Bool-cases}
use torrin.Prelude.Text.{Text, same, same_iff}

module _ {V : Type 0} where
  -- `v, ok := m[k]`
  unfoldable pub get : Text → List (Text × V) → Option V
  get k [] = none
  get k ((j, v) ∷ m) = let rest = get k m in if same j k then some v else rest

  unfoldable pub has_key : Text → List (Text × V) → Bool
  has_key k [] = false
  has_key k ((j, v) ∷ m) = same j k || has_key k m

  -- `m[k] = v`
  unfoldable pub put : Text → V → List (Text × V) → List (Text × V)
  put k v [] = (k, v) ∷ []
  put k v ((j, w) ∷ m) = let rest = put k v m in if same j k then (k, v) ∷ m else (j, w) ∷ rest

  -- `delete(m, k)`
  unfoldable pub del : Text → List (Text × V) → List (Text × V)
  del k [] = []
  del k ((j, w) ∷ m) = let rest = del k m in if same j k then m else (j, w) ∷ rest

  abbrev pub DistinctKeys : List (Text × V) → Type 0
  DistinctKeys [] = Unit
  DistinctKeys ((j, v) ∷ m) = (has_key j m ≡ false) × DistinctKeys m

  pub get-put :
      (j k : Text) (v : V) (m : List (Text × V))
      → get j (put k v m) ≡ (if same k j then some v else get j m)
  unfolding get put
  get-put j k v [] = refl
  get-put j k v ((i, w) ∷ m) =
      ground (arith, get-put j k v m, same_iff i k, same_iff i j, same_iff k j)

  get_absent : (k : Text) (m : List (Text × V)) → has_key k m ≡ false → get k m ≡ none
  unfolding get has_key
  get_absent k [] h = refl
  get_absent k ((j, v) ∷ m) h = ground (arith, get_absent k m)

  pub get-del :
      (j k : Text) (m : List (Text × V))
      → DistinctKeys m
      → get j (del k m) ≡ (if same k j then none else get j m)
  unfolding get del
  get-del j k [] d = ground arith
  get-del j k ((i, w) ∷ m) d = elim (Bool-cases (same i k)) [
    | inl here ↦
        let e : i ≡ k = (same_iff i k).0 here in
        let gone : get k m ≡ none = get_absent k m (rw (← e) d.0) in
        ground (arith, same_iff k j, same_iff i j)
    | inr other ↦ ground (arith, get-del j k m d.1, same_iff i j, same_iff k j, same_iff i k)
  ]

  has_key-put :
      (j k : Text) (v : V) (m : List (Text × V)) → has_key j (put k v m) ≡ (same k j || has_key j m)
  unfolding has_key put
  has_key-put j k v [] = refl
  has_key-put j k v ((i, w) ∷ m) = ground (arith, has_key-put j k v m, same_iff i k)

  has_key-del :
      (j k : Text) (m : List (Text × V)) → has_key j m ≡ false → has_key j (del k m) ≡ false
  unfolding has_key del
  has_key-del j k [] h = refl
  has_key-del j k ((i, w) ∷ m) h = ground (arith, has_key-del j k m)

  pub put-DistinctKeys :
      (k : Text) (v : V) (m : List (Text × V)) → DistinctKeys m → DistinctKeys (put k v m)
  unfolding put has_key
  put-DistinctKeys k v [] d = (refl, tt)
  put-DistinctKeys k v ((j, w) ∷ m) d = elim (Bool-cases (same j k)) [
    | inl here ↦ let e : j ≡ k = (same_iff j k).0 here in rw here (rw (← e) d.0, d.1)
    | inr other ↦ rw other (
      ground (arith, has_key-put j k v m, same_iff k j, same_iff j k),
      put-DistinctKeys k v m d.1,
    )
  ]

  pub del-DistinctKeys : (k : Text) (m : List (Text × V)) → DistinctKeys m → DistinctKeys (del k m)
  unfolding del
  del-DistinctKeys k [] d = tt
  del-DistinctKeys k ((j, w) ∷ m) d = elim (Bool-cases (same j k)) [
    | inl here ↦ rw here d.1
    | inr other ↦ rw other (has_key-del j k m d.0, del-DistinctKeys k m d.1)
  ]
