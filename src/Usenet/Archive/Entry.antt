-- ===== src/Usenet/Archive/Entry.antt =====
-- An entry's fragments, `addFrag`, and `ReadAt` of its reader. The volumes are an argument: what their
-- `ReadAt` gives for a number of bytes at an offset.
use torrin.Prelude.{
  ℕ, zero, suc, ◌+◌, ◌-◌, min, Bool, true, false, Option, none, some, List, [], ◌∷◌, ◌++◌,
  if◌then◌else◌, ltb,
}
use torrin.Prelude.Dict.{get, put}
use torrin.Prelude.Parts.{Bytes}
use torrin.Prelude.Text.{Text}
use torrin.Prelude.{length}

pub data Error : Type 0 where
  eof read_failed : Error

pub record Frag : Type 0 where
  pub vol : ℕ
  pub off : ℕ
  pub len : ℕ

pub record Entry : Type 0 where
  pub size : ℕ
  pub streamable : Bool
  pub frags : List Frag

-- `add_frag` of the entries by name, and the names in the order in which they came.
unfoldable pub add_frag :
    Text → ℕ → Bool → Frag → List (Text × Entry) × List Text → List (Text × Entry) × List Text
add_frag name size streamable f (by_name, order) = elim (get name by_name) [
  | none ↦ (
    put name (record { size = size; streamable = streamable; frags = f ∷ [] }) by_name,
    order ++ (name ∷ []),
  )
  | some e ↦ (
    put name
        (record e { size = if ltb e.size size then size else e.size; frags = e.frags ++ (f ∷ []) })
        by_name,
    order,
  )
]

-- The fragment that holds a position, and where it begins in the entry.
unfoldable pub find_frag : List Frag → ℕ → ℕ → Option (Frag × ℕ)
find_frag [] base o = none
find_frag (f ∷ frags) base o =
    let rest = find_frag frags (base + f.len) o in
    if ltb o (base + f.len) then some (f, base) else rest

-- `err != nil && !errors.Is(err, io.EOF)`
abbrev pub is_failure : Option Error → Bool
is_failure none = false
is_failure (some eof) = false
is_failure (some read_failed) = true

-- One turn of the loop of `ReadAt`, with `left` bytes to read at `off`, and `again` for the turns
-- behind it: what was read, and the error.
unfoldable pub read_turn :
    (ℕ → ℕ → ℕ → Bytes × Option Error)
    → List Frag
    → (ℕ → ℕ → Option (Bytes × Option Error))
    → ℕ
    → ℕ
    → Option (Bytes × Option Error)
read_turn vols frags again off left = elim (find_frag frags 0 off) [
  | none ↦ some ([], some eof)
  | some (f, base) ↦
      let want = min (base + f.len - off) left in
      let (p, e) = vols f.vol want (f.off + (off - base)) in
      elim (is_failure e) [
        | true ↦ some (p, e)
        | false ↦ elim (again (off + length p) (left - length p)) [
          | none ↦ none
          | some (rest, e') ↦ some (p ++ rest, e')
        ]
      ]
]

-- The loop; `none` as long as it runs.
unfoldable pub read_entry :
    (ℕ → ℕ → ℕ → Bytes × Option Error) → List Frag → ℕ → ℕ → ℕ → Option (Bytes × Option Error)
unfolding read_turn
read_entry vols frags fuel off zero = some ([], none)
read_entry vols frags zero off (suc left) = none
read_entry vols frags (suc fuel) off (suc left) =
    read_turn vols frags (read_entry vols frags fuel) off (suc left)
