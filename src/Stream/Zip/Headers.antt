-- ===== src/Stream/Zip/Headers.antt =====
-- What a reader of the archive finds in the headers.
use torrin.Prelude.{
  ℕ, ◌+◌, ◌-◌, ◌*◌, ◌^◌, ◌≤◌, ◌<◌, ◌≡◌, refl, ap, ◌∙◌, true, [], ◌∷◌, ◌++◌, if◌then◌else◌, leb,
  ◌==◌, length, take, drop, length-append, Bool-cases, inl, inr, arith,
}
use torrin.Prelude.Ranges.{range, drop-append, drop_all}
use torrin.Stream.Zip.Layout.{
  Bytes, ZipEntry, zip64_marker, le16, le32, le64, central_extra, central_header,
}

-- The number that bytes stand for, the lowest first.
unfoldable pub le_value : Bytes → ℕ
le_value [] = 0
le_value (b ∷ bs) = b + 256 * le_value bs

pub le_value-le32 : (v : ℕ) → v < 2 ^ 32 → le_value (le32 v) ≡ v
unfolding le_value le32
le_value-le32 v h = omega arith

pub le_value-le64 : (v : ℕ) → v < 2 ^ 64 → le_value (le64 v) ≡ v
unfolding le_value le64
le_value-le64 v h = omega arith

-- The last `n` elements.
unfoldable pub final : ℕ → Bytes → Bytes
final n xs = drop (length xs - n) xs

final-append : (n : ℕ) (xs ys : Bytes) → n ≤ length ys → final n (xs ++ ys) ≡ final n ys
unfolding final
final-append n xs ys h =
    let past : length (xs ++ ys) - n - length xs ≡ length ys - n =
      omega (arith, length-append xs ys) in
    let gone : drop (length (xs ++ ys) - n) xs ≡ [] =
      drop_all (length (xs ++ ys) - n) xs (omega (arith, length-append xs ys)) in
    rw (drop-append (length (xs ++ ys) - n) xs ys, past, gone) refl

-- How a reader finds the local header of a central header: the 32-bit field, or the last field of
-- the zip64 record.
abbrev pub read_offset : Bytes → ℕ
read_offset h =
    let v = le_value (range 42 46 h) in if v == zip64_marker then le_value (final 8 h) else v

-- The fields of fixed length.
central_fixed : ZipEntry → ℕ → Bytes
central_fixed e o = take 46 (central_header (record e { name = [] }) o)

offset_field :
    (e : ZipEntry) (o : ℕ)
    → range 42 46 (central_header e o) ≡ le32 (if leb zip64_marker o then zip64_marker else o)
unfolding range central_header le32 le16
offset_field e o = refl

-- With a large offset the zip64 record ends in the offset.
extra_off :
    (e : ZipEntry) (o : ℕ)
    → leb zip64_marker o ≡ true
    → (final 8 (central_extra e o) ≡ le64 o) × (8 ≤ length (central_extra e o))
unfolding final central_extra le64 le16
extra_off e o h = elim (Bool-cases (leb zip64_marker e.size)) [
  | inl large ↦ (rw (large, h, central_extra) refl, rw (large, h, central_extra) (omega arith))
  | inr small ↦ (rw (small, h, central_extra) refl, rw (small, h, central_extra) (omega arith))
]

central_split :
    (e : ZipEntry) (o : ℕ)
    → central_header e o ≡ take 46 (central_header e o) ++ (e.name ++ central_extra e o)
unfolding central_header le32 le16
central_split e o = refl

final_off :
    (e : ZipEntry) (o : ℕ) → leb zip64_marker o ≡ true → final 8 (central_header e o) ≡ le64 o
final_off e o h =
    let (value, long) = extra_off e o h in
    ap (final 8) (central_split e o)
    ∙ final-append 8 (take 46 (central_header e o)) (e.name ++ central_extra e o)
        (omega (arith, length-append e.name (central_extra e o)))
    ∙ final-append 8 e.name (central_extra e o) long
    ∙ value

-- A reader of a central header finds the offset of the local header that it was built for, in the
-- 32-bit field or, where that holds the marker, at the end of the zip64 record.
pub read_offset-central_header :
    (e : ZipEntry) (o : ℕ) → o < 2 ^ 64 → read_offset (central_header e o) ≡ o
read_offset-central_header e o h = elim (Bool-cases (leb zip64_marker o)) [
  | inl large ↦ ground (
    arith,
    ap le_value (offset_field e o),
    le_value-le32 zip64_marker (omega arith),
    ap le_value (final_off e o large),
    le_value-le64 o h,
  )
  | inr small ↦ ground (arith, ap le_value (offset_field e o), le_value-le32 o (ground arith))
]
