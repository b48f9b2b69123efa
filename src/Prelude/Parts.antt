-- ===== src/Prelude/Parts.antt =====
-- A file in parts: where each part stands, and reads of the whole from one part.
use torrin.Prelude.{
  ℕ, zero, suc, ◌+◌, ◌-◌, ◌≤◌, ◌<◌, ◌≡◌, refl, ap, sym, ◌∙◌, inl, inr, Bool-cases, List, [], ◌∷◌,
  ◌++◌, length, get_or, take, drop, ltb, leb, length-append, length-take, length-drop, arith,
}
use torrin.Prelude.Ranges.{take_all, drop_all, take-append, drop-append, drop-take, range}

abbrev pub Bytes : Type 0
Bytes = List ℕ

abbrev pub whole : List Bytes → Bytes
whole [] = []
whole (p ∷ ps) = p ++ whole ps

-- Where a part begins.
abbrev pub offset : List Bytes → ℕ → ℕ
offset ps zero = 0
offset [] (suc i) = 0
offset (p ∷ ps) (suc i) = length p + offset ps i

abbrev pub part : List Bytes → ℕ → Bytes
part ps i = get_or ps i []

pub offset-suc :
    (ps : List Bytes) (i : ℕ) → i < length ps → offset ps (suc i) ≡ offset ps i + length (part ps i)
offset-suc [] i h = absurd (omega arith)
offset-suc (p ∷ ps) zero h = ground arith
offset-suc (p ∷ ps) (suc i) h = omega (arith, offset-suc ps i (omega arith))

pub offset_mono : (ps : List Bytes) (i j : ℕ) → i ≤ j → j ≤ length ps → offset ps i ≤ offset ps j
offset_mono ps zero j h k = omega arith
offset_mono [] (suc i) j h k = absurd (omega arith)
offset_mono (p ∷ ps) (suc i) zero h k = absurd (omega arith)
offset_mono (p ∷ ps) (suc i) (suc j) h k =
    omega (arith, offset_mono ps i j (omega arith) (omega arith))

pub offset_last : (ps : List Bytes) → offset ps (length ps) ≡ length (whole ps)
offset_last [] = refl
offset_last (p ∷ ps) = omega (arith, offset_last ps, length-append p (whole ps))

-- The part that holds a position.
pub locate :
    (ps : List Bytes) (off : ℕ)
    → off < length (whole ps)
    → (k : ℕ) × (k < length ps) × (offset ps k ≤ off) × (off < offset ps k + length (part ps k))
locate [] off h = absurd (omega arith)
locate (p ∷ ps) off h = elim (Bool-cases (ltb off (length p))) [
  | inl here ↦ (0, omega arith, omega arith, ground arith)
  | inr later ↦
      let le : length p ≤ off = ground arith in
      let r = locate ps (off - length p) (omega (arith, length-append p (whole ps))) in
      (suc r.0, omega arith, omega arith, omega arith)
]

drop_skip : (a : ℕ) (xs ys : Bytes) → length xs ≤ a → drop a (xs ++ ys) ≡ drop (a - length xs) ys
drop_skip a xs ys h = drop-append a xs ys ∙ rw (drop_all a xs h) refl

drop_inside : (a : ℕ) (xs ys : Bytes) → a ≤ length xs → drop a (xs ++ ys) ≡ drop a xs ++ ys
drop_inside a xs ys h = let z : a - length xs ≡ 0 = omega arith in drop-append a xs ys ∙ rw z refl

-- What a part gives of a read that begins in it: the bytes that it has, and the read goes on behind.
read_part :
    (n off : ℕ) (xs ys : Bytes)
    → off ≤ length xs
    → let p = take n (drop off xs) in
      take n (drop off (xs ++ ys)) ≡ p ++ take (n - length p) (drop (off + length p) (xs ++ ys))
read_part n off xs ys h = elim (Bool-cases (leb (off + n) (length xs))) [
  | inl fits ↦
      let l : length (take n (drop off xs)) ≡ n =
        ground (arith, length-take n (drop off xs), length-drop off xs) in
      let z : n - n ≡ 0 = omega arith in
      let y : n - length (drop off xs) ≡ 0 = ground (arith, length-drop off xs) in
      rw (l, z) (ap (take n) (drop_inside off xs ys h) ∙ take-append n (drop off xs) ys ∙ rw y refl)
  | inr past ↦
      let all : take n (drop off xs) ≡ drop off xs =
        take_all n (drop off xs) (ground (arith, length-drop off xs)) in
      let e : off + length (drop off xs) ≡ length xs = omega (arith, length-drop off xs) in
      let z : length xs - length xs ≡ 0 = omega arith in
      rw all (
        rw (e, drop_skip (length xs) xs ys (omega arith), z)
          (ap (take n) (drop_inside off xs ys h) ∙ take-append n (drop off xs) ys ∙ rw all refl))
]

pub take-part :
    (ps : List Bytes) (k off n : ℕ)
    → k < length ps
    → offset ps k ≤ off
    → off < offset ps k + length (part ps k)
    → let p = take n (drop (off - offset ps k) (part ps k)) in
      take n (drop off (whole ps)) ≡ p ++ take (n - length p) (drop (off + length p) (whole ps))
take-part [] k off n h a b = absurd (omega arith)
take-part (x ∷ ps) zero off n h a b =
    let z : off - 0 ≡ off = omega arith in rw z (read_part n off x (whole ps) (omega arith))
take-part (x ∷ ps) (suc k) off n h a b =
    let m : off - (length x + offset ps k) ≡ off - length x - offset ps k = omega arith in
    let p : Bytes = take n (drop (off - length x - offset ps k) (part ps k)) in
    let e : off + length p - length x ≡ off - length x + length p = omega arith in
    rw
      (
        m,
        drop_skip off x (whole ps) (omega arith),
        drop_skip (off + length p) x (whole ps) (omega arith),
        e,
      )
      (take-part ps k (off - length x) n (omega arith) (omega arith) (omega arith))

pub drop-offset : (ps : List Bytes) (i : ℕ) → drop (offset ps i) (whole ps) ≡ whole (drop i ps)
drop-offset ps zero = refl
drop-offset [] (suc i) = refl
drop-offset (p ∷ ps) (suc i) =
    let e : length p + offset ps i - length p ≡ offset ps i = omega arith in
    drop_skip (length p + offset ps i) p (whole ps) (omega arith) ∙ rw e (drop-offset ps i)

pub take-offset : (ps : List Bytes) (i : ℕ) → take (offset ps i) (whole ps) ≡ whole (take i ps)
take-offset ps zero = refl
take-offset [] (suc i) = refl
take-offset (p ∷ ps) (suc i) =
    let e : length p + offset ps i - length p ≡ offset ps i = omega arith in
    take-append (length p + offset ps i) p (whole ps)
    ∙ rw (take_all (length p + offset ps i) p (omega arith), e) (ap (p ++◌) (take-offset ps i))

pub offset-take : (ps : List Bytes) (i j : ℕ) → i ≤ j → offset (take j ps) i ≡ offset ps i
offset-take ps zero j h = refl
offset-take ps (suc i) zero h = absurd (omega arith)
offset-take [] (suc i) (suc j) h = refl
offset-take (p ∷ ps) (suc i) (suc j) h = ap (length p +◌) (offset-take ps i j (omega arith))

-- The bytes of some consecutive parts.
pub range_of_parts :
    (ps : List Bytes) (i j : ℕ)
    → i ≤ j
    → range (offset ps i) (offset ps j) (whole ps) ≡ whole (drop i (take j ps))
unfolding range
range_of_parts ps i j h =
    sym (drop-take (offset ps i) (offset ps j) (whole ps))
    ∙ ap (drop (offset ps i)) (take-offset ps j)
    ∙ rw (sym (offset-take ps i j h)) (drop-offset (take j ps) i)
