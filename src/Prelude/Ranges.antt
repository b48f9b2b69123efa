-- ===== src/Prelude/Ranges.antt =====
-- The part of a list between two positions.
use torrin.Prelude.{
  ℕ, zero, suc, ◌+◌, ◌-◌, ◌≤◌, ◌≡◌, refl, ap, sym, ◌∙◌, List, [], ◌∷◌, ◌++◌, min, length, take,
  drop, length-take, length-drop, arith,
}
use mathlib.Core.List.{append-nil}

module _ {ℓ} {A : Type ℓ} where
  pub take_all : (n : ℕ) (xs : List A) → length xs ≤ n → take n xs ≡ xs
  take_all zero [] h = refl
  take_all zero (x ∷ xs) h = absurd (omega arith)
  take_all (suc n) [] h = refl
  take_all (suc n) (x ∷ xs) h = ap (◌∷◌ x) (take_all n xs (omega arith))

  pub drop_all : (n : ℕ) (xs : List A) → length xs ≤ n → drop n xs ≡ []
  drop_all zero [] h = refl
  drop_all zero (x ∷ xs) h = absurd (omega arith)
  drop_all (suc n) [] h = refl
  drop_all (suc n) (x ∷ xs) h = drop_all n xs (omega arith)

  pub take-append :
      (n : ℕ) (xs ys : List A) → take n (xs ++ ys) ≡ take n xs ++ take (n - length xs) ys
  take-append zero xs ys = let e : 0 - length xs ≡ 0 = omega arith in rw e refl
  take-append (suc n) [] ys = let e : suc n - 0 ≡ suc n = omega arith in rw e refl
  take-append (suc n) (x ∷ xs) ys =
      let e : suc n - suc (length xs) ≡ n - length xs = omega arith in
      rw (take-append n xs ys, e) refl

  pub drop-append :
      (n : ℕ) (xs ys : List A) → drop n (xs ++ ys) ≡ drop n xs ++ drop (n - length xs) ys
  drop-append zero xs ys = let e : 0 - length xs ≡ 0 = omega arith in rw e refl
  drop-append (suc n) [] ys = let e : suc n - 0 ≡ suc n = omega arith in rw e refl
  drop-append (suc n) (x ∷ xs) ys =
      let e : suc n - suc (length xs) ≡ n - length xs = omega arith in
      rw (drop-append n xs ys, e) refl

  -- The elements from position `a` up to position `b`, `b` excluded.
  unfoldable pub range : ℕ → ℕ → List A → List A
  range a b xs = take (b - a) (drop a xs)

  -- A range of two lists joined is the range of the first, and that of the second moved.
  pub range-append :
      (a b : ℕ) (xs ys : List A)
      → range a b (xs ++ ys) ≡ range a b xs ++ range (a - length xs) (b - length xs) ys
  unfolding range
  range-append a b xs ys =
      ap (take (b - a)) (drop-append a xs ys)
      ∙ take-append (b - a) (drop a xs) (drop (a - length xs) ys)
      ∙ ap (λ k. take (b - a) (drop a xs) ++ take k (drop (a - length xs) ys)) same_count
    where
      same_count : b - a - length (drop a xs) ≡ b - length xs - (a - length xs)
      same_count = omega (arith, length-drop a xs)

  pub range_before : (a b : ℕ) (xs : List A) → length xs ≤ a → range a b xs ≡ []
  unfolding range
  range_before a b xs h = rw (drop_all a xs h) (take_nil (b - a))
    where
      take_nil : (n : ℕ) → take {A = A} n [] ≡ []
      take_nil zero = refl
      take_nil (suc n) = refl

  pub range_after : (a b : ℕ) (xs : List A) → b ≤ a → range a b xs ≡ []
  unfolding range
  range_after a b xs h = let e : b - a ≡ 0 = omega arith in rw e refl

  -- An end past the list does not matter.
  pub range_clip :
      (a b c : ℕ) (xs : List A)
      → min b (length xs) ≡ min c (length xs)
      → range a b xs ≡ range a c xs
  unfolding range
  range_clip a b c xs h = clip (b - a) (c - a) (drop a xs) (omega (arith, length-drop a xs))
    where
      clip : (m n : ℕ) (ys : List A) → min m (length ys) ≡ min n (length ys) → take m ys ≡ take n ys
      clip m zero [] e = take_all m [] (omega arith)
      clip m (suc n) [] e = take_all m [] (omega arith)
      clip zero zero (y ∷ ys) e = refl
      clip zero (suc n) (y ∷ ys) e = absurd (omega arith)
      clip (suc m) zero (y ∷ ys) e = absurd (omega arith)
      clip (suc m) (suc n) (y ∷ ys) e = ap (◌∷◌ y) (clip m n ys (omega arith))

  pub range_whole : (n : ℕ) (xs : List A) → length xs ≤ n → range 0 n xs ≡ xs
  unfolding range
  range_whole n xs h = take_all (n - 0) xs (omega arith)

  pub length-range : (a b : ℕ) (xs : List A) → b ≤ length xs → length (range a b xs) ≡ b - a
  unfolding range
  length-range a b xs h = omega (arith, length-take (b - a) (drop a xs), length-drop a xs)

  pub range_skip :
      (a b : ℕ) (xs ys : List A)
      → length xs ≤ a
      → range a b (xs ++ ys) ≡ range (a - length xs) (b - length xs) ys
  range_skip a b xs ys h = rw (range-append a b xs ys, range_before a b xs h) refl

  pub range_within :
      (a b : ℕ) (xs ys : List A) → b ≤ length xs → range a b (xs ++ ys) ≡ range a b xs
  range_within a b xs ys h =
      rw (range-append a b xs ys, range_after (a - length xs) (b - length xs) ys (omega arith))
        (append-nil (range a b xs))

  -- A list that stands behind another.
  pub range_second :
      (xs ys zs : List A) → range (length xs) (length xs + length ys) (xs ++ (ys ++ zs)) ≡ ys
  range_second xs ys zs =
      let a : length xs - length xs ≡ 0 = omega arith in
      let b : length xs + length ys - length xs ≡ length ys = omega arith in
      range_skip (length xs) (length xs + length ys) xs (ys ++ zs) (omega arith)
      ∙ rw (a, b)
          (range_within 0 (length ys) ys zs (omega arith)
            ∙ range_whole (length ys) ys (omega arith))

  pub drop-take : (a b : ℕ) (xs : List A) → drop a (take b xs) ≡ take (b - a) (drop a xs)
  drop-take zero b xs = ap (λ k. take k xs) {x = b} {y = b - 0} (omega arith)
  drop-take (suc a) zero xs = let z : 0 - suc a ≡ 0 = omega arith in rw z refl
  drop-take (suc a) (suc b) [] = sym (take_all (suc b - suc a) [] (omega arith))
  drop-take (suc a) (suc b) (x ∷ xs) =
      let z : suc b - suc a ≡ b - a = omega arith in rw z (drop-take a b xs)

  take-take : (m n : ℕ) (xs : List A) → m ≤ n → take m (take n xs) ≡ take m xs
  take-take zero n xs h = refl
  take-take (suc m) zero xs h = absurd (omega arith)
  take-take (suc m) (suc n) [] h = refl
  take-take (suc m) (suc n) (x ∷ xs) h = ap (◌∷◌ x) (take-take m n xs (omega arith))

  drop-drop : (m n : ℕ) (xs : List A) → drop m (drop n xs) ≡ drop (n + m) xs
  drop-drop m zero xs = ap (λ k. drop k xs) {x = m} {y = 0 + m} (omega arith)
  drop-drop m (suc n) [] = drop_all m [] (omega arith) ∙ sym (drop_all (suc n + m) [] (omega arith))
  drop-drop m (suc n) (x ∷ xs) =
      let e : suc n + m ≡ suc (n + m) = omega arith in rw e (drop-drop m n xs)

  -- A range of a range.
  pub range-range :
      (a b i j : ℕ) (xs : List A)
      → i ≤ a
      → a ≤ b
      → b ≤ j
      → take (b - a) (drop (a - i) (range i j xs)) ≡ range a b xs
  unfolding range
  range-range a b i j xs p q r =
      let e : i + (a - i) ≡ a = omega arith in
      rw (drop-take (a - i) (j - i) (drop i xs), drop-drop (a - i) i xs, e)
        (take-take (b - a) (j - i - (a - i)) (drop a xs) (omega arith))

  -- No more is taken than there is.
  pub take_clip : (m n : ℕ) (xs : List A) → m ≡ min (length xs) n → take m xs ≡ take n xs
  take_clip m n [] h = take_all m [] (omega arith) ∙ sym (take_all n [] (omega arith))
  take_clip zero zero (x ∷ xs) h = refl
  take_clip zero (suc n) (x ∷ xs) h = absurd (omega arith)
  take_clip (suc m) zero (x ∷ xs) h = absurd (omega arith)
  take_clip (suc m) (suc n) (x ∷ xs) h = ap (◌∷◌ x) (take_clip m n xs (omega arith))
