-- ===== src/Providers/Writes.antt =====
-- Writes of parts of one file, made by several connections in any order.
use torrin.Prelude.{
  ℕ, zero, suc, ◌+◌, ◌≤◌, ◌<◌, ◌≡◌, refl, ap, ◌∙◌, ◌⊎◌, inl, inr, true, List, [], ◌∷◌, ◌++◌,
  get_elem?, length, drop, leb, ltb, ◌==◌, length-append, length-drop, Bool-cases, All, arith,
}
use mathlib.Core.Path.{subst}
use torrin.Prelude.Family.{update}
use torrin.Prelude.Parts.{Bytes}
use torrin.Providers.Body.{Write, write_at}
use torrin.Providers.Served.{Prefix}
use torrin.Providers.Parallel.{play}

-- The bytes of a write are the file's.
abbrev pub GoodWrite : Bytes → Write → Type 0
GoodWrite D (p, bs) = Prefix bs (drop p D)

-- A position is written by one of the writes.
abbrev pub Hit : ℕ → List Write → Type 0
Hit j [] = ⊥
Hit j ((p, bs) ∷ ws) = ((p ≤ j) × (j < p + length bs)) ⊎ Hit j ws

abbrev pub Right : Bytes → Bytes → ℕ → Type 0
Right D f j = get_elem? f j ≡ get_elem? D j

pub all_Right : (D f : Bytes) → length f ≡ length D → ((j : ℕ) → j < length D → Right D f j) → f ≡ D
all_Right [] [] e h = refl
all_Right [] (x ∷ f) e h = absurd (omega (arith, e))
all_Right (d ∷ D) [] e h = absurd (omega (arith, e))
all_Right (d ∷ D) (x ∷ f) e h =
    let x_eq : x ≡ d = ground (arith, h 0 (omega arith)) in
    let rest : f ≡ D = all_Right D f (omega (arith, e)) (λ j lt. h (suc j) (omega arith)) in
    rw (x_eq, rest) refl

written_first :
    (bs f rest : Bytes) (j : ℕ)
    → j < length bs
    → get_elem? (write_at 0 bs f) j ≡ get_elem? (bs ++ rest) j
unfolding write_at
written_first [] f rest j h = absurd (omega arith)
written_first (b ∷ bs) [] rest zero h = refl
written_first (b ∷ bs) (x ∷ f) rest zero h = refl
written_first (b ∷ bs) [] rest (suc j) h = in_front bs rest j (omega arith)
  where
    in_front : (xs ys : Bytes) (i : ℕ) → i < length xs → get_elem? xs i ≡ get_elem? (xs ++ ys) i
    in_front [] ys i lt = absurd (omega arith)
    in_front (x ∷ xs) ys zero lt = refl
    in_front (x ∷ xs) ys (suc i) lt = in_front xs ys i (omega arith)
written_first (b ∷ bs) (x ∷ f) rest (suc j) h = written_first bs f rest j (omega arith)

-- What a good write writes is right, whatever was there.
write_at-Right :
    (D f : Bytes) (p : ℕ) (bs : Bytes) (j : ℕ)
    → GoodWrite D (p, bs)
    → p ≤ j
    → j < p + length bs
    → Right D (write_at p bs f) j
unfolding write_at
write_at-Right D f p [] j g a c = absurd (omega arith)
write_at-Right D f zero (b ∷ bs) j (rest, e) a c =
    written_first (b ∷ bs) f rest j (omega arith) ∙ ap (λ q. get_elem? q j) e
write_at-Right [] f (suc p) (b ∷ bs) j (rest, e) a c = absurd (ground (arith, ap length e))
write_at-Right (d ∷ D) f (suc p) (b ∷ bs) zero g a c = absurd (omega arith)
write_at-Right (d ∷ D) [] (suc p) (b ∷ bs) (suc j) g a c =
    write_at-Right D [] p (b ∷ bs) j g (omega arith) (omega arith)
write_at-Right (d ∷ D) (x ∷ f) (suc p) (b ∷ bs) (suc j) g a c =
    write_at-Right D f p (b ∷ bs) j g (omega arith) (omega arith)

write_at-outside :
    (f : Bytes) (p : ℕ) (bs : Bytes) (j : ℕ)
    → p + length bs ≤ length f
    → (j < p) ⊎ (p + length bs ≤ j)
    → get_elem? (write_at p bs f) j ≡ get_elem? f j
unfolding write_at
write_at-outside f p [] j fits out = refl
write_at-outside [] zero (b ∷ bs) j fits out = absurd (omega arith)
write_at-outside [] (suc p) (b ∷ bs) j fits out = absurd (omega arith)
write_at-outside (x ∷ f) zero (b ∷ bs) zero fits (inl lt) = absurd (omega arith)
write_at-outside (x ∷ f) zero (b ∷ bs) zero fits (inr le) = absurd (omega arith)
write_at-outside (x ∷ f) zero (b ∷ bs) (suc j) fits (inl lt) = absurd (omega arith)
write_at-outside (x ∷ f) zero (b ∷ bs) (suc j) fits (inr le) =
    write_at-outside f zero bs j (omega arith) (inr (omega arith))
write_at-outside (x ∷ f) (suc p) (b ∷ bs) zero fits out = refl
write_at-outside (x ∷ f) (suc p) (b ∷ bs) (suc j) fits (inl lt) =
    write_at-outside f p (b ∷ bs) j (omega arith) (inl (omega arith))
write_at-outside (x ∷ f) (suc p) (b ∷ bs) (suc j) fits (inr le) =
    write_at-outside f p (b ∷ bs) j (omega arith) (inr (omega arith))

length-write_at :
    (f : Bytes) (p : ℕ) (bs : Bytes)
    → p + length bs ≤ length f
    → length (write_at p bs f) ≡ length f
unfolding write_at
length-write_at f p [] fits = refl
length-write_at [] p (b ∷ bs) fits = absurd (omega arith)
length-write_at (x ∷ f) zero (b ∷ bs) fits = ap suc (length-write_at f zero bs (omega arith))
length-write_at (x ∷ f) (suc p) (b ∷ bs) fits = ap suc (length-write_at f p (b ∷ bs) (omega arith))

write_fits :
    (D : Bytes) (p b : ℕ) (bs : Bytes) → GoodWrite D (p, b ∷ bs) → p + length (b ∷ bs) ≤ length D
write_fits D p b bs (rest, e) =
    omega (arith, ap length e, length-append (b ∷ bs) rest, length-drop p D)

good_length :
    (D f : Bytes) (p : ℕ) (bs : Bytes)
    → length f ≡ length D
    → GoodWrite D (p, bs)
    → length (write_at p bs f) ≡ length D
unfolding write_at
good_length D f p [] l g = l
good_length D f p (b ∷ bs) l g =
    length-write_at f p (b ∷ bs) (omega (arith, l, write_fits D p b bs g)) ∙ l

good_keeps :
    (D f : Bytes) (p : ℕ) (bs : Bytes) (j : ℕ)
    → length f ≡ length D
    → GoodWrite D (p, bs)
    → Right D f j
    → Right D (write_at p bs f) j
unfolding write_at
good_keeps D f p [] j l g right = right
good_keeps D f p (b ∷ bs) j l g right =
    let fits : p + length (b ∷ bs) ≤ length f = omega (arith, l, write_fits D p b bs g) in
    elim (Bool-cases (ltb j p)) [
      | inl below ↦ write_at-outside f p (b ∷ bs) j fits (inl (ground (arith, below))) ∙ right
      | inr from ↦ elim (Bool-cases (leb (p + length (b ∷ bs)) j)) [
        | inl behind ↦ write_at-outside f p (b ∷ bs) j fits (inr (ground (arith, behind))) ∙ right
        | inr inside ↦
            write_at-Right D f p (b ∷ bs) j g (ground (arith, from)) (ground (arith, inside))
      ]
    ]

List-cases {ℓ} : {A : Type ℓ} (l : List A) → (l ≡ []) ⊎ ((x : A) × (xs : List A) × (l ≡ x ∷ xs))
List-cases [] = inl refl
List-cases (x ∷ xs) = inr (x, xs, refl)

-- The writes that a schedule leaves to make.
unfoldable pub left_over : List ℕ → (ℕ → List Write) → ℕ → List Write
left_over [] pending = pending
left_over (i ∷ is) pending = elim (pending i) [
  | [] ↦ left_over is pending
  | w ∷ ws ↦ left_over is (update pending i ws)
]

module _ (D : Bytes) (n : ℕ) where
  abbrev pub AllGood : (ℕ → List Write) → Type 0
  AllGood pending = (i : ℕ) → All (GoodWrite D) (pending i)

  -- A position is right already, or is still to be written.
  abbrev pub Coming : (ℕ → List Write) → Bytes → ℕ → Type 0
  Coming pending f j = Right D f j ⊎ ((i : ℕ) × (i < n) × Hit j (pending i))

  update-AllGood :
      (pending : ℕ → List Write) (i : ℕ) (w : Write) (ws : List Write)
      → AllGood pending
      → pending i ≡ w ∷ ws
      → GoodWrite D w × AllGood (update pending i ws)
  update-AllGood pending i w ws good e =
      let both : All (GoodWrite D) (w ∷ ws) = subst (All (GoodWrite D)) e (good i) in
      (
        both.0,
        λ j. elim (Bool-cases (j == i)) [
          | inl same_one ↦ rw same_one both.1
          | inr other ↦ rw other (good j)
        ],
      )

  write-Coming :
      (pending : ℕ → List Write) (f : Bytes) (i j p : ℕ) (bs : Bytes) (ws : List Write)
      → length f ≡ length D
      → GoodWrite D (p, bs)
      → pending i ≡ (p, bs) ∷ ws
      → Coming pending f j
      → Coming (update pending i ws) (write_at p bs f) j
  write-Coming pending f i j p bs ws l g e (inl right) = inl (good_keeps D f p bs j l g right)
  write-Coming pending f i j p bs ws l g e (inr (k, lt, hit)) = elim (Bool-cases (k == i)) [
    | inr other ↦ inr (k, lt, rw other hit)
    | inl here ↦
        let k_eq : k ≡ i = ground (arith, here) in
        now (subst (Hit j) e (subst (λ x. Hit j (pending x)) k_eq hit)) here
  ]
    where
      now :
          Hit j ((p, bs) ∷ ws) → (k == i) ≡ true → Coming (update pending i ws) (write_at p bs f) j
      now (inl (a, c)) here = inl (write_at-Right D f p bs j g a c)
      now (inr later) here = inr (k, lt, rw here later)

  -- Once all writes are made, in whatever order, each position that one of them covers is right.
  pub play-Right :
      (is : List ℕ) (pending : ℕ → List Write) (f : Bytes)
      → length f ≡ length D
      → AllGood pending
      → ((i : ℕ) → i < n → left_over is pending i ≡ [])
      → (length (play is pending f) ≡ length D)
        × ((j : ℕ) → Coming pending f j → Right D (play is pending f) j)
  unfolding play left_over
  play-Right [] pending f l good none_left = (l, done)
    where
      done : (j : ℕ) → Coming pending f j → Right D f j
      done j (inl right) = right
      done j (inr (i, lt, hit)) = let gone : ⊥ = subst (Hit j) (none_left i lt) hit in absurd gone
  play-Right (i ∷ is) pending f l good none_left = elim (List-cases (pending i)) [
    | inl idle ↦
        rw (idle, play)
          (play-Right is pending f l good (λ k lt. rw (idle, left_over) at (none_left k lt)))
    | inr ((p, bs), ws, e) ↦
        let (g, good') = update-AllGood pending i (p, bs) ws good e in
        let (l', right) =
          play-Right is (update pending i ws) (write_at p bs f) (good_length D f p bs l g) good'
            (λ k lt. rw (e, left_over) at (none_left k lt)) in
        rw (e, play) (l', λ j c. right j (write-Coming pending f i j p bs ws l g e c))
  ]
