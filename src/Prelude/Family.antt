-- ===== src/Prelude/Family.antt =====
-- Families of values with an index below a bound, such as the states of threads: a write at one
-- index, and sums over all.
use Prim.Native.Nat.{ℕ, zero, suc, ◌+◌, ◌≤◌, ◌<◌}
use mathlib.Core.Path.{◌≡◌, refl}
use mathlib.Core.Logic.{inl, inr}
use native.Mathlib.Omega.{arith}
use torrin.Prelude.Tests.{if◌then◌else◌, ◌==◌, Bool-cases}

abbrev pub update {ℓ} : {A : Type ℓ} → (ℕ → A) → ℕ → A → ℕ → A
update f i a j = if j == i then a else f j

module _ {ℓ} {A : Type ℓ} where
  unfoldable pub sum_over : (A → ℕ) → ℕ → (ℕ → A) → ℕ
  sum_over w zero f = 0
  sum_over w (suc n) f = sum_over w n f + w (f n)

  sum_over-update_outside :
      (w : A → ℕ) (n : ℕ) (f : ℕ → A) (i : ℕ) (a : A)
      → n ≤ i
      → sum_over w n (update f i a) ≡ sum_over w n f
  unfolding sum_over
  sum_over-update_outside w zero f i a h = refl
  sum_over-update_outside w (suc n) f i a h = ground (arith, sum_over-update_outside w n f i a)

  -- A write trades the weight of the old value for that of the new one.
  pub sum_over-update :
      (w : A → ℕ) (n : ℕ) (f : ℕ → A) (i : ℕ) (a : A)
      → i < n
      → sum_over w n (update f i a) + w (f i) ≡ sum_over w n f + w a
  unfolding sum_over
  sum_over-update w zero f i a h = absurd (omega arith)
  sum_over-update w (suc n) f i a h = elim (Bool-cases (n == i)) [
    | inl last ↦ ground (arith, sum_over-update_outside w n f i a)
    | inr below ↦ ground (arith, sum_over-update w n f i a)
  ]

  pub sum_over-le :
      (v w : A → ℕ) (n : ℕ) (f : ℕ → A)
      → ((i : ℕ) → i < n → v (f i) ≤ w (f i))
      → sum_over v n f ≤ sum_over w n f
  unfolding sum_over
  sum_over-le v w zero f h = omega arith
  sum_over-le v w (suc n) f h =
      omega (arith, h n (omega arith), sum_over-le v w n f (λ i lt. h i (omega arith)))

  -- One index gives a part of the sum.
  pub le-sum_over : (w : A → ℕ) (n : ℕ) (f : ℕ → A) (i : ℕ) → i < n → w (f i) ≤ sum_over w n f
  unfolding sum_over
  le-sum_over w zero f i h = absurd (omega arith)
  le-sum_over w (suc n) f i h = elim (Bool-cases (n == i)) [
    | inl last ↦ ground arith
    | inr below ↦ ground (arith, le-sum_over w n f i)
  ]

  pub sum_over_zero :
      (w : A → ℕ) (n : ℕ) (f : ℕ → A) → ((i : ℕ) → i < n → w (f i) ≡ 0) → sum_over w n f ≡ 0
  unfolding sum_over
  sum_over_zero w zero f h = refl
  sum_over_zero w (suc n) f h =
      omega (arith, h n (omega arith), sum_over_zero w n f (λ i lt. h i (omega arith)))
