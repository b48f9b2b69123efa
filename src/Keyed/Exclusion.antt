-- ===== src/Keyed/Exclusion.antt =====
-- What the locker promises its callers.
use torrin.Prelude.{ℕ, ◌≤◌, ◌<◌, ◌≡◌, refl, none, some, inl, inr, Option-cases, arith}
use torrin.Prelude.Text.{Text, same_iff}
use torrin.Prelude.Dict.{get}
use torrin.Prelude.Family.{sum_over, sum_over-le, sum_over_zero}
use torrin.Keyed.Locker.{Locker}
use torrin.Keyed.Threads.{
  Pc, idle, waiting, holding, leaving, System, Reach, uses, user_of, holder_of, in_section,
}
use torrin.Keyed.Invariant.{Inv, Reach-Inv}

-- Who has the lock of a key has the mutex of the ref that stands in the map.
in_section-le :
    {n : ℕ} (l : Locker) (pc : ℕ → Pc) (key : Text) (r : ℕ)
    → Inv n l pc
    → get key l.locks ≡ some r
    → (i : ℕ) → i < n
    → in_section key (pc i) ≤ holder_of r (pc i)
in_section-le {n} l pc key r v there i lt = by_pc (pc i) (λ k q. v.found i k q lt)
  where
    by_pc :
        (p : Pc)
        → ((k : Text) (q : ℕ) → uses p ≡ some (k, q) → get k l.locks ≡ some q)
        → in_section key p ≤ holder_of r p
    by_pc idle f = omega arith
    by_pc (waiting k q) f = omega arith
    by_pc (holding k q) f = ground (arith, f k q refl, same_iff k key)
    by_pc (leaving k q) f = omega arith

in_section-eq_zero :
    {n : ℕ} (l : Locker) (pc : ℕ → Pc) (key : Text)
    → Inv n l pc
    → get key l.locks ≡ none
    → (i : ℕ) → i < n
    → in_section key (pc i) ≡ 0
in_section-eq_zero {n} l pc key v absent i lt = by_pc (pc i) (λ k q. v.found i k q lt)
  where
    by_pc :
        (p : Pc)
        → ((k : Text) (q : ℕ) → uses p ≡ some (k, q) → get k l.locks ≡ some q)
        → in_section key p ≡ 0
    by_pc idle f = refl
    by_pc (waiting k q) f = refl
    by_pc (holding k q) f = ground (arith, f k q refl, same_iff k key)
    by_pc (leaving k q) f = refl

-- However the threads interleave, at most one of them has the lock of a key, also where refs of the
-- key were dropped and made anew meanwhile.
pub mutual_exclusion :
    {n : ℕ} {s : System} → Reach n s → (key : Text) → sum_over (in_section key) n s.pc ≤ 1
mutual_exclusion {n} {s} reach key = elim (Option-cases (get key s.locker.locks)) [
  | inl absent ↦ ground (
    arith,
    sum_over_zero (in_section key) n s.pc
        (in_section-eq_zero s.locker s.pc key (Reach-Inv reach) absent),
  )
  | inr (r, there) ↦
      let v = Reach-Inv reach in
      ground (
        arith,
        v.held r,
        sum_over-le (in_section key) (holder_of r) n s.pc
            (in_section-le s.locker s.pc key r v there),
      )
]

-- No lock is kept for nobody: once every thread is outside, the map is empty for every key.
pub no_leak :
    {n : ℕ} {s : System}
    → Reach n s
    → ((i : ℕ) → i < n → s.pc i ≡ idle)
    → (key : Text) → get key s.locker.locks ≡ none
no_leak {n} {s} reach quiet key = elim (Option-cases (get key s.locker.locks)) [
  | inl absent ↦ absent
  | inr (r, there) ↦
      let v = Reach-Inv reach in
      absurd (
        ground (
          arith,
          v.live key r there,
          v.counted r,
          sum_over_zero (user_of r) n s.pc (λ i lt. ground (arith, quiet i lt)),
        ))
]
