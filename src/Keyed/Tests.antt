-- ===== src/Keyed/Tests.antt =====
-- Two threads that want one key, and the theorems at them.
use torrin.Prelude.{ℕ, ◌≤◌, ◌<◌, ◌≡◌, refl, arith}
use torrin.Prelude.Text.{bytes, same}
use torrin.Prelude.Dict.{get, put, del}
use torrin.Prelude.Family.{sum_over}
use torrin.Keyed.Locker.{enter, leave}
use torrin.Keyed.Threads.{
  idle, System, Reach, start, next, enters, takes, unlocks, leaves, in_section,
}
use torrin.Keyed.Exclusion.{mutual_exclusion}

program : Unit {0}
unfolding enter leave get put del same sum_over
program = tt

-- Thread 0 has the lock, and thread 1 waits.
contended : (s : System) × Reach 2 s × (sum_over (in_section (bytes "abc")) 2 s.pc ≡ 1)
unfolding program
contended = (
  _,
  next
      (next (next start (enters 0 (bytes "abc") (omega arith) refl))
        (takes 0 (bytes "abc") 0 (omega arith) refl refl))
      (enters 1 (bytes "abc") (omega arith) refl),
  refl,
)

mutual_exclusion_example : sum_over (in_section (bytes "abc")) 2 contended.0.pc ≤ 1
mutual_exclusion_example = mutual_exclusion contended.1 (bytes "abc")

-- Thread 0 comes, works and goes.
finished : (s : System) × Reach 2 s × ((i : ℕ) → i < 2 → s.pc i ≡ idle)
unfolding program
finished = (
  _,
  next
      (next
        (next (next start (enters 0 (bytes "abc") (omega arith) refl))
          (takes 0 (bytes "abc") 0 (omega arith) refl refl))
        (unlocks 0 (bytes "abc") 0 (omega arith) refl))
      (leaves 0 (bytes "abc") 0 (omega arith) refl),
  λ i lt. ground arith,
)
