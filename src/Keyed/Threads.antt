-- ===== src/Keyed/Threads.antt =====
-- `n` threads that lock and unlock, a critical section at a time and in any order.
use torrin.Prelude.{ℕ, ◌<◌, ◌≡◌, true, false, Option, none, some, if◌then◌else◌, ◌==◌}
use torrin.Prelude.Text.{Text, same}
use torrin.Prelude.Family.{update}
use torrin.Keyed.Locker.{Locker, new_locker, enter, set_locked, leave}

-- Where a thread stands: outside; before `r.mu.Lock()`; with the lock; after `r.mu.Unlock()`.
pub data Pc : Type 0 where
  idle : Pc
  waiting holding leaving : Text → ℕ → Pc

pub record System : Type 0 where
  pub locker : Locker
  pub pc : ℕ → Pc

abbrev pub init : System
init = record { locker = new_locker; pc = λ _. idle }

pub data Step (n : ℕ) (s : System) : System → Type 0 where
  enters :
      (i : ℕ) (key : Text)
      → i < n
      → s.pc i ≡ idle
      → Step n s (record {
        locker = (enter key s.locker).0;
        pc = update s.pc i (waiting key (enter key s.locker).1);
      })
  takes :
      (i : ℕ) (key : Text) (r : ℕ)
      → i < n
      → s.pc i ≡ waiting key r
      → s.locker.locked r ≡ false
      → Step n s
          (record { locker = set_locked r true s.locker; pc = update s.pc i (holding key r) })
  unlocks :
      (i : ℕ) (key : Text) (r : ℕ)
      → i < n
      → s.pc i ≡ holding key r
      → Step n s
          (record { locker = set_locked r false s.locker; pc = update s.pc i (leaving key r) })
  leaves :
      (i : ℕ) (key : Text) (r : ℕ)
      → i < n
      → s.pc i ≡ leaving key r
      → Step n s (record { locker = leave key r s.locker; pc = update s.pc i idle })

pub data Reach (n : ℕ) : System → Type 0 where
  start : Reach n init
  next : {s t : System} → Reach n s → Step n s t → Reach n t

-- The key and the ref that a thread uses.
abbrev pub uses : Pc → Option (Text × ℕ)
uses idle = none
uses (waiting key r) = some (key, r)
uses (holding key r) = some (key, r)
uses (leaving key r) = some (key, r)

-- 1 for a thread that uses a ref, and for one that has its lock.
abbrev pub user_of : ℕ → Pc → ℕ
user_of r idle = 0
user_of r (waiting key q) = if q == r then 1 else 0
user_of r (holding key q) = if q == r then 1 else 0
user_of r (leaving key q) = if q == r then 1 else 0

abbrev pub holder_of : ℕ → Pc → ℕ
holder_of r idle = 0
holder_of r (waiting key q) = 0
holder_of r (holding key q) = if q == r then 1 else 0
holder_of r (leaving key q) = 0

-- 1 for a thread that has the lock of a key.
abbrev pub in_section : Text → Pc → ℕ
in_section key (holding k q) = if same k key then 1 else 0
in_section key idle = 0
in_section key (waiting k q) = 0
in_section key (leaving k q) = 0
