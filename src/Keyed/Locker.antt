-- ===== src/Keyed/Locker.antt =====
-- The locker and its critical sections. A `*ref` is a number, at which the heap holds its mutex and
-- its count; new numbers are taken in order.
use torrin.Prelude.{ℕ, ◌+◌, ◌-◌, Bool, false, none, some, List, [], if◌then◌else◌, ◌==◌}
use torrin.Prelude.Text.{Text}
use torrin.Prelude.Dict.{get, put, del}
use torrin.Prelude.Family.{update}

pub record Locker : Type 0 where
  pub locks : List (Text × ℕ)
  pub refs : ℕ → ℕ
  pub locked : ℕ → Bool
  pub next : ℕ

abbrev pub new_locker : Locker
new_locker = record { locks = []; refs = λ _. 0; locked = λ _. false; next = 0 }

-- `Lock` up to its first `l.mu.Unlock()`: the ref of the key, counted.
unfoldable pub enter : Text → Locker → Locker × ℕ
enter key l = elim (get key l.locks) [
  | some r ↦ (record l { refs = update l.refs r (l.refs r + 1) }, r)
  | none ↦ (
    record l {
      locks = put key l.next l.locks;
      refs = update l.refs l.next 1;
      locked = update l.locked l.next false;
      next = l.next + 1;
    },
    l.next,
  )
]

-- `r.mu.Lock()` of a mutex that is free, and `r.mu.Unlock()`.
abbrev pub set_locked : ℕ → Bool → Locker → Locker
set_locked r b l = record l { locked = update l.locked r b }

-- The rest of the function that `Lock` returns.
unfoldable pub leave : Text → ℕ → Locker → Locker
leave key r l =
    let n = l.refs r - 1 in
    record l { refs = update l.refs r n; locks = if n == 0 then del key l.locks else l.locks }
