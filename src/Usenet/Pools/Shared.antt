-- ===== src/Usenet/Pools/Shared.antt =====
-- `AcquireShared`, its release, and the callback of the timer, each a section under the mutex.
-- Entries and timers are numbers that are taken in order; the library's pool is its number of
-- `Close` calls.
use torrin.Prelude.{ℕ, ◌+◌, ◌-◌, Bool, Option, none, some, List, [], ◌∷◌, ◌++◌, if◌then◌else◌, ◌==◌}
use torrin.Prelude.Text.{Text}
use torrin.Prelude.Dict.{get, put, del}
use torrin.Prelude.Family.{update}

pub record Credentials : Type 0 where
  pub host : Text
  pub username : Text

abbrev pub pool_key : Credentials → Text
pool_key c = c.host ++ (b'|' ∷ c.username)

-- A timer that runs, one whose callback waits for the mutex, and one that is over.
pub data Timer : Type 0 where
  unset over : Timer
  armed fired : ℕ → Text → Timer

pub record Pools : Type 0 where
  pub shared : List (Text × ℕ)
  pub refs : ℕ → ℕ
  pub timer : ℕ → Option ℕ
  pub closed : ℕ → ℕ
  pub next_entry : ℕ
  pub timers : ℕ → Timer
  pub next_timer : ℕ

abbrev pub no_pools : Pools
no_pools = record {
  shared = [];
  refs = λ _. 0;
  timer = λ _. none;
  closed = λ _. 0;
  next_entry = 0;
  timers = λ _. unset;
  next_timer = 0;
}

-- time.Timer.Stop: a callback that has started goes on.
abbrev pub stopped : Timer → Timer
stopped unset = unset
stopped over = over
stopped (armed e key) = over
stopped (fired e key) = fired e key

unfoldable pub stop_timer : ℕ → Pools → Pools
stop_timer e p = elim (p.timer e) [
  | none ↦ p
  | some t ↦ record p {
    timers = update p.timers t (stopped (p.timers t));
    timer = update p.timer e none;
  }
]

abbrev pub add_ref : ℕ → Pools → Pools
add_ref e p = record p { refs = update p.refs e (p.refs e + 1) }

-- `opens` says whether `newPool` succeeds; the entry is what the caller gets.
unfoldable pub acquire_shared : Bool → Text → Pools → Pools × Option ℕ
unfolding stop_timer
acquire_shared opens key p = elim (get key p.shared) [
  | some e ↦ (add_ref e (stop_timer e p), some e)
  | none ↦
      if opens
      then (
        record p {
          shared = put key p.next_entry p.shared;
          refs = update p.refs p.next_entry 1;
          timer = update p.timer p.next_entry none;
          closed = update p.closed p.next_entry 0;
          next_entry = p.next_entry + 1;
        },
        some p.next_entry,
      )
      else (p, none)
]

-- What `once` runs.
unfoldable pub release_shared : Text → ℕ → Pools → Pools
release_shared key e p =
    let n = p.refs e - 1 in
    if n == 0
    then record p {
      refs = update p.refs e n;
      timer = update p.timer e (some p.next_timer);
      timers = update p.timers p.next_timer (armed e key);
      next_timer = p.next_timer + 1;
    }
    else record p { refs = update p.refs e n }

-- The callback of a timer of the entry.
unfoldable pub expire : Text → ℕ → Pools → Pools
expire key e p =
    if p.refs e == 0
    then record p { closed = update p.closed e (p.closed e + 1); shared = del key p.shared }
    else p

-- `AcquireSharedMulti`: the entries of the providers that could be opened; none is an error.
unfoldable pub acquire_each : List (Credentials × Bool) → Pools → Pools × List ℕ
unfolding acquire_shared
acquire_each [] p = (p, [])
acquire_each ((c, opens) ∷ cs) p =
    let (p', got) = acquire_shared opens (pool_key c) p in
    let (q, es) = acquire_each cs p' in (q, elim got [ none ↦ es | some e ↦ e ∷ es ])

unfoldable pub acquire_shared_multi : List (Credentials × Bool) → Pools → Pools × Option (List ℕ)
unfolding acquire_each
acquire_shared_multi cs p =
    let (q, es) = acquire_each cs p in (q, elim es [ [] ↦ none | e ∷ r ↦ some (e ∷ r) ])
