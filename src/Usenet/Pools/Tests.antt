-- ===== src/Usenet/Pools/Tests.antt =====
-- Runs of two clients and the timers, and the theorem at one.
use torrin.Prelude.{◌≡◌, refl, true, false, none, some, [], ◌∷◌, arith}
use torrin.Prelude.Text.{Text, bytes, same}
use torrin.Prelude.Dict.{get, put, del}
use torrin.Usenet.Pools.Shared.{
  pool_key, no_pools, stop_timer, acquire_shared, release_shared, expire, acquire_each,
  acquire_shared_multi,
}
use torrin.Usenet.Pools.Clients.{
  idle, using, System, Reach, start, next, acquires, releases, fires, expires,
}
use torrin.Usenet.Pools.Usage.{used_pool_open}

program : Unit {0}
unfolding stop_timer acquire_shared release_shared expire acquire_each acquire_shared_multi get put
    del same
program = tt

abbrev account : Text
account = pool_key (record { host = bytes "news"; username = bytes "me" })

-- A client stops using the pool, and the timer's callback starts, but waits for the mutex.
abbrev Abandoned : System → Type 0
Abandoned s = Reach 2 s × (s.clients 0 ≡ idle) × (s.pools.refs 0 ≡ 0)

late_timer : (s : System) × Abandoned s
unfolding program
late_timer = (
  _,
  (
    next
        (next (next start (acquires 0 account true (omega arith) refl))
          (releases 0 account 0 (omega arith) refl))
        (fires 0 0 account refl),
    refl,
    refl,
  ),
)

-- The client comes back and goes again before the callback runs, so there are two timers: the first
-- closes the pool, and the second takes the next pool out of the map while the client uses it.
pool_lost :
    (s : System) × Reach 2 s × (s.clients 0 ≡ using account 1) × (get account s.pools.shared ≡ none)
unfolding program late_timer
pool_lost = (
  _,
  next
      (next
        (next
          (next
            (next (next late_timer.1.0 (acquires 0 account true (omega arith) refl))
              (releases 0 account 0 (omega arith) refl))
            (expires 0 0 account refl))
          (acquires 0 account true (omega arith) refl))
        (fires 1 0 account refl))
      (expires 1 0 account refl),
  refl,
  refl,
)

-- Now the other client opens a second pool for the same account.
second_pool : (acquire_shared true account pool_lost.0.pools).1 ≡ some 2
unfolding program pool_lost late_timer
second_pool = refl

used_pool_open_example : pool_lost.0.pools.closed 1 ≡ 0
used_pool_open_example = used_pool_open pool_lost.1 0 account 1 (omega arith) pool_lost.2

-- A provider that cannot be opened is skipped.
one_of_two :
    (acquire_shared_multi
      ((record { host = bytes "a"; username = [] }, false)
        ∷ (record { host = bytes "b"; username = [] }, true)
        ∷ [])
      no_pools).1
    ≡ some (0 ∷ [])
unfolding program
one_of_two = refl
