-- ===== src/Usenet/Pools/Clients.antt =====
-- `n` clients that acquire and release pools, and timers that fire, in any order.
use torrin.Prelude.{ℕ, ◌<◌, ◌≡◌, Bool, Option, none, some, if◌then◌else◌, ◌==◌}
use torrin.Prelude.Text.{Text}
use torrin.Prelude.Family.{update}
use torrin.Usenet.Pools.Shared.{
  Pools, no_pools, over, armed, fired, acquire_shared, release_shared, expire,
}

pub data Client : Type 0 where
  idle : Client
  using : Text → ℕ → Client

abbrev pub client_after : Text → Option ℕ → Client
client_after key none = idle
client_after key (some e) = using key e

pub record System : Type 0 where
  pub pools : Pools
  pub clients : ℕ → Client

abbrev pub init : System
init = record { pools = no_pools; clients = λ _. idle }

pub data Step (n : ℕ) (s : System) : System → Type 0 where
  acquires :
      (i : ℕ) (key : Text) (opens : Bool)
      → i < n
      → s.clients i ≡ idle
      → Step n s (record {
        pools = (acquire_shared opens key s.pools).0;
        clients = update s.clients i (client_after key (acquire_shared opens key s.pools).1);
      })
  releases :
      (i : ℕ) (key : Text) (e : ℕ)
      → i < n
      → s.clients i ≡ using key e
      → Step n s
          (record { pools = release_shared key e s.pools; clients = update s.clients i idle })
  fires :
      (t : ℕ) (e : ℕ) (key : Text)
      → s.pools.timers t ≡ armed e key
      → Step n s
          (record s { pools = record s.pools { timers = update s.pools.timers t (fired e key) } })
  expires :
      (t : ℕ) (e : ℕ) (key : Text)
      → s.pools.timers t ≡ fired e key
      → Step n s (record s {
        pools = expire key e (record s.pools { timers = update s.pools.timers t over });
      })

pub data Reach (n : ℕ) : System → Type 0 where
  start : Reach n init
  next : {s t : System} → Reach n s → Step n s t → Reach n t

-- 1 for a client of the entry.
abbrev pub client_of : ℕ → Client → ℕ
client_of e idle = 0
client_of e (using key d) = if d == e then 1 else 0
