-- ===== src/Usenet/Pools/Usage.antt =====
-- The steps that take a pool keep the invariant, and a pool in use is open.
use torrin.Prelude.{
  ℕ, ◌<◌, ◌≡◌, refl, sym, Bool, true, false, none, some, [], inl, inr, Option-cases, arith,
}
use torrin.Prelude.Text.{Text, same_iff}
use torrin.Prelude.Dict.{get, get-put, put-DistinctKeys}
use torrin.Prelude.Family.{update, sum_over-update, le-sum_over, sum_over_zero}
use torrin.Usenet.Pools.Shared.{Pools, stop_timer, add_ref, acquire_shared}
use torrin.Usenet.Pools.Clients.{
  Client, idle, using, client_after, System, init, Step, acquires, releases, fires, expires, Reach,
  start, next, client_of,
}
use torrin.Usenet.Pools.Invariant.{Inv, releases-Inv, expires-Inv, fires-Inv, stop-Inv}

stop-shared : (d : ℕ) (p : Pools) → (stop_timer d p).shared ≡ p.shared
unfolding stop_timer
stop-shared d p = ground arith

module _ (n : ℕ) (p : Pools) (clients : ℕ → Client) (i : ℕ) (key : Text) (lt : i < n)
    (u : clients i ≡ idle) (v : Inv n p clients) where
  add_ref-Inv :
      (d : ℕ) → get key p.shared ≡ some d → Inv n (add_ref d p) (update clients i (using key d))
  add_ref-Inv d there = record {
    owner = v.owner;
    counted = λ e.
        ground (arith, v.counted e, u, sum_over-update (client_of e) n clients i (using key d) lt);
    shut = λ e c. ground (arith, v.shut e, c, v.gone key d there);
    gone = v.gone;
    mapped = v.mapped;
    client = λ j k e ltj h. ground (arith, h, v.client j k e ltj, v.mapped key d there);
    timed = v.timed;
    fresh = λ e b. ground (arith, v.fresh e, b, v.mapped key d there);
    keys = v.keys;
  }

  new-Inv :
      get key p.shared ≡ none
      → (opens : Bool)
      → Inv n
          (acquire_shared opens key p).0
          (update clients i (client_after key (acquire_shared opens key p).1))
  unfolding acquire_shared
  new-Inv absent true =
      rw (absent, acquire_shared)
        (record {
          owner = update v.owner p.next_entry key;
          counted = λ e. ground (
            arith,
            v.counted e,
            v.fresh e,
            u,
            sum_over-update (client_of e) n clients i (using key p.next_entry) lt,
          );
          shut = λ e c. ground (arith, c, v.shut e);
          gone = λ k e g. ground (arith, g, get-put k key p.next_entry p.shared, v.gone k e);
          mapped = λ k e g.
              ground (arith, g, get-put k key p.next_entry p.shared, same_iff key k, v.mapped k e);
          client = λ j k e ltj h. ground (arith, h, v.client j k e ltj);
          timed = λ t e k w. ground (arith, w, v.timed t e k);
          fresh = λ e b. ground (arith, b, v.fresh e);
          keys = put-DistinctKeys key p.next_entry p.shared v.keys;
        })
  new-Inv absent false =
      rw (absent, acquire_shared)
        (record {
          owner = v.owner;
          counted = λ e.
              ground (arith, v.counted e, u, sum_over-update (client_of e) n clients i idle lt);
          shut = v.shut;
          gone = v.gone;
          mapped = v.mapped;
          client = λ j k e ltj h. ground (arith, h, v.client j k e ltj);
          timed = v.timed;
          fresh = v.fresh;
          keys = v.keys;
        })

acquires-Inv :
    (n : ℕ) (p : Pools) (clients : ℕ → Client) (i : ℕ) (key : Text) (opens : Bool)
    → i < n
    → clients i ≡ idle
    → Inv n p clients
    → Inv n
        (acquire_shared opens key p).0
        (update clients i (client_after key (acquire_shared opens key p).1))
unfolding acquire_shared
acquires-Inv n p clients i key opens lt u v = elim (Option-cases (get key p.shared)) [
  | inl absent ↦ new-Inv n p clients i key lt u v absent opens
  | inr (d, there) ↦
      rw (there, acquire_shared)
        (add_ref-Inv n (stop_timer d p) clients i key lt u (stop-Inv n p clients v d) d
          (rw (stop-shared d p) there))
]

init-Inv : (n : ℕ) → Inv n init.pools init.clients
unfolding get
init-Inv n = record {
  owner = λ e. [];
  counted = λ e. sym (sum_over_zero (client_of e) n init.clients (λ i b. refl));
  shut = λ e c. refl;
  gone = λ k e g. refl;
  mapped = λ k e g. ground (arith, g);
  client = λ i k e lt h. ground (arith, h);
  timed = λ t e k w. ground (arith, w);
  fresh = λ e b. refl;
  keys = tt;
}

Step-Inv : {n : ℕ} {s t : System} → Step n s t → Inv n s.pools s.clients → Inv n t.pools t.clients
Step-Inv {n} {s} (acquires i key opens lt u) v = acquires-Inv n s.pools s.clients i key opens lt u v
Step-Inv {n} {s} (releases i key d lt u) v = releases-Inv n s.pools s.clients v i key d lt u
Step-Inv {n} {s} (fires t d key a) v = fires-Inv n s.pools s.clients v t d key a
Step-Inv {n} {s} (expires t d key f) v = expires-Inv n s.pools s.clients v t d key f

Reach-Inv : {n : ℕ} {s : System} → Reach n s → Inv n s.pools s.clients
Reach-Inv {n} start = init-Inv n
Reach-Inv (next r st) = Step-Inv st (Reach-Inv r)

-- However the clients and the timers interleave, the pool that a client uses was never closed.
pub used_pool_open :
    {n : ℕ} {s : System}
    → Reach n s
    → (i : ℕ) (key : Text) (e : ℕ) → i < n
    → s.clients i ≡ using key e
    → s.pools.closed e ≡ 0
used_pool_open {n} {s} reach i key e lt u =
    let v = Reach-Inv reach in
    ground (arith, v.shut e, v.counted e, u, le-sum_over (client_of e) n s.clients i lt)
