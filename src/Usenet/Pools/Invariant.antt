-- ===== src/Usenet/Pools/Invariant.antt =====
-- What every step keeps, and that the steps that give a pool back keep it.
use torrin.Prelude.{
  ℕ, ◌-◌, ◌≤◌, ◌<◌, ◌≡◌, Option, none, some, inl, inr, ◌==◌, Bool-cases, Option-cases, arith,
}
use torrin.Prelude.Text.{Text, same_iff}
use torrin.Prelude.Dict.{get, DistinctKeys, get-del, del-DistinctKeys}
use torrin.Prelude.Family.{update, sum_over, sum_over-update}
use torrin.Usenet.Pools.Shared.{
  Pools, Timer, unset, over, armed, fired, stop_timer, release_shared, expire,
}
use torrin.Usenet.Pools.Clients.{Client, idle, using, client_of}

-- The entry and the key of a timer whose callback may still run.
abbrev pub waits_for : Timer → Option (ℕ × Text)
waits_for unset = none
waits_for over = none
waits_for (armed e key) = some (e, key)
waits_for (fired e key) = some (e, key)

-- The counts are those of the clients; an entry belongs to one key, under which alone it stands in
-- the map; and a closed pool is not counted and not in the map.
pub record Inv (n : ℕ) (p : Pools) (clients : ℕ → Client) : Type 0 where
  pub owner : ℕ → Text
  pub counted : (e : ℕ) → p.refs e ≡ sum_over (client_of e) n clients
  pub shut : (e : ℕ) → 0 < p.closed e → p.refs e ≡ 0
  pub gone : (key : Text) (e : ℕ) → get key p.shared ≡ some e → p.closed e ≡ 0
  pub mapped :
      (key : Text) (e : ℕ) → get key p.shared ≡ some e → (owner e ≡ key) × (e < p.next_entry)
  pub client :
      (i : ℕ) (key : Text) (e : ℕ)
      → i < n
      → clients i ≡ using key e
      → (owner e ≡ key) × (e < p.next_entry)
  pub timed :
      (t : ℕ) (e : ℕ) (key : Text)
      → waits_for (p.timers t) ≡ some (e, key)
      → (owner e ≡ key) × (e < p.next_entry)
  pub fresh : (e : ℕ) → p.next_entry ≤ e → p.refs e ≡ 0
  pub keys : DistinctKeys p.shared

module _ (n : ℕ) (p : Pools) (clients : ℕ → Client) (v : Inv n p clients) where
  pub releases-Inv :
      (i : ℕ) (key : Text) (d : ℕ)
      → i < n
      → clients i ≡ using key d
      → Inv n (release_shared key d p) (update clients i idle)
  unfolding release_shared
  releases-Inv i key d lt u = elim (Bool-cases (p.refs d - 1 == 0)) [
    | inl last ↦
        rw (last, release_shared)
          (record {
            owner = v.owner;
            counted = λ e.
                ground (arith, v.counted e, u, sum_over-update (client_of e) n clients i idle lt);
            shut = λ e c. ground (arith, v.shut e, c);
            gone = v.gone;
            mapped = v.mapped;
            client = λ j k e ltj h. ground (arith, h, v.client j k e ltj);
            timed = λ t e k w. ground (arith, w, v.timed t e k, v.client i key d lt u);
            fresh = λ e b. ground (arith, v.fresh e, b);
            keys = v.keys;
          })
    | inr more ↦
        rw (more, release_shared)
          (record {
            owner = v.owner;
            counted = λ e.
                ground (arith, v.counted e, u, sum_over-update (client_of e) n clients i idle lt);
            shut = λ e c. ground (arith, v.shut e, c);
            gone = v.gone;
            mapped = v.mapped;
            client = λ j k e ltj h. ground (arith, h, v.client j k e ltj);
            timed = v.timed;
            fresh = λ e b. ground (arith, v.fresh e, b);
            keys = v.keys;
          })
  ]

  pub expires-Inv :
      (t d : ℕ) (key : Text)
      → p.timers t ≡ fired d key
      → Inv n (expire key d (record p { timers = update p.timers t over })) clients
  unfolding expire
  expires-Inv t d key f =
      let (own, old) = v.timed t d key (ground (arith, f)) in
      elim (Bool-cases (p.refs d == 0)) [
        | inl unused ↦
            rw (unused, expire)
              (record {
                owner = v.owner;
                counted = v.counted;
                shut = λ e c. ground (arith, v.shut e, unused, c);
                gone = λ k e g. ground (
                  arith,
                  g,
                  get-del k key p.shared v.keys,
                  same_iff key k,
                  v.gone k e,
                  v.mapped k e,
                  own,
                );
                mapped = λ k e g. ground (arith, g, get-del k key p.shared v.keys, v.mapped k e);
                client = v.client;
                timed = λ s e k w. ground (arith, w, v.timed s e k);
                fresh = v.fresh;
                keys = del-DistinctKeys key p.shared v.keys;
              })
        | inr in_use ↦
            rw (in_use, expire)
              (record {
                owner = v.owner;
                counted = v.counted;
                shut = v.shut;
                gone = v.gone;
                mapped = v.mapped;
                client = v.client;
                timed = λ s e k w. ground (arith, w, v.timed s e k);
                fresh = v.fresh;
                keys = v.keys;
              })
      ]

  pub fires-Inv :
      (t d : ℕ) (key : Text)
      → p.timers t ≡ armed d key
      → Inv n (record p { timers = update p.timers t (fired d key) }) clients
  fires-Inv t d key f = record {
    owner = v.owner;
    counted = v.counted;
    shut = v.shut;
    gone = v.gone;
    mapped = v.mapped;
    client = v.client;
    timed = λ s e k w. ground (arith, w, f, v.timed s e k, v.timed t d key);
    fresh = v.fresh;
    keys = v.keys;
  }

  pub stop-Inv : (d : ℕ) → Inv n (stop_timer d p) clients
  unfolding stop_timer
  stop-Inv d = elim (Option-cases (p.timer d)) [
    | inl off ↦ rw (off, stop_timer) v
    | inr (t, on) ↦
        rw (on, stop_timer)
          (record {
            owner = v.owner;
            counted = v.counted;
            shut = v.shut;
            gone = v.gone;
            mapped = v.mapped;
            client = v.client;
            timed = λ s e k w. ground (arith, w, v.timed s e k);
            fresh = v.fresh;
            keys = v.keys;
          })
  ]
