-- ===== src/Keyed/Invariant.antt =====
-- What every step keeps.
use torrin.Prelude.{
  ℕ, ◌-◌, ◌≤◌, ◌<◌, ◌≡◌, refl, sym, inl, inr, true, false, some, if◌then◌else◌, ◌==◌, Bool-cases,
  Option-cases, arith,
}
use torrin.Prelude.Text.{Text, same_iff}
use torrin.Prelude.Dict.{get, DistinctKeys, get-put, get-del, put-DistinctKeys, del-DistinctKeys}
use torrin.Prelude.Family.{
  update, sum_over, sum_over-update, sum_over-le, le-sum_over, sum_over_zero,
}
use torrin.Keyed.Locker.{Locker, enter, set_locked, leave}
use torrin.Keyed.Threads.{
  Pc, idle, waiting, holding, leaving, System, init, Step, enters, takes, unlocks, leaves, Reach,
  start, next, uses, user_of, holder_of,
}

-- Counts and mutexes are those of the threads; a used ref is the one of its key; and a ref that
-- stands in the map is used, by one key only.
pub record Inv (n : ℕ) (l : Locker) (pc : ℕ → Pc) : Type 0 where
  pub counted : (r : ℕ) → l.refs r ≡ sum_over (user_of r) n pc
  pub held : (r : ℕ) → sum_over (holder_of r) n pc ≡ (if l.locked r then 1 else 0)
  pub found :
      (i : ℕ) (key : Text) (r : ℕ) → i < n → uses (pc i) ≡ some (key, r) → get key l.locks ≡ some r
  pub live : (key : Text) (r : ℕ) → get key l.locks ≡ some r → 0 < l.refs r
  pub old : (key : Text) (r : ℕ) → get key l.locks ≡ some r → r < l.next
  pub one_key : (j k : Text) (r : ℕ) → get j l.locks ≡ some r → get k l.locks ≡ some r → j ≡ k
  pub fresh : (r : ℕ) → l.next ≤ r → l.refs r ≡ 0
  pub keys : DistinctKeys l.locks

pub holder-le-user : (r : ℕ) (p : Pc) → holder_of r p ≤ user_of r p
holder-le-user r idle = omega arith
holder-le-user r (waiting k q) = ground arith
holder-le-user r (holding k q) = omega arith
holder-le-user r (leaving k q) = ground arith

-- A thread takes the mutex, or gives it back: its use of the ref stays.
module _ (n : ℕ) (l : Locker) (pc : ℕ → Pc) (i : ℕ) (key : Text) (r : ℕ) (lt : i < n)
    (v : Inv n l pc) where
  takes-Inv :
      pc i ≡ waiting key r
      → l.locked r ≡ false
      → Inv n (set_locked r true l) (update pc i (holding key r))
  takes-Inv e free = record {
    counted =
        λ q. ground (arith, v.counted q, e, sum_over-update (user_of q) n pc i (holding key r) lt);
    held = λ q.
        ground (arith, v.held q, e, free, sum_over-update (holder_of q) n pc i (holding key r) lt);
    found = λ j k q ltj u. ground (arith, u, e, lt, v.found j k q, v.found i key r);
    live = v.live;
    old = v.old;
    one_key = v.one_key;
    fresh = v.fresh;
    keys = v.keys;
  }

  unlocks-Inv : pc i ≡ holding key r → Inv n (set_locked r false l) (update pc i (leaving key r))
  unlocks-Inv e = record {
    counted =
        λ q. ground (arith, v.counted q, e, sum_over-update (user_of q) n pc i (leaving key r) lt);
    held = λ q. ground (
      arith,
      v.held q,
      e,
      v.held r,
      le-sum_over (holder_of r) n pc i lt,
      sum_over-update (holder_of q) n pc i (leaving key r) lt,
    );
    found = λ j k q ltj u. ground (arith, u, e, lt, v.found j k q, v.found i key r);
    live = v.live;
    old = v.old;
    one_key = v.one_key;
    fresh = v.fresh;
    keys = v.keys;
  }

  -- A thread that comes in, to a ref that stands in the map or to a new one.
  enters-Inv : pc i ≡ idle → Inv n (enter key l).0 (update pc i (waiting key (enter key l).1))
  unfolding enter
  enters-Inv e = elim (Option-cases (get key l.locks)) [
    | inr (q, there) ↦
        rw (there, enter)
          (record {
            counted = λ p.
                ground
                  (arith, v.counted p, e, sum_over-update (user_of p) n pc i (waiting key q) lt);
            held = λ p.
                ground
                  (arith, v.held p, e, sum_over-update (holder_of p) n pc i (waiting key q) lt);
            found = λ j k p ltj u. ground (arith, u, there, v.found j k p);
            live = λ k p g. ground (arith, v.live k p);
            old = v.old;
            one_key = v.one_key;
            fresh = λ p b. ground (arith, v.fresh p, v.old key q there);
            keys = v.keys;
          })
    | inl absent ↦
        rw (absent, enter)
          (record {
            counted = λ p. ground (
              arith,
              v.counted p,
              v.fresh l.next,
              e,
              sum_over-update (user_of p) n pc i (waiting key l.next) lt,
            );
            held = λ p. ground (
              arith,
              v.held p,
              e,
              v.fresh l.next,
              sum_over-le (holder_of l.next) (user_of l.next) n pc
                  (λ j b. holder-le-user l.next (pc j)),
              v.counted l.next,
              sum_over-update (holder_of p) n pc i (waiting key l.next) lt,
            );
            found = λ j k p ltj u.
                ground
                  (arith, u, absent, v.found j k p, get-put k key l.next l.locks, same_iff key k);
            live = λ k p g. ground (arith, v.live k p, v.old k p, g, get-put k key l.next l.locks);
            old = λ k p g. ground (arith, v.old k p, g, get-put k key l.next l.locks);
            one_key = λ j k p g h. ground (
              arith,
              v.one_key j k p,
              v.old j p,
              v.old k p,
              g,
              h,
              get-put j key l.next l.locks,
              get-put k key l.next l.locks,
              same_iff key j,
              same_iff key k,
            );
            fresh = λ p b. ground (arith, v.fresh p);
            keys = put-DistinctKeys key l.next l.locks v.keys;
          })
  ]

  leaves-Inv : pc i ≡ leaving key r → Inv n (leave key r l) (update pc i idle)
  unfolding leave
  leaves-Inv e =
      let here : get key l.locks ≡ some r = v.found i key r lt (ground (arith, e)) in
      let used : 0 < l.refs r = v.live key r here in
      elim (Bool-cases (l.refs r - 1 == 0)) [
        | inl last ↦
            rw (last, leave)
              (record {
                counted =
                    λ p. ground (arith, v.counted p, e, sum_over-update (user_of p) n pc i idle lt);
                held =
                    λ p. ground (arith, v.held p, e, sum_over-update (holder_of p) n pc i idle lt);
                found = λ j k p ltj u. ground (
                  arith,
                  u,
                  v.found j k p,
                  get-del k key l.locks v.keys,
                  same_iff key k,
                  here,
                  e,
                  v.counted r,
                  last,
                  le-sum_over (user_of r) n (update pc i idle) j ltj,
                  sum_over-update (user_of r) n pc i idle lt,
                );
                live = λ k p g. ground (
                  arith,
                  g,
                  get-del k key l.locks v.keys,
                  same_iff key k,
                  v.live k p,
                  v.one_key k key p,
                );
                old = λ k p g. ground (arith, g, get-del k key l.locks v.keys, v.old k p);
                one_key = λ j k p g h. ground (
                  arith,
                  g,
                  h,
                  get-del j key l.locks v.keys,
                  get-del k key l.locks v.keys,
                  v.one_key j k p,
                );
                fresh = λ p b. ground (arith, v.fresh p);
                keys = del-DistinctKeys key l.locks v.keys;
              })
        | inr more ↦
            rw (more, leave)
              (record {
                counted =
                    λ p. ground (arith, v.counted p, e, sum_over-update (user_of p) n pc i idle lt);
                held =
                    λ p. ground (arith, v.held p, e, sum_over-update (holder_of p) n pc i idle lt);
                found = λ j k p ltj u. ground (arith, u, v.found j k p);
                live = λ k p g. ground (arith, g, v.live k p);
                old = v.old;
                one_key = v.one_key;
                fresh = λ p b. ground (arith, v.fresh p);
                keys = v.keys;
              })
      ]

init-Inv : (n : ℕ) → Inv n init.locker init.pc
unfolding get
init-Inv n = record {
  counted = λ r. sym (sum_over_zero (user_of r) n init.pc (λ i b. refl));
  held = λ r. sum_over_zero (holder_of r) n init.pc (λ i b. refl);
  found = λ i key r lt u. ground arith;
  live = λ key r g. ground arith;
  old = λ key r g. ground arith;
  one_key = λ j k r g h. ground arith;
  fresh = λ r b. refl;
  keys = tt;
}

Step-Inv : {n : ℕ} {s t : System} → Step n s t → Inv n s.locker s.pc → Inv n t.locker t.pc
Step-Inv {n} {s} (enters i key lt e) v = enters-Inv n s.locker s.pc i key 0 lt v e
Step-Inv {n} {s} (takes i key r lt e free) v = takes-Inv n s.locker s.pc i key r lt v e free
Step-Inv {n} {s} (unlocks i key r lt e) v = unlocks-Inv n s.locker s.pc i key r lt v e
Step-Inv {n} {s} (leaves i key r lt e) v = leaves-Inv n s.locker s.pc i key r lt v e

pub Reach-Inv : {n : ℕ} {s : System} → Reach n s → Inv n s.locker s.pc
Reach-Inv {n} start = init-Inv n
Reach-Inv (next r st) = Step-Inv st (Reach-Inv r)
