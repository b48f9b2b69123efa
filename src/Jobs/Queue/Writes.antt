-- ===== src/Jobs/Queue/Writes.antt =====
-- The writes beside admission: CreateOnce, Update, SetQueuedPriority and FailQueued.
use mathlib.Core.Path.{subst}
use torrin.Prelude.{
  ℕ, ◌≡◌, ◌⊎◌, inl, inr, refl, Bool, true, false, not, ◌&&◌, Option, none, some, List, ◌∷◌,
  Result-cases, ok, arith,
}
use torrin.Prelude.Int.{ℤ, eqb_ℤ}
use torrin.Prelude.Text.{Text, same, same_iff, trim_space, to_lower_idem}
use torrin.Jobs.Model.{Job, concurrent, failed}
use torrin.Jobs.Table.{
  Table, by_id, exists_row, find_row, update_rows, is_queued, holds_slot, is_live, live_account_job,
  conflicts, insert_job,
}
use torrin.Jobs.Rows.{DistinctIds, update_guarded}
use torrin.Jobs.Queue.Change.{Change, given, keep, insert, write}
use torrin.Jobs.Queue.Cases.{prepare_create_lem}
use torrin.Jobs.Queue.Steps.{
  Faults, exec, prepare_create, lock_admission, create_end, create_once, overwrite, update_job,
  set_queued_priority, fail_queued,
}

-- `new` keeps the identity of `old`; it comes back to life only where the account has no live row
-- for the hash, since the unique index refuses any other.
pub record Rewrites (t : Table) (old new : Job) : Type 0 where
  pub id : new.id ≡ old.id
  pub user : new.user_id ≡ old.user_id
  pub hash : new.info_hash ≡ old.info_hash
  pub seed : new.seed ≡ old.seed
  pub live :
      is_live new.status ≡ true → (is_live old.status ≡ true) ⊎ (live_account_job old t ≡ none)

module _ (limit : Text → ℕ) (out : List Text) where
  -- A row that is written over has its slot from before, or is one of those that got theirs outside.
  abbrev Lends : Job → Job → Type 0
  Lends old new = holds_slot new ≡ true → (holds_slot old ≡ true) ⊎ (given out old.id ≡ true)

  Rewrites-Change :
      (q : Job → Bool) (f : Job → Job) (id : Text) (t : Table)
      → DistinctIds t
      → ((r : Job) → q r ≡ true → by_id id r ≡ true)
      → ((j : Job)
          → find_row (by_id j.id) t ≡ some j
          → q j ≡ true
          → Rewrites t j (f j) × Lends j (f j))
      → Change limit out t (update_rows q f t)
  Rewrites-Change q f id t d only adv = elim (update_guarded q f id t d only) [
    | inl e ↦ rw e keep
    | inr (j, found, on, e) ↦
        let (a, s) = adv j found on in
        rw e (
          write j (f j) (record {
            found = found;
            id = a.id;
            user = a.user;
            hash = a.hash;
            seed = a.seed;
            slot = λ h. elim (s h) [ inl was ↦ inl was | inr lent ↦ inr (inr lent) ];
            live = a.live;
          }))
  ]

  pub set_queued_priority-Change :
      (now : ℕ) (id : Text) (priority : ℤ) (t : Table)
      → DistinctIds t
      → Change limit out t (set_queued_priority now id priority t)
  unfolding set_queued_priority
  set_queued_priority-Change now id priority t d =
      Rewrites-Change (λ r. same r.id id && is_queued r && not (eqb_ℤ r.priority priority))
        (λ r. record r { priority = priority; updated_at = now }) id t d (λ r k. ground arith)
        (λ j found on. (
          record { id = refl; user = refl; hash = refl; seed = refl; live = λ h. inl h },
          λ h. inl h,
        ))

  pub fail_queued-Change :
      (now : ℕ) (id reason : Text) (t : Table)
      → DistinctIds t
      → Change limit out t (fail_queued now id reason t)
  unfolding fail_queued concurrent
  fail_queued-Change now id reason t d =
      Rewrites-Change (λ r. same r.id id && is_queued r)
        (λ r. record r { status = failed; error = reason; updated_at = now }) id t d
        (λ r k. ground arith)
        (λ j found on. (
          record {
            id = refl;
            user = refl;
            hash = refl;
            seed = refl;
            live = λ h. absurd (ground arith);
          },
          λ h. absurd (ground arith),
        ))

  -- `Update` with a job that rewrites the row with its id; if it takes a slot, as one that got its
  -- slot outside.
  pub update_job-Change :
      (now : ℕ) (j : Job) (t : Table) {t' : Table}
      → DistinctIds t
      → ((old : Job) → find_row (by_id j.id) t ≡ some old → Rewrites t old j)
      → ((old : Job) → find_row (by_id j.id) t ≡ some old → Lends old j)
      → update_job now j t ≡ ok t'
      → Change limit out t t'
  unfolding update_job
  update_job-Change now j t {t'} d adv lends h =
      let e : t' ≡ update_rows (by_id j.id) (overwrite now j) t = ground arith in
      rw e (
        Rewrites-Change (by_id j.id) (overwrite now j) j.id t d (λ r k. k)
          (λ old found on.
            let same_id : old.id ≡ j.id = (same_iff old.id j.id).0 on in
            let there = subst (λ i. find_row (by_id i) t ≡ some old) same_id found in
            let a = adv old there in
            (
              record { id = a.id; user = a.user; hash = a.hash; seed = a.seed; live = a.live },
              lends old there,
            )))

  create_once-cases :
      (faults : Faults) (fresh : Option Text) (now : ℕ) (job j : Job) (t : Table) {t' : Table}
      {created : Bool} {r : Job}
      → prepare_create fresh now job ≡ ok j
      → create_once faults fresh now job t ≡ ok (t', created, r)
      → (t' ≡ t)
        ⊎ ((t' ≡ j ∷ t)
            × (exists_row (conflicts j) t ≡ false)
            × (exists_row (by_id j.id) t ≡ false))
  unfolding create_once create_end lock_admission insert_job exec
  create_once-cases faults fresh now job j t p h = ground arith

  -- `CreateOnce` of a job that holds no slot, or gets one outside.
  pub create_once-Change :
      (faults : Faults) (fresh : Option Text) (now : ℕ) (job : Job) (t : Table) {t' : Table}
      {created : Bool} {r : Job}
      → ((j : Job)
          → prepare_create fresh now job ≡ ok j
          → holds_slot j ≡ true
          → given out j.id ≡ true)
      → create_once faults fresh now job t ≡ ok (t', created, r)
      → Change limit out t t'
  unfolding create_once
  create_once-Change faults fresh now job t lent h =
      elim (Result-cases (prepare_create fresh now job)) [
        | inr (e, p) ↦ absurd (ground arith)
        | inl (j, p) ↦
            let (hash, _, _, _) = prepare_create_lem fresh now job p in
            elim (create_once-cases faults fresh now job j t p h) [
              | inl e ↦ rw e keep
              | inr (e, unique, new_id) ↦ rw e (
                  insert j (record {
                    new_id = new_id;
                    unique = unique;
                    normal = rw hash (to_lower_idem (trim_space job.info_hash));
                    slot = λ held. inr (lent j p held);
                  }))
            ]
      ]
