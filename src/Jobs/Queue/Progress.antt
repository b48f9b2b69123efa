-- ===== src/Jobs/Queue/Progress.antt =====
-- A user's queue moves: with a free slot and a budget, the first job in order is promoted.
use torrin.Prelude.{
  ℕ, ◌+◌, ◌≤◌, ◌<◌, ◌≡◌, refl, Bool, true, false, not, ◌&&◌, some, [], ◌∷◌, ok, arith,
}
use torrin.Prelude.Text.{Text, same, same_iff, same_self}
use torrin.Jobs.Model.{Job}
use torrin.Jobs.Table.{
  Table, by_id, exists_row, find_row, update_rows, is_queued, inflight_count, budget_used,
}
use torrin.Jobs.Rows.{DistinctIds, All}
use torrin.Jobs.Queue.Decision.{no_faults}
use torrin.Jobs.Queue.Order.{front, front_first, front-All, front-pass}
use torrin.Jobs.Queue.Steps.{
  exec, normalize_concurrent, promote_budget_headroom, precedes, hash_busy, ahead_of, promoted,
  lock_admission, promote_row, promote_job, promote_queued,
}

-- A queued job of the user whose hash nobody downloads.
unfoldable pub eligible : Table → Text → Job → Bool
eligible t u q = same q.user_id u && is_queued q && not (hash_busy t q)

found_in_tail :
    (r : Job) (t l : Table)
    → exists_row (by_id r.id) l ≡ false
    → All (λ x. find_row (by_id x.id) t ≡ some x) l
    → All (λ x. find_row (by_id x.id) (r ∷ t) ≡ some x) l
unfolding find_row exists_row
found_in_tail r t [] n a = tt
found_in_tail r t (x ∷ l) n a =
    (ground (arith, same_iff r.id x.id, same_iff x.id r.id), found_in_tail r t l (ground arith) a.1)

-- Each row is found by its id.
pub rows_found : (t : Table) → DistinctIds t → All (λ x. find_row (by_id x.id) t ≡ some x) t
unfolding find_row
rows_found [] d = tt
rows_found (r ∷ t) d = (rw (same_self r.id) refl, found_in_tail r t t d.0 (rows_found t d.1))

none_ahead :
    (t : Table) (j : Job) (u : Text) (l : Table)
    → j.user_id ≡ u
    → All (λ q. (eligible t u q && precedes q j) ≡ false) l
    → exists_row (ahead_of t j) l ≡ false
unfolding exists_row ahead_of eligible
none_ahead t j u [] e a = refl
none_ahead t j u (q ∷ l) e a = ground (arith, none_ahead t j u l e a.1)

-- If a user has a queued job for a hash that nobody downloads, fewer downloads in flight than the
-- plan allows, and 5 GB of the budget are left, then one of the user's queued jobs can be
-- promoted: `PromoteQueued` of it, with no failing statement, writes it as pending.
pub promote_progress :
    (now max_concurrent budget : ℕ) (t : Table) (waiting : Job)
    → DistinctIds t
    → find_row (by_id waiting.id) t ≡ some waiting
    → eligible t waiting.user_id waiting ≡ true
    → inflight_count waiting.user_id t < normalize_concurrent max_concurrent
    → budget_used t + promote_budget_headroom ≤ budget
    → (j : Job) × (j.user_id ≡ waiting.user_id)
      × (promote_queued no_faults now j.id max_concurrent budget t t
          ≡ ok (
            update_rows (λ r. same r.id j.id && is_queued r) (promoted now) t,
            some (promoted now j),
          ))
unfolding eligible promote_queued promote_job promote_row exec lock_admission
promote_progress now max_concurrent budget t waiting d found able room left =
    (j, user, ground (arith, passes, user, here, first))
  where
    u : Text
    u = waiting.user_id

    j : Job
    j = front (eligible t u) t waiting

    passes : eligible t u j ≡ true
    passes = front-pass (eligible t u) t waiting able

    user : j.user_id ≡ u
    user = ground (arith, same_iff j.user_id u, passes)

    here : find_row (by_id j.id) t ≡ some j
    here =
        front-All (λ x. find_row (by_id x.id) t ≡ some x) (eligible t u) t waiting found
          (rows_found t d)

    first : exists_row (ahead_of t j) t ≡ false
    first = none_ahead t j u t user (front_first (eligible t u) t waiting)
