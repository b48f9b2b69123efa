-- ===== src/Jobs/Queue/Promotion.antt =====
-- A promotion, where it succeeds, is a change of the table.
use torrin.Prelude.{
  ℕ, ◌+◌, ◌≤◌, ◌<◌, ◌≡◌, ◌⊎◌, inl, inr, refl, true, false, ◌&&◌, Option, none, some, List, [], ◌∷◌,
  ltb, Bool-cases, Option-cases, ok, arith,
}
use torrin.Prelude.Text.{Text, same, same_iff, same_self, to_lower}
use torrin.Jobs.Model.{Job}
use torrin.Jobs.Table.{
  Table, by_id, exists_row, find_row, update_rows, is_queued, other_holder, inflight_count,
  active_hash, budget_used,
}
use torrin.Jobs.Rows.{DistinctIds, All, All-find, find_own, update-replace}
use torrin.Jobs.Queue.Change.{Change, keep, write}
use torrin.Jobs.Queue.Identity.{IsNormal}
use torrin.Jobs.Queue.Steps.{
  Faults, exec, normalize_concurrent, lock_admission, promote_job, promote_row, promoted,
  promote_queued, ahead_of, hash_busy, busy_with, promote_budget_headroom,
}

-- Where the hashes are stored in one spelling, an idle hash has no other holder.
pub idle-alone :
    (j : Job) (t : Table)
    → All IsNormal t
    → IsNormal j
    → hash_busy t j ≡ false
    → active_hash j.info_hash j.id t ≡ false
unfolding exists_row busy_with other_holder
idle-alone j [] n k h = refl
idle-alone j (x ∷ t) n k h = ground (
  arith,
  idle-alone j t n.1 k,
  n.0,
  same_iff x.info_hash j.info_hash,
  same_iff (to_lower x.info_hash) (to_lower j.info_hash),
)

module _ (faults : Faults) (now max_concurrent budget : ℕ) (limit : Text → ℕ)
    (out : List Text) where
  promote_job-cases :
      (j : Job) (t : Table) {t' : Table} {o : Option Job}
      → promote_job faults now max_concurrent budget j t ≡ ok (t', o)
      → ((t' ≡ t) × (o ≡ none))
        ⊎ ((t' ≡ update_rows (λ r. same r.id j.id && is_queued r) (promoted now) t)
            × (o ≡ some (promoted now j))
            × (exists_row (ahead_of t j) t ≡ false)
            × (inflight_count j.user_id t < normalize_concurrent max_concurrent)
            × (hash_busy t j ≡ false)
            × ((j.budget_gated && ltb budget (budget_used t + promote_budget_headroom)) ≡ false))
  unfolding promote_job promote_row exec
  promote_job-cases j t h = ground arith

  promote_queued-cases :
      (id : Text) (seen t : Table) {t' : Table} {o : Option Job}
      → promote_queued faults now id max_concurrent budget seen t ≡ ok (t', o)
      → ((t' ≡ t) × (o ≡ none))
        ⊎ ((j : Job) × (find_row (by_id id) t ≡ some j)
            × (is_queued j ≡ true)
            × (promote_job faults now max_concurrent budget j t ≡ ok (t', o)))
  unfolding promote_queued exec lock_admission
  promote_queued-cases id seen t h = elim (Option-cases (find_row (by_id id) t)) [
    | inl gone ↦ inl (ground arith)
    | inr (j, found) ↦ elim (Bool-cases (is_queued j)) [
      | inl q ↦ elim (Option-cases (find_row (by_id id) seen)) [
        | inl no_job ↦ inl (ground arith)
        | inr (current, first) ↦ elim (Bool-cases (is_queued current)) [
          | inl was ↦ inr (j, found, q, ground arith)
          | inr other ↦ inl (ground arith)
        ]
      ]
      | inr other ↦ inl (ground arith)
    ]
  ]

  -- A successful `PromoteQueued` writes at most one row, which was queued and takes a free slot.
  pub promote-Change :
      (id : Text) (seen t : Table) {t' : Table} {o : Option Job}
      → DistinctIds t
      → All IsNormal t
      → ((j : Job)
          → find_row (by_id id) t ≡ some j
          → normalize_concurrent max_concurrent ≤ limit j.user_id)
      → promote_queued faults now id max_concurrent budget seen t ≡ ok (t', o)
      → Change limit out t t'
  unfolding other_holder
  promote-Change id seen t d n l h = elim (promote_queued-cases id seen t h) [
    | inl (e, _) ↦ rw e keep
    | inr (j, found, q, c) ↦ elim (promote_job-cases j t c) [
      | inl (e, _) ↦ rw e keep
      | inr (e, _, _, room, idle, _) ↦
          let own : find_row (by_id j.id) t ≡ some j = find_own id t found in
          let only : exists_row (other_holder j.info_hash j.id) t ≡ false =
            idle-alone j t n (All-find IsNormal (by_id id) t found n) idle in
          rw
            (
              e,
              update-replace (λ r. same r.id j.id && is_queued r) (promoted now) j t d own
                  (λ r k. ground arith) (ground (arith, same_self j.id)),
            )
            (write j (promoted now j) (record {
              found = own;
              id = refl;
              user = refl;
              hash = refl;
              seed = refl;
              slot =
                  λ _. inr (inl (record { room = omega (arith, room, l j found); alone = only }));
              live = λ _. inl (ground arith);
            }))
    ]
  ]
