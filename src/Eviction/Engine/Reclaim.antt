-- ===== src/Eviction/Engine/Reclaim.antt =====
-- The budget pass: which candidates it evicts.
use torrin.Prelude.{
  ℕ, ◌+◌, ◌<◌, ◌≡◌, inl, inr, refl, ap, ◌∙◌, Bool, true, false, List, [], ◌∷◌, ◌++◌, ltb, leb,
  Bool-cases, arith,
}
use torrin.Prelude.Text.{Text, same}
use torrin.Prelude.Select.{any_of, any-keep}
use torrin.Jobs.Model.{Job, seeding, is_status}
use torrin.Jobs.Table.{Table, by_id, exists_row, update_rows}
use torrin.Jobs.Rows.{All}
use torrin.Jobs.Queue.{update_job}
use torrin.Eviction.Policy.{EvictionCandidate, order_for_reclaim}
use torrin.Eviction.Engine.Cleared.{purge_blobs_jobs}
use torrin.Eviction.World.{World, list_by_info_hash, delete_prefix, update_row}
use torrin.Eviction.Engine.Steps.{
  Engine, purge_blobs, mark_one, mark_evicted, siblings_of, evict, budget_loop, budget_pass,
}

-- Before each eviction of a list the total was over the cap, less what was gone by then.
abbrev pub Needed : ℕ → ℕ → ℕ → List EvictionCandidate → Type 0
Needed total cap gone [] = Unit
Needed total cap gone (c ∷ cs) = (cap + gone < total) × Needed total cap (gone + c.file_size) cs

abbrev pub is_seeding : Job → Bool
is_seeding r = is_status r.status seeding

update_quiet :
    (q : Job → Bool) (f : Job → Job) (t : Table)
    → any_of is_seeding t ≡ false
    → ((r : Job) → is_seeding (f r) ≡ false)
    → any_of is_seeding (update_rows q f t) ≡ false
unfolding any_of update_rows
update_quiet q f [] h k = refl
update_quiet q f (r ∷ t) h k = ground (arith, update_quiet q f t, k r)

update_row_quiet :
    (now : ℕ) (j : Job) (w : World)
    → is_seeding j ≡ false
    → any_of is_seeding w.jobs ≡ false
    → any_of is_seeding (update_row now j w).jobs ≡ false
unfolding update_row update_job
update_row_quiet now j w h k = elim (Bool-cases (exists_row (by_id j.id) w.jobs)) [
  | inl there ↦ rw (there, update_row, update_job) (update_quiet (by_id j.id) _ w.jobs k (λ r. h))
  | inr gone ↦ rw (gone, update_row, update_job) k
]

mark_one_quiet :
    (e : Engine) (s : Job) (w : World)
    → any_of is_seeding w.jobs ≡ false
    → any_of is_seeding (mark_one e s w).jobs ≡ false
unfolding mark_one
mark_one_quiet e s w h = elim (Bool-cases (same s.node e.node)) [
  | inl here ↦ rw (here, mark_one) (update_row_quiet e.now _ w refl h)
  | inr away ↦ rw (away, mark_one) h
]

mark_quiet :
    (e : Engine) (sibs : List Job) (w : World)
    → any_of is_seeding w.jobs ≡ false
    → any_of is_seeding (mark_evicted e sibs w).jobs ≡ false
unfolding mark_evicted
mark_quiet e [] w h = h
mark_quiet e (s ∷ sibs) w h = mark_quiet e sibs (mark_one e s w) (mark_one_quiet e s w h)

delete_prefix_jobs : (p : Text) (w : World) → (delete_prefix p w).jobs ≡ w.jobs
unfolding delete_prefix
delete_prefix_jobs p w = refl

siblings_quiet :
    (e : Engine) (h : Text) (w : World)
    → any_of is_seeding w.jobs ≡ false
    → any_of is_seeding (siblings_of e h w) ≡ false
unfolding list_by_info_hash any_of
siblings_quiet e h w q = elim (Bool-cases (e.faults.list_by_info_hash h)) [
  | inl failed ↦ rw failed refl
  | inr listed ↦ rw listed (any-keep is_seeding _ w.jobs q)
]

-- Where nothing seeds and the store deletes, an eviction succeeds, and nothing seeds afterwards.
pub evict_quiet :
    (e : Engine) (h : Text) (w : World)
    → any_of is_seeding w.jobs ≡ false
    → ((p : Text) → e.faults.delete_prefix p ≡ false)
    → ((evict e h w).1 ≡ true) × (any_of is_seeding (evict e h w).0.jobs ≡ false)
unfolding evict
evict_quiet e h w q store =
    let s : any_of is_seeding (siblings_of e h w) ≡ false = siblings_quiet e h w q in
    let p : Text = h ++ (b'/' ∷ []) in
    let v : World = purge_blobs e.faults h (delete_prefix p w) in
    let j : v.jobs ≡ w.jobs =
      purge_blobs_jobs e.faults h (delete_prefix p w) ∙ delete_prefix_jobs p w in
    rw (s, store p) (refl, mark_quiet e (siblings_of e h w) v (ap (any_of is_seeding) j ∙ q))

-- Candidates that are idle for the grace period at least.
abbrev pub idle : Engine → EvictionCandidate → Bool
idle e c = leb e.policy.budget_grace_days c.days_since_access

loop_grace :
    (e : Engine) (total gone : ℕ) (cs : List EvictionCandidate) (w : World)
    → All (λ c. idle e c ≡ true) (budget_loop e total gone cs w).1
unfolding budget_loop
loop_grace e total gone [] w = tt
loop_grace e total gone (c ∷ cs) w =
    elim (Bool-cases (leb total (e.policy.storage_cap_bytes + gone))) [
      | inl enough ↦ rw (enough, budget_loop) tt
      | inr over ↦ elim (Bool-cases (ltb c.days_since_access e.policy.budget_grace_days)) [
        | inl recent ↦ rw (over, recent, budget_loop) (loop_grace e total gone cs w)
        | inr old ↦ elim (Bool-cases (evict e c.info_hash w).1) [
          | inl done ↦
              let k : idle e c ≡ true = ground arith in
              rw (over, old, done, budget_loop)
                (k, loop_grace e total (gone + c.file_size) cs (evict e c.info_hash w).0)
          | inr failed ↦
              rw (over, old, failed, budget_loop)
                (loop_grace e total gone cs (evict e c.info_hash w).0)
        ]
      ]
    ]

loop-Needed :
    (e : Engine) (total gone : ℕ) (cs : List EvictionCandidate) (w : World)
    → Needed total e.policy.storage_cap_bytes gone (budget_loop e total gone cs w).1
unfolding budget_loop
loop-Needed e total gone [] w = tt
loop-Needed e total gone (c ∷ cs) w =
    elim (Bool-cases (leb total (e.policy.storage_cap_bytes + gone))) [
      | inl enough ↦ rw (enough, budget_loop) tt
      | inr over ↦ elim (Bool-cases (ltb c.days_since_access e.policy.budget_grace_days)) [
        | inl recent ↦ rw (over, recent, budget_loop) (loop-Needed e total gone cs w)
        | inr old ↦ elim (Bool-cases (evict e c.info_hash w).1) [
          | inl done ↦
              let k : e.policy.storage_cap_bytes + gone < total = ground arith in
              rw (over, old, done, budget_loop)
                (k, loop-Needed e total (gone + c.file_size) cs (evict e c.info_hash w).0)
          | inr failed ↦
              rw (over, old, failed, budget_loop)
                (loop-Needed e total gone cs (evict e c.info_hash w).0)
        ]
      ]
    ]

-- Whatever the faults: each candidate that `budgetPass` evicts was idle for the grace period at
-- least, and before its eviction the total was over the cap, less what was gone by then.
pub budget_pass-picks :
    (e : Engine) (total : ℕ) (cs : List EvictionCandidate) (w : World)
    → All (λ c. idle e c ≡ true) (budget_pass e total cs w).1
      × Needed total e.policy.storage_cap_bytes 0 (budget_pass e total cs w).1
unfolding budget_pass
budget_pass-picks e total cs w = elim (Bool-cases (leb total e.policy.storage_cap_bytes)) [
  | inl fits ↦ rw (fits, budget_pass) (tt, tt)
  | inr over ↦
      rw (over, budget_pass)
        (
          loop_grace e total 0 (order_for_reclaim cs) w,
          loop-Needed e total 0 (order_for_reclaim cs) w,
        )
]
