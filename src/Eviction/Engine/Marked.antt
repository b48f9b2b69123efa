-- ===== src/Eviction/Engine/Marked.antt =====
-- The rows that `evict` marks: those of the hash on the node.
use torrin.Prelude.{
  ℕ, ◌≡◌, refl, sym, Bool, true, false, not, ◌&&◌, List, [], ◌∷◌, Bool-cases, inl, inr, arith,
}
use torrin.Prelude.Text.{Text, same, same_self, to_lower}
use torrin.Prelude.Select.{keep, any_of}
use torrin.Jobs.Model.{Job, evicted, is_status}
use torrin.Jobs.Table.{Table, by_id, exists_row, update_rows}
use torrin.Jobs.Rows.{update_none}
use torrin.Jobs.Queue.{update_job, overwrite}
use torrin.Eviction.World.{World, list_by_info_hash, update_row}
use torrin.Eviction.Engine.Steps.{Engine, evicted_error, mark_one, mark_evicted, siblings_of}

-- A row of the hash on the engine's node that is not evicted.
abbrev pub alive : Engine → Text → Job → Bool
alive e h r =
    same (to_lower r.info_hash) (to_lower h)
    && same r.node e.node
    && not (is_status r.status evicted)

any_update :
    (p q : Job → Bool) (f : Job → Job) (t : Table)
    → any_of p t ≡ false
    → ((r : Job) → p (f r) ≡ false)
    → any_of p (update_rows q f t) ≡ false
unfolding any_of update_rows
any_update p q f [] h k = refl
any_update p q f (r ∷ t) h k = ground (arith, any_update p q f t, k r)

any_weaken :
    (p q : Job → Bool) (t : Table)
    → ((r : Job) → q r ≡ true → p r ≡ true)
    → any_of p t ≡ false
    → any_of q t ≡ false
unfolding any_of
any_weaken p q [] le h = refl
any_weaken p q (r ∷ t) le h = ground (arith, any_weaken p q t le, le r)

any_update_covered :
    (p c d : Job → Bool) (id : Text) (f : Job → Job) (t : Table)
    → ((r : Job) → p (f r) ≡ false)
    → ((r : Job) → same r.id id ≡ false → c r ≡ true → d r ≡ true)
    → any_of (λ r. p r && not (c r)) t ≡ false
    → any_of (λ r. p r && not (d r)) (update_rows (by_id id) f t) ≡ false
unfolding any_of update_rows
any_update_covered p c d id f [] dead other k = refl
any_update_covered p c d id f (r ∷ t) dead other k =
    ground (arith, any_update_covered p c d id f t dead other, dead r, other r)

update_row-jobs :
    (now : ℕ) (j : Job) (w : World)
    → (update_row now j w).jobs ≡ update_rows (by_id j.id) (overwrite now j) w.jobs
unfolding update_row update_job
update_row-jobs now j w = elim (Bool-cases (exists_row (by_id j.id) w.jobs)) [
  | inl there ↦ rw (there, update_row, update_job) refl
  | inr gone ↦
      rw (gone, update_row, update_job)
        (sym (update_none (by_id j.id) (overwrite now j) w.jobs gone))
]

module _ (e : Engine) (h : Text) where
  abbrev marked : Job → Job
  marked s = record s { status = evicted; error = evicted_error }

  marked_dead : (s r : Job) → alive e h (overwrite e.now (marked s) r) ≡ false
  marked_dead s r = ground arith

  -- A sibling on the node has the row's id.
  abbrev pub covers : List Job → Job → Bool
  covers sibs r = any_of (λ s. same s.node e.node && same r.id s.id) sibs

  other_cover :
      (s : Job) (sibs : List Job) (r : Job)
      → same r.id s.id ≡ false
      → covers (s ∷ sibs) r ≡ true
      → covers sibs r ≡ true
  unfolding any_of
  other_cover s sibs r n c = ground (arith, n, c)

  mark_one-alive :
      (s : Job) (w : World)
      → any_of (alive e h) w.jobs ≡ false
      → any_of (alive e h) (mark_one e s w).jobs ≡ false
  unfolding mark_one
  mark_one-alive s w k = elim (Bool-cases (same s.node e.node)) [
    | inl here ↦
        rw (here, mark_one, update_row-jobs e.now (marked s) w)
          (any_update (alive e h) (by_id s.id) (overwrite e.now (marked s)) w.jobs k
            (marked_dead s))
    | inr away ↦ rw (away, mark_one) k
  ]

  pub mark_evicted-alive :
      (sibs : List Job) (w : World)
      → any_of (alive e h) w.jobs ≡ false
      → any_of (alive e h) (mark_evicted e sibs w).jobs ≡ false
  unfolding mark_evicted
  mark_evicted-alive [] w k = k
  mark_evicted-alive (s ∷ sibs) w k =
      mark_evicted-alive sibs (mark_one e s w) (mark_one-alive s w k)

  update_covered :
      (s : Job) (sibs : List Job) (t : Table)
      → any_of (λ r. alive e h r && not (covers (s ∷ sibs) r)) t ≡ false
      → any_of
          (λ r. alive e h r && not (covers sibs r))
          (update_rows (by_id s.id) (overwrite e.now (marked s)) t)
        ≡ false
  update_covered s sibs t k =
      any_update_covered (alive e h) (covers (s ∷ sibs)) (covers sibs) s.id
        (overwrite e.now (marked s)) t (marked_dead s) (λ r n c. other_cover s sibs r n c) k

  -- A sibling that is marked needs no cover any more.
  mark_one-covers :
      (s : Job) (sibs : List Job) (w : World)
      → any_of (λ r. alive e h r && not (covers (s ∷ sibs) r)) w.jobs ≡ false
      → any_of (λ r. alive e h r && not (covers sibs r)) (mark_one e s w).jobs ≡ false
  unfolding mark_one any_of
  mark_one-covers s sibs w k = elim (Bool-cases (same s.node e.node)) [
    | inl here ↦
        rw (here, mark_one, update_row-jobs e.now (marked s) w) (update_covered s sibs w.jobs k)
    | inr away ↦
        rw (away, mark_one)
          (any_weaken (λ r. alive e h r && not (covers (s ∷ sibs) r))
            (λ r. alive e h r && not (covers sibs r)) w.jobs (λ r c. ground arith) k)
  ]

  pub mark_evicted-covers :
      (sibs : List Job) (w : World)
      → any_of (λ r. alive e h r && not (covers sibs r)) w.jobs ≡ false
      → any_of (alive e h) (mark_evicted e sibs w).jobs ≡ false
  unfolding mark_evicted any_of
  mark_evicted-covers [] w k =
      any_weaken (λ r. alive e h r && not (covers [] r)) (alive e h) w.jobs (λ r c. ground arith) k
  mark_evicted-covers (s ∷ sibs) w k =
      mark_evicted-covers sibs (mark_one e s w) (mark_one-covers s sibs w k)

  abbrev of_hash : Job → Bool
  of_hash r = same (to_lower r.info_hash) (to_lower h)

  self_covered :
      (l sibs : List Job)
      → ((r : Job) → covers (keep of_hash l) r ≡ true → covers sibs r ≡ true)
      → any_of (λ r. alive e h r && not (covers sibs r)) l ≡ false
  unfolding any_of keep
  self_covered [] sibs sub = refl
  self_covered (r ∷ l) sibs sub =
      let tail = self_covered l sibs (λ x c. ground (arith, sub x, c)) in
      ground (arith, tail, sub r, same_self r.id)

-- The siblings that are listed cover every row of the hash on the node.
pub listed_cover :
    (e : Engine) (h : Text) (w : World)
    → e.faults.list_by_info_hash h ≡ false
    → any_of (λ r. alive e h r && not (covers e h (siblings_of e h w) r)) w.jobs ≡ false
unfolding list_by_info_hash
listed_cover e h w listed =
    rw listed (self_covered e h w.jobs (keep (of_hash e h) w.jobs) (λ r c. c))
