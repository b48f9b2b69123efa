-- ===== src/Eviction/Engine/Steps.antt =====
-- The passes. A loop over fetched rows is a recursion on them; the loop of `RunGC` takes fuel.
use torrin.Prelude.{
  ℕ, zero, suc, ◌+◌, ◌-◌, Bool, true, false, ◌||◌, Option, none, some, List, [], ◌∷◌, ◌++◌,
  if◌then◌else◌, ltb, leb, ◌==◌,
}
use torrin.Prelude.Text.{Text, bytes, same, has_prefix}
use torrin.Prelude.Select.{keep, any_of}
use torrin.Jobs.Model.{Job, seeding, evicted, is_status}
use torrin.Eviction.Policy.{Policy, EvictionCandidate, ttl_verdict, order_for_reclaim}
use torrin.Eviction.World.{
  Blob, BlobRef, Object, World, Faults, storage_key, list_by_info_hash, delete_prefix,
  delete_object, delete_blob, referenced, drop_blob_refs, orphaned_blobs, update_row,
}

-- The engine of a node at an instant; the candidates are those that the database returns.
pub record Engine : Type 0 where
  pub policy : Policy
  pub node : Text
  pub now : ℕ
  pub faults : Faults

-- The loop of `purgeBlobs`.
unfoldable pub purge_key : Faults → Text → World → World
purge_key f k w =
    if f.delete_object (storage_key k) then w else delete_blob f k (delete_object (storage_key k) w)

unfoldable pub purge_keys : Faults → List Text → World → World
purge_keys f [] w = w
purge_keys f (k ∷ ks) w = purge_keys f ks (purge_key f k w)

unfoldable pub purge_blobs : Faults → Text → World → World
unfolding purge_keys
purge_blobs f h w =
    if f.drop_blob_refs h then w else let (w', ks) = drop_blob_refs h w in purge_keys f ks w'

abbrev pub evicted_error : Text
evicted_error = bytes "content evicted from cache"

-- The last loop of `evict`: the siblings on this node are marked.
unfoldable pub mark_one : Engine → Job → World → World
mark_one e sib w =
    if same sib.node e.node
    then update_row e.now (record sib { status = evicted; error = evicted_error }) w
    else w

unfoldable pub mark_evicted : Engine → List Job → World → World
mark_evicted e [] w = w
mark_evicted e (sib ∷ sibs) w = mark_evicted e sibs (mark_one e sib w)

-- The siblings as `evict` reads them: an error of the query leaves none.
abbrev pub siblings_of : Engine → Text → World → List Job
siblings_of e h w = if e.faults.list_by_info_hash h then [] else list_by_info_hash h w

-- The world after `evict`, and whether it returned no error.
unfoldable pub evict : Engine → Text → World → World × Bool
evict e h w =
    let sibs = siblings_of e h w in
    if any_of (λ s. is_status s.status seeding) sibs
    then (w, false)
    else if e.faults.delete_prefix (h ++ (b'/' ∷ []))
    then (w, false)
    else (mark_evicted e sibs (purge_blobs e.faults h (delete_prefix (h ++ (b'/' ∷ [])) w)), true)

-- The bytes of evicted candidates.
unfoldable pub freed : List EvictionCandidate → ℕ
freed [] = 0
freed (c ∷ cs) = c.file_size + freed cs

-- The first loop of `RunDaily`, with the candidates that it evicts.
unfoldable pub ttl_pass : Engine → List EvictionCandidate → World → World × List EvictionCandidate
ttl_pass e [] w = (w, [])
ttl_pass e (c ∷ cs) w = elim (ttl_verdict e.policy c) [
  | none ↦ ttl_pass e cs w
  | some reason ↦
      let r = evict e c.info_hash w in
      elim r.1 [
        | true ↦ let (v, done) = ttl_pass e cs r.0 in (v, c ∷ done)
        | false ↦ ttl_pass e cs r.0
      ]
]

-- The loop of `budgetPass`; `gone` is what it has taken off `total`, so `total <= cap` is written
-- `total ≤ cap + gone`.
unfoldable pub budget_loop :
    Engine → ℕ → ℕ → List EvictionCandidate → World → World × List EvictionCandidate
budget_loop e total gone [] w = (w, [])
budget_loop e total gone (c ∷ cs) w = elim (leb total (e.policy.storage_cap_bytes + gone)) [
  | true ↦ (w, [])
  | false ↦ elim (ltb c.days_since_access e.policy.budget_grace_days) [
    | true ↦ budget_loop e total gone cs w
    | false ↦
        let r = evict e c.info_hash w in
        elim r.1 [
          | true ↦ let (v, done) = budget_loop e total (gone + c.file_size) cs r.0 in (v, c ∷ done)
          | false ↦ budget_loop e total gone cs r.0
        ]
  ]
]

-- `total` and the candidates are what the database returns, 0 and none on an error.
unfoldable pub budget_pass :
    Engine → ℕ → List EvictionCandidate → World → World × List EvictionCandidate
unfolding budget_loop
budget_pass e total candidates w =
    if leb total e.policy.storage_cap_bytes
    then (w, [])
    else budget_loop e total 0 (order_for_reclaim candidates) w

-- The orphans of one round of `RunGC`: the world, how many were deleted, and their bytes.
unfoldable pub gc_round : Faults → List Blob → World → World × ℕ × ℕ
gc_round f [] w = (w, 0, 0)
gc_round f (b ∷ bs) w =
    let key = storage_key b.content_key in
    elim (f.delete_object key) [
      | true ↦ gc_round f bs w
      | false ↦
          let (v, n, size) = gc_round f bs (delete_blob f b.content_key (delete_object key w)) in
          (v, n + 1, size + b.size)
    ]

-- The loop of `RunGC`; `none` if the fuel runs out.
unfoldable pub run_gc : ℕ → Faults → World → Option World
unfolding gc_round
run_gc zero f w = none
run_gc (suc fuel) f w = elim (orphaned_blobs 500 w) [
  | [] ↦ some w
  | b ∷ bs ↦
      let (v, n, size) = gc_round f (b ∷ bs) w in
      elim (n == 0) [ true ↦ some v | false ↦ run_gc fuel f v ]
]

abbrev pub reconcile_grace : ℕ
reconcile_grace = 86_400

-- path.Base of the key of an object, which does not end in a slash: what follows the last one.
unfoldable pub base_from : Text → Text → Text
base_from acc [] = acc
base_from acc (c ∷ s) = base_from (if c == b'/' then [] else acc ++ (c ∷ [])) s

-- The loop of `runReconcile` over the listed objects; `refs` are the referenced keys, read before.
-- The cutoff `now - grace` before `mod_time` is written `now < mod_time + grace`.
unfoldable pub reconcile_one : Engine → List BlobRef → Object → World → World
unfolding base_from
reconcile_one e refs o w =
    let ck = base_from [] o.key in
    if referenced ck refs
      || ltb e.now (o.mod_time + reconcile_grace)
      || e.faults.delete_object o.key
    then w
    else delete_blob e.faults ck (delete_object o.key w)

unfoldable pub reconcile_loop : Engine → List BlobRef → List Object → World → World
reconcile_loop e refs [] w = w
reconcile_loop e refs (o ∷ os) w = reconcile_loop e refs os (reconcile_one e refs o w)

unfoldable pub run_reconcile : Engine → World → World
unfolding reconcile_loop
run_reconcile e w =
    reconcile_loop e w.refs (keep (λ o. has_prefix o.key (bytes "blobs/")) w.objects) w

-- The loop of `reclaimToFree`; `stat` gives the free bytes of the disk, if it can be read.
unfoldable pub reclaim_loop :
    Engine
    → (World → Option ℕ)
    → ℕ
    → ℕ
    → ℕ
    → List EvictionCandidate
    → World
    → World × List EvictionCandidate
reclaim_loop e stat target need gone [] w = (w, [])
reclaim_loop e stat target need gone (c ∷ cs) w =
    elim (leb need gone || elim (stat w) [ none ↦ false | some free ↦ leb target free ]) [
      | true ↦ (w, [])
      | false ↦ elim (ltb c.days_since_access e.policy.budget_grace_days) [
        | true ↦ reclaim_loop e stat target need gone cs w
        | false ↦
            let r = evict e c.info_hash w in
            elim r.1 [
              | true ↦
                  let (v, done) = reclaim_loop e stat target need (gone + c.file_size) cs r.0 in
                  (v, c ∷ done)
              | false ↦ reclaim_loop e stat target need gone cs r.0
            ]
      ]
    ]

-- `reclaimToFree` after its garbage collection.
unfoldable pub reclaim_to_free :
    Engine
    → (World → Option ℕ)
    → ℕ
    → List EvictionCandidate
    → World
    → World × List EvictionCandidate
unfolding reclaim_loop
reclaim_to_free e stat target candidates w = elim (stat w) [
  | none ↦ (w, [])
  | some free ↦
      if leb target free
      then (w, [])
      else reclaim_loop e stat target (target - free) 0 (order_for_reclaim candidates) w
]
