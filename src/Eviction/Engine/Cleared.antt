-- ===== src/Eviction/Engine/Cleared.antt =====
-- What an eviction takes away for good: the objects under a hash's directory, and the rows of the
-- hash on the node that are not marked as evicted.
use torrin.Prelude.{
  ◌≡◌, ◌⊎◌, refl, ◌∙◌, Bool, true, false, not, List, [], ◌∷◌, ◌++◌, inl, inr, arith,
}
use torrin.Prelude.Text.{Text, same, has_prefix}
use torrin.Prelude.Select.{keep, any_of, any-keep}
use torrin.Jobs.Model.{Job}
use torrin.Jobs.Queue.{update_job}
use torrin.Eviction.World.{
  World, Faults, Object, list_by_info_hash, delete_prefix, delete_object, delete_blob,
  drop_blob_refs, update_row, storage_key,
}
use torrin.Eviction.Engine.Steps.{
  Engine, purge_key, purge_keys, purge_blobs, mark_one, mark_evicted, siblings_of, evict,
}
use torrin.Eviction.Engine.Marked.{alive, mark_evicted-alive, mark_evicted-covers, listed_cover}

abbrev pub under : Text → Object → Bool
under h o = has_prefix o.key (h ++ (b'/' ∷ []))

-- Nothing of the hash is left on the node.
pub record Cleared (e : Engine) (h : Text) (w : World) : Type 0 where
  pub objects : any_of (under h) w.objects ≡ false
  pub rows : any_of (alive e h) w.jobs ≡ false

module _ (q : Object → Bool) where
  purge_key-objects :
      (f : Faults) (k : Text) (w : World)
      → any_of q w.objects ≡ false
      → any_of q (purge_key f k w).objects ≡ false
  unfolding purge_key delete_blob delete_object
  purge_key-objects f k w h =
      ground (arith, any-keep q (λ o. not (same o.key (storage_key k))) w.objects h, h)

  purge_keys-objects :
      (f : Faults) (ks : List Text) (w : World)
      → any_of q w.objects ≡ false
      → any_of q (purge_keys f ks w).objects ≡ false
  unfolding purge_keys
  purge_keys-objects f [] w h = h
  purge_keys-objects f (k ∷ ks) w h =
      purge_keys-objects f ks (purge_key f k w) (purge_key-objects f k w h)

  purge_blobs-objects :
      (f : Faults) (h : Text) (w : World)
      → any_of q w.objects ≡ false
      → any_of q (purge_blobs f h w).objects ≡ false
  unfolding purge_blobs drop_blob_refs
  purge_blobs-objects f h w k =
      ground (arith, k, purge_keys-objects f (drop_blob_refs h w).1 (drop_blob_refs h w).0)

mark_one-objects : (e : Engine) (s : Job) (w : World) → (mark_one e s w).objects ≡ w.objects
unfolding mark_one update_row update_job
mark_one-objects e s w = ground arith

mark_evicted-objects :
    (e : Engine) (sibs : List Job) (w : World) → (mark_evicted e sibs w).objects ≡ w.objects
unfolding mark_evicted
mark_evicted-objects e [] w = refl
mark_evicted-objects e (s ∷ sibs) w =
    mark_evicted-objects e sibs (mark_one e s w) ∙ mark_one-objects e s w

purge_key-jobs : (f : Faults) (k : Text) (w : World) → (purge_key f k w).jobs ≡ w.jobs
unfolding purge_key delete_blob delete_object
purge_key-jobs f k w = ground arith

purge_keys-jobs : (f : Faults) (ks : List Text) (w : World) → (purge_keys f ks w).jobs ≡ w.jobs
unfolding purge_keys
purge_keys-jobs f [] w = refl
purge_keys-jobs f (k ∷ ks) w = purge_keys-jobs f ks (purge_key f k w) ∙ purge_key-jobs f k w

pub purge_blobs_jobs : (f : Faults) (h : Text) (w : World) → (purge_blobs f h w).jobs ≡ w.jobs
unfolding purge_blobs drop_blob_refs
purge_blobs_jobs f h w =
    ground (arith, purge_keys-jobs f (drop_blob_refs h w).1 (drop_blob_refs h w).0)

purge_jobs :
    (e : Engine) (h : Text) (w : World)
    → (purge_blobs e.faults h (delete_prefix (h ++ (b'/' ∷ [])) w)).jobs ≡ w.jobs
unfolding delete_prefix
purge_jobs e h w = purge_blobs_jobs e.faults h (delete_prefix (h ++ (b'/' ∷ [])) w)

any-keep-not : (q : Object → Bool) (l : List Object) → any_of q (keep (λ o. not (q o)) l) ≡ false
unfolding any_of keep
any-keep-not q [] = refl
any-keep-not q (o ∷ l) = ground (arith, any-keep-not q l)

-- An eviction that does not get through changes nothing.
evict_world :
    (e : Engine) (h : Text) (w : World)
    → (((evict e h w).1 ≡ false) × ((evict e h w).0 ≡ w))
      ⊎ (((evict e h w).1 ≡ true)
          × ((evict e h w).0
              ≡ mark_evicted e
                  (siblings_of e h w)
                  (purge_blobs e.faults h (delete_prefix (h ++ (b'/' ∷ [])) w))))
unfolding evict
evict_world e h w = ground arith

-- An eviction that gets through leaves nothing of its hash on the node.
pub evict-Cleared :
    (e : Engine) (h : Text) (w : World)
    → (evict e h w).1 ≡ true
    → ((k : Text) → e.faults.list_by_info_hash k ≡ false)
    → Cleared e h (evict e h w).0
unfolding evict delete_prefix list_by_info_hash
evict-Cleared e h w done lists =
    let p : Text = h ++ (b'/' ∷ []) in
    let sibs = siblings_of e h w in
    let v : World = purge_blobs e.faults h (delete_prefix p w) in
    elim (evict_world e h w) [
      | inl (failed, _) ↦ absurd (ground (arith, done, failed))
      | inr (_, world) ↦ rw world (record {
        objects = rw (mark_evicted-objects e sibs v) (
            purge_blobs-objects (under h) e.faults h (delete_prefix p w)
              (any-keep-not (under h) w.objects));
        rows =
            mark_evicted-covers e h sibs v (rw (purge_jobs e h w) (listed_cover e h w (lists h)));
      })
    ]

-- An eviction brings nothing back that another has taken.
pub evict-keeps_Cleared :
    (e : Engine) (h k : Text) (w : World) → Cleared e k w → Cleared e k (evict e h w).0
unfolding evict delete_prefix
evict-keeps_Cleared e h k w c =
    let p : Text = h ++ (b'/' ∷ []) in
    let sibs = siblings_of e h w in
    let v : World = purge_blobs e.faults h (delete_prefix p w) in
    elim (evict_world e h w) [
      | inl (_, same_world) ↦ rw same_world c
      | inr (_, world) ↦ rw world (record {
        objects = rw (mark_evicted-objects e sibs v) (
            purge_blobs-objects (under k) e.faults h (delete_prefix p w)
              (any-keep (under k) (λ o. not (under h o)) w.objects c.objects));
        rows = mark_evicted-alive e k sibs v (rw (purge_jobs e h w) c.rows);
      })
    ]
