-- ===== src/Eviction/Engine/Evict.antt =====
-- What an eviction and a reconciliation keep, and which keys `DropBlobRefs` returns.
use torrin.Prelude.{
  ℕ, ◌≡◌, ◌≢◌, inl, inr, refl, ap, ◌∙◌, Bool, true, false, not, List, [], ◌∷◌, ◌++◌, drop, map,
  Bool-cases, Result-cases, arith,
}
use torrin.Prelude.Text.{Text, bytes, same, same_iff, same_self, has_prefix}
use torrin.Prelude.Select.{keep, any_of}
use torrin.Jobs.Model.{Job, seeding, is_status}
use torrin.Jobs.Rows.{All}
use torrin.Jobs.Queue.{update_job}
use torrin.Eviction.World.{
  BlobRef, Object, World, Faults, storage_key, delete_prefix, delete_object, delete_blob,
  referenced, distinct, drop_blob_refs, update_row,
}
use torrin.Eviction.Engine.Steps.{
  Engine, purge_key, purge_keys, purge_blobs, mark_one, mark_evicted, siblings_of, evict, base_from,
  reconcile_one, reconcile_loop, run_reconcile,
}

-- The node's store has an object with this key.
abbrev pub stored : Text → World → Bool
stored k w = any_of (λ o. same o.key k) w.objects

keep-stored :
    (p : Object → Bool) (k : Text) (l : List Object)
    → ((o : Object) → o.key ≡ k → p o ≡ true)
    → any_of (λ o. same o.key k) l ≡ true
    → any_of (λ o. same o.key k) (keep p l) ≡ true
unfolding keep any_of
keep-stored p k [] h s = s
keep-stored p k (o ∷ l) h s = elim (Bool-cases (same o.key k)) [
  | inl here ↦ let t : p o ≡ true = h o ((same_iff o.key k).0 here) in rw t (rw here refl)
  | inr other ↦ ground (arith, keep-stored p k l h)
]

delete_other :
    (k d : Text) (w : World) → d ≢ k → stored k w ≡ true → stored k (delete_object d w) ≡ true
unfolding delete_object
delete_other k d w n s =
    keep-stored (λ o. not (same o.key d)) k w.objects (λ o e. ground (arith, same_iff o.key d)) s

storage_key-inj : (a b : Text) → storage_key a ≡ storage_key b → a ≡ b
storage_key-inj a b e = ap (λ t. drop 6 t) e

purge_other :
    (f : Faults) (k d : Text) (w : World)
    → d ≢ k
    → stored (storage_key k) w ≡ true
    → stored (storage_key k) (purge_key f d w) ≡ true
unfolding purge_key delete_blob
purge_other f k d w n s =
    let t = delete_other (storage_key k) (storage_key d) w (λ e. n (storage_key-inj d k e)) s in
    ground (arith, t)

purge_others :
    (f : Faults) (k : Text) (ds : List Text) (w : World)
    → All (λ d. d ≢ k) ds
    → stored (storage_key k) w ≡ true
    → stored (storage_key k) (purge_keys f ds w) ≡ true
unfolding purge_keys
purge_others f k [] w a s = s
purge_others f k (d ∷ ds) w a s =
    purge_others f k ds (purge_key f d w) a.1 (purge_other f k d w a.0 s)

-- Keys that nothing in `kept` names differ from one that is named there.
unnamed :
    (k : Text) (kept : List BlobRef) (ks : List Text)
    → referenced k kept ≡ true
    → All (λ d. d ≢ k) (keep (λ d. not (referenced d kept)) ks)
unfolding keep
unnamed k kept [] h = tt
unnamed k kept (d ∷ ks) h = elim (Bool-cases (referenced d kept)) [
  | inl named ↦ rw named (unnamed k kept ks h)
  | inr free ↦
      let n : d ≢ k = λ e. ground (arith, (ap (λ x. referenced x kept) e), free, h) in
      rw free (n, unnamed k kept ks h)
]

distinct-All : (P : Text → Type 0) (ks : List Text) → All P ks → All P (distinct ks)
unfolding distinct
distinct-All P [] a = tt
distinct-All P (k ∷ ks) a = elim (Bool-cases (any_of (same k) (distinct ks))) [
  | inl again ↦ rw again (distinct-All P ks a.1)
  | inr new ↦ rw new (a.0, distinct-All P ks a.1)
]

-- References of another hash than the one that goes.
abbrev pub kept_refs : Text → World → List BlobRef
kept_refs h w = keep (λ r. not (same r.info_hash h)) w.refs

kept-named :
    (h k : Text) (refs : List BlobRef)
    → referenced k (keep (λ r. not (same r.info_hash h)) refs) ≡ true
    → referenced k refs ≡ true
unfolding referenced any_of keep
kept-named h k [] n = n
kept-named h k (r ∷ refs) n = ground (arith, kept-named h k refs, n)

purge_shared :
    (f : Faults) (h k : Text) (w : World)
    → referenced k (kept_refs h w) ≡ true
    → stored (storage_key k) w ≡ true
    → stored (storage_key k) (purge_blobs f h w) ≡ true
unfolding purge_blobs drop_blob_refs
purge_shared f h k w n s = elim (Bool-cases (f.drop_blob_refs h)) [
  | inl fails ↦ rw (fails, purge_blobs) s
  | inr works ↦
      rw (works, purge_blobs)
        (purge_others f k (drop_blob_refs h w).1 (drop_blob_refs h w).0
          (distinct-All (λ d. d ≢ k) _ (unnamed k w.refs _ (kept-named h k w.refs n))) s)
]

update_row_objects : (now : ℕ) (j : Job) (w : World) → (update_row now j w).objects ≡ w.objects
unfolding update_row
update_row_objects now j w = elim (Result-cases (update_job now j w.jobs)) [
  | inl k ↦ rw (k.1, update_row) refl
  | inr k ↦ rw (k.1, update_row) refl
]

mark_one_objects : (e : Engine) (j : Job) (w : World) → (mark_one e j w).objects ≡ w.objects
unfolding mark_one
mark_one_objects e j w = elim (Bool-cases (same j.node e.node)) [
  | inl here ↦ rw (here, mark_one) (update_row_objects e.now _ w)
  | inr away ↦ rw (away, mark_one) refl
]

mark_objects : (e : Engine) (l : List Job) (w : World) → (mark_evicted e l w).objects ≡ w.objects
unfolding mark_evicted
mark_objects e [] w = refl
mark_objects e (j ∷ l) w = mark_objects e l (mark_one e j w) ∙ mark_one_objects e j w

prefix_stored :
    (p k : Text) (w : World)
    → has_prefix k p ≡ false
    → stored k w ≡ true
    → stored k (delete_prefix p w) ≡ true
unfolding delete_prefix
prefix_stored p k w n s =
    keep-stored (λ o. not (has_prefix o.key p)) k w.objects
      (λ o e. ground (arith, ap (λ x. has_prefix x p) e, n)) s

-- Whatever the faults: an eviction keeps the blob object of a content key that a reference of
-- another info hash names, if the object's key does not stand under the evicted hash's directory.
pub evict-keeps_shared :
    (e : Engine) (h k : Text) (w : World)
    → has_prefix (storage_key k) (h ++ (b'/' ∷ [])) ≡ false
    → referenced k (kept_refs h w) ≡ true
    → stored (storage_key k) w ≡ true
    → stored (storage_key k) (evict e h w).0 ≡ true
unfolding evict delete_prefix
evict-keeps_shared e h k w n r s =
    let p : Text = h ++ (b'/' ∷ []) in
    let a = prefix_stored p (storage_key k) w n s in
    let b = purge_shared e.faults h k (delete_prefix p w) r a in
    let c = mark_objects e (siblings_of e h w) (purge_blobs e.faults h (delete_prefix p w)) in
    let d : stored (storage_key k)
          (mark_evicted e (siblings_of e h w) (purge_blobs e.faults h (delete_prefix p w)))
        ≡ true =
      ap (any_of (λ o. same o.key (storage_key k))) c ∙ b in
    elim (Bool-cases (any_of (λ s. is_status s.status seeding) (siblings_of e h w))) [
      | inl busy ↦ rw (busy, evict) s
      | inr quiet ↦ elim (Bool-cases (e.faults.delete_prefix p)) [
        | inl fails ↦ rw (quiet, fails, evict) s
        | inr works ↦ rw (quiet, works, evict) d
      ]
    ]

reconcile_one-keeps :
    (e : Engine) (key : Text) (refs : List BlobRef) (o : Object) (v : World)
    → referenced (base_from [] key) refs ≡ true
    → stored key v ≡ true
    → stored key (reconcile_one e refs o v) ≡ true
unfolding reconcile_one delete_blob
reconcile_one-keeps e key refs o v r t = elim (Bool-cases (referenced (base_from [] o.key) refs)) [
  | inl named ↦ rw (named, reconcile_one) t
  | inr free ↦
      let n : o.key ≢ key =
        λ z. ground (arith, (ap (λ x. referenced (base_from [] x) refs) z), free, r) in
      ground (arith, delete_other key o.key v n t)
]

reconcile_loop-keeps :
    (e : Engine) (key : Text) (refs : List BlobRef) (l : List Object) (v : World)
    → referenced (base_from [] key) refs ≡ true
    → stored key v ≡ true
    → stored key (reconcile_loop e refs l v) ≡ true
unfolding reconcile_loop
reconcile_loop-keeps e key refs [] v r t = t
reconcile_loop-keeps e key refs (o ∷ l) v r t =
    reconcile_loop-keeps e key refs l (reconcile_one e refs o v) r
      (reconcile_one-keeps e key refs o v r t)

-- Whatever the faults: `runReconcile` keeps every object whose base name is a content key that a
-- reference names.
pub run_reconcile-keeps :
    (e : Engine) (key : Text) (w : World)
    → referenced (base_from [] key) w.refs ≡ true
    → stored key w ≡ true
    → stored key (run_reconcile e w) ≡ true
unfolding run_reconcile
run_reconcile-keeps e key w r s =
    reconcile_loop-keeps e key w.refs (keep (λ o. has_prefix o.key (bytes "blobs/")) w.objects) w r
      s

removed-named :
    (h : Text) (all l : List BlobRef)
    → ((k : Text) → referenced k l ≡ true → referenced k all ≡ true)
    → keep
        (λ k. not (referenced k all))
        (map (λ r. r.content_key) (keep (λ r. same r.info_hash h) l))
      ≡ []
unfolding keep referenced any_of
removed-named h all [] sub = refl
removed-named h all (r ∷ l) sub =
    let rest = removed-named h all l (λ k n. sub k (ground (arith, n))) in
    let here : referenced r.content_key all ≡ true =
      sub r.content_key (rw (same_self r.content_key) refl) in
    elim (Bool-cases (same r.info_hash h)) [
      | inl gone ↦ rw (gone, here) rest
      | inr other ↦ rw other rest
    ]

-- `DropBlobRefs` takes the references of the hash and no others, and it never returns a key: its
-- SELECT still sees the reference that is being deleted.
pub drop_blob_refs_lem :
    (h : Text) (w : World)
    → ((drop_blob_refs h w).0.refs ≡ kept_refs h w) × ((drop_blob_refs h w).1 ≡ [])
unfolding drop_blob_refs distinct
drop_blob_refs_lem h w = (refl, rw (removed-named h w.refs w.refs (λ k n. n)) refl)
