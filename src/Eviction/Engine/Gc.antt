-- ===== src/Eviction/Engine/Gc.antt =====
-- `RunGC`: when its loop ends, and when it does not.
use mathlib.Core.Path.{subst}
use torrin.Prelude.{
  ℕ, zero, suc, ◌+◌, ◌≤◌, ◌<◌, ◌≡◌, ◌≢◌, ◌⊎◌, inl, inr, refl, ◌∙◌, sym, Bool, true, false, not,
  none, some, List, [], ◌∷◌, Bool-cases, length, take, ◌==◌, arith,
}
use torrin.Prelude.Text.{Text, same, same_self}
use torrin.Prelude.Select.{keep, any_of, length-keep-le, length-keep-lt}
use torrin.Jobs.Rows.{All}
use torrin.Eviction.World.{
  Blob, World, Faults, storage_key, delete_object, delete_blob, orphaned_blobs,
}
use torrin.Eviction.Engine.Steps.{gc_round, run_gc}

-- The rows of table blobs with a content key.
abbrev pub has_blob : List Blob → Text → Bool
has_blob bs k = any_of (λ b. same b.content_key k) bs

-- One orphan of a round.
abbrev drop_orphan : Faults → Blob → World → World
drop_orphan f b w = delete_blob f b.content_key (delete_object (storage_key b.content_key) w)

drop-le : (f : Faults) (b : Blob) (w : World) → length (drop_orphan f b w).blobs ≤ length w.blobs
unfolding delete_blob delete_object
drop-le f b w = ground (arith, length-keep-le (λ x. not (same x.content_key b.content_key)) w.blobs)

drop-lt :
    (f : Faults) (b : Blob) (w : World)
    → f.delete_blob b.content_key ≡ false
    → has_blob w.blobs b.content_key ≡ true
    → length (drop_orphan f b w).blobs + 1 ≤ length w.blobs
unfolding delete_blob delete_object
drop-lt f b w h k = ground (arith, length-keep-lt (λ x. same x.content_key b.content_key) w.blobs)

round-le :
    (f : Faults) (bs : List Blob) (w : World) → length (gc_round f bs w).0.blobs ≤ length w.blobs
unfolding gc_round
round-le f [] w = omega arith
round-le f (b ∷ bs) w = elim (Bool-cases (f.delete_object (storage_key b.content_key))) [
  | inl fails ↦ rw (fails, gc_round) (round-le f bs w)
  | inr works ↦
      let a = round-le f bs (drop_orphan f b w) in
      let c = drop-le f b w in rw (works, gc_round) (omega arith)
]

-- A round that counts no deletion changed nothing, as every object delete failed; a round that
-- counts one has shortened table blobs.
round-cases :
    (f : Faults) (bs : List Blob) (w : World)
    → ((k : Text) → f.delete_blob k ≡ false)
    → All (λ b. has_blob w.blobs b.content_key ≡ true) bs
    → (((gc_round f bs w).0 ≡ w)
        × ((gc_round f bs w).1 ≡ 0)
        × All (λ b. f.delete_object (storage_key b.content_key) ≡ true) bs)
      ⊎ (((gc_round f bs w).1 == 0 ≡ false)
          × (length (gc_round f bs w).0.blobs + 1 ≤ length w.blobs))
unfolding gc_round
round-cases f [] w h a = inl (refl, refl, tt)
round-cases f (b ∷ bs) w h a = elim (Bool-cases (f.delete_object (storage_key b.content_key))) [
  | inl fails ↦ elim (round-cases f bs w h a.1) [
    | inl k ↦ rw (fails, gc_round) (inl (k.0, k.1, (refl, k.2)))
    | inr k ↦ rw (fails, gc_round) (inr k)
  ]
  | inr works ↦
      let le = round-le f bs (drop_orphan f b w) in
      let lt = drop-lt f b w (h b.content_key) a.0 in
      rw (works, gc_round) (inr (ground arith, omega arith))
]

keeps-has :
    (p : Blob → Bool) (all l : List Blob)
    → ((b : Blob)
        → any_of (λ x. same x.content_key b.content_key) l ≡ true
        → has_blob all b.content_key ≡ true)
    → All (λ b. has_blob all b.content_key ≡ true) (keep p l)
unfolding keep any_of
keeps-has p all [] h = tt
keeps-has p all (b ∷ l) h =
    let here : has_blob all b.content_key ≡ true = h b (rw (same_self b.content_key) refl) in
    let rest = keeps-has p all l (λ c k. h c (ground (arith, k))) in
    elim (Bool-cases (p b)) [ inl kept ↦ rw kept (here, rest) | inr out ↦ rw out rest ]

take-All : (P : Blob → Type 0) (n : ℕ) (l : List Blob) → All P l → All P (take n l)
take-All P zero l a = tt
take-All P (suc n) [] a = tt
take-All P (suc n) (b ∷ l) a = (a.0, take-All P n l a.1)

orphans-has : (w : World) → All (λ b. has_blob w.blobs b.content_key ≡ true) (orphaned_blobs 500 w)
unfolding orphaned_blobs
orphans-has w = take-All _ 500 _ (keeps-has _ w.blobs w.blobs (λ b h. h))

-- The objects of the orphans that the next round would read cannot be deleted.
abbrev pub Settled : Faults → World → Type 0
Settled f w = All (λ b. f.delete_object (storage_key b.content_key) ≡ true) (orphaned_blobs 500 w)

-- The loop ends, and where it ends.
abbrev pub Ends : ℕ → Faults → World → Type 0
Ends fuel f w = (v : World) × (run_gc fuel f w ≡ some v) × Settled f v

one_round :
    (fuel : ℕ) (f : Faults) (w : World) (bs : List Blob)
    → ((k : Text) → f.delete_blob k ≡ false)
    → orphaned_blobs 500 w ≡ bs
    → ((v : World) → length v.blobs + 1 ≤ length w.blobs → Ends fuel f v)
    → Ends (suc fuel) f w
unfolding run_gc
one_round fuel f w [] h e next = (w, rw (e, run_gc) refl, rw e tt)
one_round fuel f w (b ∷ bs) h e next =
    elim (round-cases f (b ∷ bs) w h
      (subst (λ l. All (λ c. has_blob w.blobs c.content_key ≡ true) l) e (orphans-has w))) [
        | inl k ↦ (w, rw (e, run_gc, k.1, k.0) refl, rw e k.2)
        | inr k ↦ let r = next (gc_round f (b ∷ bs) w).0 k.1 in (r.0, rw (e, run_gc, k.0) r.1, r.2)
      ]

settles :
    (fuel : ℕ) (f : Faults) (w : World)
    → ((k : Text) → f.delete_blob k ≡ false)
    → length w.blobs < fuel
    → Ends fuel f w
settles zero f w h lt = absurd (omega (arith, lt))
settles (suc fuel) f w h lt =
    one_round fuel f w (orphaned_blobs 500 w) h refl
      (λ v le. settles fuel f v h (omega (arith, lt, le)))

-- Where the delete of a row of table blobs never fails, the loop of `RunGC` ends within one round
-- more than the table has rows, and then every object of the orphans that it would read next
-- cannot be deleted (there may be no orphan left).
pub run_gc-ends :
    (f : Faults) (w : World)
    → ((k : Text) → f.delete_blob k ≡ false)
    → (v : World) × (run_gc (length w.blobs + 1) f w ≡ some v) × Settled f v
run_gc-ends f w h = settles (length w.blobs + 1) f w h (omega arith)

-- A round where the rows stay leaves the tables that `OrphanedBlobs` reads.
round-stays :
    (f : Faults) (bs : List Blob) (w : World)
    → ((k : Text) → f.delete_blob k ≡ true)
    → ((gc_round f bs w).0.blobs ≡ w.blobs) × ((gc_round f bs w).0.refs ≡ w.refs)
unfolding gc_round delete_blob delete_object
round-stays f [] w h = (refl, refl)
round-stays f (b ∷ bs) w h = elim (Bool-cases (f.delete_object (storage_key b.content_key))) [
  | inl fails ↦ rw (fails, gc_round) (round-stays f bs w h)
  | inr works ↦
      let k = round-stays f bs (delete_object (storage_key b.content_key) w) h in
      rw (works, h b.content_key, gc_round) k
]

same_orphans :
    (v w : World)
    → v.blobs ≡ w.blobs
    → v.refs ≡ w.refs
    → orphaned_blobs 500 v ≡ orphaned_blobs 500 w
unfolding orphaned_blobs
same_orphans v w b r = rw (b, r) refl

stuck_round :
    (fuel : ℕ) (f : Faults) (w : World) (bs : List Blob)
    → ((k : Text) → f.delete_blob k ≡ true)
    → ((k : Text) → f.delete_object k ≡ false)
    → orphaned_blobs 500 w ≡ bs
    → bs ≢ []
    → ((v : World) → orphaned_blobs 500 v ≡ orphaned_blobs 500 w → run_gc fuel f v ≡ none)
    → run_gc (suc fuel) f w ≡ none
unfolding run_gc gc_round
stuck_round fuel f w [] h d e n next = absurd (n refl)
stuck_round fuel f w (b ∷ bs) h d e n next =
    let k = round-stays f (b ∷ bs) w h in
    let more : ((gc_round f (b ∷ bs) w).1 == 0) ≡ false =
      rw (d (storage_key b.content_key), gc_round) (ground arith) in
    let r = next (gc_round f (b ∷ bs) w).0 (same_orphans (gc_round f (b ∷ bs) w).0 w k.0 k.1) in
    rw (e, run_gc, more) r

-- Where the store deletes every object and the database deletes no row of table blobs, the loop
-- of `RunGC` on a node with an orphan does not end, however many rounds it takes.
pub run_gc-stuck :
    (fuel : ℕ) (f : Faults) (w : World)
    → ((k : Text) → f.delete_blob k ≡ true)
    → ((k : Text) → f.delete_object k ≡ false)
    → orphaned_blobs 500 w ≢ []
    → run_gc fuel f w ≡ none
unfolding run_gc
run_gc-stuck zero f w h d n = refl
run_gc-stuck (suc fuel) f w h d n =
    stuck_round fuel f w (orphaned_blobs 500 w) h d refl n
      (λ v e. run_gc-stuck fuel f v h d (λ z. n (sym e ∙ z)))
