-- ===== src/Eviction/Engine/Verdict.antt =====
-- The verdict and the order of reclaim, against what the policy says.
use mathlib.Core.List.{Perm, perm_middle, append_assoc, append-nil}
use mathlib.Core.List.Perm
use torrin.Prelude.{
  ℕ, ◌≤◌, ◌≡◌, ◌≢◌, ◌↔◌, ◌⊎◌, inl, inr, refl, ◌∙◌, ◌&&◌, none, List, [], ◌∷◌, ◌++◌, if◌then◌else◌,
  ltb, ◌==◌, arith,
}
use torrin.Prelude.Select.{keep}
use torrin.Eviction.Policy.{
  Policy, EvictionCandidate, Class, Sorted, cold_prewarm_class, small_class, large_class,
  large_file_bytes, ttl_verdict, class_of, add_to, sort_from, order_for_reclaim,
}

-- How many days a candidate may lie idle: large files as long as popular ones, then cold prewarmed
-- titles, then by how often the content was watched.
abbrev pub ttl_of : Policy → EvictionCandidate → ℕ
ttl_of p c =
    if ltb large_file_bytes c.file_size
    then p.popular_ttl
    else if c.is_prewarm && c.access_count == 0
    then p.prewarm_cold_ttl
    else if c.access_count == 0
    then p.never_accessed_ttl
    else if ltb c.access_count 10
    then p.standard_ttl
    else p.popular_ttl

-- A candidate gets a reason exactly if it has been idle for its time to live.
pub ttl_verdict-eq-some_iff :
    (p : Policy) (c : EvictionCandidate)
    → (ttl_verdict p c ≢ none) ↔ (ttl_of p c ≤ c.days_since_access)
unfolding ttl_verdict
ttl_verdict-eq-some_iff p c = (λ h. ground arith, λ h. ground arith)

abbrev rank : Class → ℕ
rank cold_prewarm_class = 0
rank small_class = 1
rank large_class = 2

-- The candidates of a class, in their order.
abbrev pub of_class : Class → List EvictionCandidate → List EvictionCandidate
of_class k = keep (λ c. rank (class_of c) == rank k)

Class-cases : (k : Class) → (k ≡ cold_prewarm_class) ⊎ ((k ≡ small_class) ⊎ (k ≡ large_class))
Class-cases cold_prewarm_class = inl refl
Class-cases small_class = inr (inl refl)
Class-cases large_class = inr (inr refl)

sort_from-keep :
    (s : Sorted) (cs : List EvictionCandidate)
    → sort_from s cs ≡ record {
      cold_prewarm = s.cold_prewarm ++ of_class cold_prewarm_class cs;
      small = s.small ++ of_class small_class cs;
      large = s.large ++ of_class large_class cs;
    }
unfolding sort_from keep add_to
sort_from-keep s [] = simp append-nil
sort_from-keep s (c ∷ cs) = elim (Class-cases (class_of c)) [
  | inl e ↦
      rw (e, sort_from) (sort_from-keep (add_to cold_prewarm_class c s) cs ∙ simp append_assoc)
  | inr (inl e) ↦ rw (e, sort_from) (sort_from-keep (add_to small_class c s) cs ∙ simp append_assoc)
  | inr (inr e) ↦ rw (e, sort_from) (sort_from-keep (add_to large_class c s) cs ∙ simp append_assoc)
]

classes-perm :
    (cs : List EvictionCandidate)
    → Perm
        (of_class cold_prewarm_class cs ++ (of_class small_class cs ++ of_class large_class cs))
        cs
unfolding keep
classes-perm [] = Perm.refl []
classes-perm (c ∷ cs) = elim (Class-cases (class_of c)) [
  | inl e ↦ rw (e, keep) (Perm.cons c (classes-perm cs))
  | inr (inl e) ↦
      rw (e, keep)
        (Perm.trans
          (perm_middle (of_class cold_prewarm_class cs)
            (of_class small_class cs ++ of_class large_class cs))
          (Perm.cons c (classes-perm cs)))
  | inr (inr e) ↦
      let a = of_class cold_prewarm_class cs in
      let b = of_class small_class cs in
      let d = of_class large_class cs in
      rw (e, keep)
        (rw (← append_assoc a b (c ∷ d)) (
          Perm.trans (perm_middle (a ++ b) d)
            (Perm.cons c (rw (append_assoc a b d) (classes-perm cs)))))
]

-- The order of reclaim is a rearrangement of the candidates: first the cold prewarmed ones, then
-- the small, then the large, each class in the order of the database.
pub order_for_reclaim_classes :
    (cs : List EvictionCandidate)
    → (order_for_reclaim cs
        ≡ of_class cold_prewarm_class cs ++ (of_class small_class cs ++ of_class large_class cs))
      × Perm (order_for_reclaim cs) cs
unfolding order_for_reclaim
order_for_reclaim_classes cs =
    let e = sort_from-keep (record { cold_prewarm = []; small = []; large = [] }) cs in
    (rw e, rw e (classes-perm cs))
