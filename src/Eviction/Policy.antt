-- ===== src/Eviction/Policy.antt =====
-- shared/eviction/eviction.go: the policy, the verdict on a candidate, and the order of reclaim.
-- A reason is the branch that gave it; its text is left out.
use torrin.Prelude.{
  ℕ, Bool, ◌&&◌, Option, none, some, List, [], ◌∷◌, ◌++◌, if◌then◌else◌, ltb, leb, ◌==◌,
}
use torrin.Prelude.Text.{Text}

pub record Policy : Type 0 where
  pub never_accessed_ttl : ℕ
  pub standard_ttl : ℕ
  pub popular_ttl : ℕ
  pub prewarm_cold_ttl : ℕ
  pub storage_cap_bytes : ℕ
  pub budget_grace_days : ℕ

abbrev pub default_policy : Policy
default_policy = record {
  never_accessed_ttl = 7;
  standard_ttl = 14;
  popular_ttl = 45;
  prewarm_cold_ttl = 14;
  storage_cap_bytes = 300_000_000_000;
  budget_grace_days = 3;
}

abbrev pub large_file_bytes : ℕ
large_file_bytes = 50_000_000_000

pub record EvictionCandidate : Type 0 where
  pub id : Text
  pub info_hash : Text
  pub name : Text
  pub file_size : ℕ
  pub access_count : ℕ
  pub days_since_access : ℕ
  pub is_prewarm : Bool

pub data Reason : Type 0 where
  large_file cold_prewarm never_accessed few_accesses popular : Reason

-- The first case whose guard holds is taken, also where it gives no reason.
unfoldable pub ttl_verdict : Policy → EvictionCandidate → Option Reason
ttl_verdict p c =
    if ltb large_file_bytes c.file_size
    then (if leb p.popular_ttl c.days_since_access then some large_file else none)
    else if c.is_prewarm && c.access_count == 0
    then (if leb p.prewarm_cold_ttl c.days_since_access then some cold_prewarm else none)
    else if c.access_count == 0 && leb p.never_accessed_ttl c.days_since_access
    then some never_accessed
    else if ltb 0 c.access_count && ltb c.access_count 10 && leb p.standard_ttl c.days_since_access
    then some few_accesses
    else if leb 10 c.access_count && leb p.popular_ttl c.days_since_access
    then some popular
    else none

pub data Class : Type 0 where
  cold_prewarm_class small_class large_class : Class

-- The switch of orderForReclaim.
unfoldable pub class_of : EvictionCandidate → Class
class_of c =
    if c.is_prewarm && c.access_count == 0
    then cold_prewarm_class
    else if ltb large_file_bytes c.file_size
    then large_class
    else small_class

pub record Sorted : Type 0 where
  pub cold_prewarm : List EvictionCandidate
  pub small : List EvictionCandidate
  pub large : List EvictionCandidate

unfoldable pub add_to : Class → EvictionCandidate → Sorted → Sorted
add_to cold_prewarm_class c s = record s { cold_prewarm = s.cold_prewarm ++ (c ∷ []) }
add_to small_class c s = record s { small = s.small ++ (c ∷ []) }
add_to large_class c s = record s { large = s.large ++ (c ∷ []) }

-- The loop over the candidates.
unfoldable pub sort_from : Sorted → List EvictionCandidate → Sorted
unfolding add_to class_of
sort_from s [] = s
sort_from s (c ∷ cs) = sort_from (add_to (class_of c) c s) cs

unfoldable pub order_for_reclaim : List EvictionCandidate → List EvictionCandidate
order_for_reclaim cs =
    let s = sort_from (record { cold_prewarm = []; small = []; large = [] }) cs in
    s.cold_prewarm ++ (s.small ++ s.large)
