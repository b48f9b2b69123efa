-- ===== src/Eviction/Engine/Reclaimed.antt =====
-- What the budget pass clears from the node.
use torrin.Prelude.{ℕ, ◌+◌, ◌≤◌, ◌≡◌, ◌⊎◌, true, List}
use torrin.Prelude.Text.{Text}
use torrin.Jobs.Rows.{All}
use torrin.Eviction.Policy.{EvictionCandidate, Sorted}
use torrin.Eviction.Engine.Cleared.{Cleared}
use torrin.Eviction.World.{World}
use torrin.Eviction.Engine.Steps.{Engine, freed}
use torrin.Eviction.Engine.Reclaim.{idle}

module _ (P : EvictionCandidate → Type 0) where
  abbrev AllSorted : Sorted → Type 0
  AllSorted s = All P s.cold_prewarm × All P s.small × All P s.large

-- A candidate that the grace period protects, or of which nothing is left.
abbrev pub Settled : Engine → World → EvictionCandidate → Type 0
Settled e w c = idle e c ≡ true → Cleared e c.info_hash w

-- What the candidates that are said to be evicted leave, and when the loop stops.
abbrev pub Reclaimed : Engine → ℕ → List EvictionCandidate → World × List EvictionCandidate → Type 0
Reclaimed e need cs (w, done) =
    All (λ c. Cleared e c.info_hash w) done
    × ((need ≤ e.policy.storage_cap_bytes + freed done) ⊎ All (Settled e w) cs)

-- The same in the loop, with what is gone by then.
abbrev LoopReclaimed :
    Engine → ℕ → ℕ → List EvictionCandidate → World × List EvictionCandidate → Type 0
LoopReclaimed e total gone cs r =
    All (λ c. Cleared e c.info_hash r.0) r.1
    × ((total ≤ e.policy.storage_cap_bytes + gone + freed r.1) ⊎ All (Settled e r.0) cs)
