-- ===== src/Eviction/Engine/Tests.antt =====
-- A node with two torrents, and the theorems at it.
use torrin.Prelude.{◌+◌, ◌≡◌, ◌≢◌, refl, true, false, none, some, List, [], ◌∷◌, ◌++◌, length}
use torrin.Prelude.Text.{Text, bytes, same, has_prefix}
use torrin.Prelude.Select.{keep, any_of}
use torrin.Eviction.Policy.{Policy, EvictionCandidate, default_policy}
use torrin.Eviction.World.{
  Object, World, Faults, drop_blob_refs, storage_key, referenced, orphaned_blobs,
}
use torrin.Eviction.Engine.Steps.{Engine, evict, run_gc, base_from}
use torrin.Eviction.Engine.Reclaimed.{Reclaimed}
use torrin.Eviction.Engine.Gc.{Settled, run_gc-ends, run_gc-stuck}
use torrin.Eviction.Engine.Evict.{stored, kept_refs, drop_blob_refs_lem, evict-keeps_shared}

abbrev sound : Faults
sound = record {
  list_by_info_hash = λ _. false;
  delete_prefix = λ _. false;
  delete_object = λ _. false;
  drop_blob_refs = λ _. false;
  delete_blob = λ _. false;
}

abbrev read_only : Faults
read_only = record sound { delete_blob = λ _. true }

abbrev policy : Policy
policy = record default_policy { storage_cap_bytes = 100 }

abbrev engine : Engine
engine = record { policy = policy; node = bytes "n1"; now = 200_000; faults = sound }

abbrev old_film : EvictionCandidate
old_film = record {
  id = bytes "j1";
  info_hash = bytes "abc";
  name = bytes "film";
  file_size = 80;
  access_count = 2;
  days_since_access = 9;
  is_prewarm = false;
}

abbrev new_film : EvictionCandidate
new_film = record old_film { id = bytes "j2"; info_hash = bytes "def"; days_since_access = 1 }

abbrev candidates : List EvictionCandidate
candidates = old_film ∷ new_film ∷ []

abbrev object : Text → Object
object k = record { key = storage_key k; size = 40; mod_time = 5 }

abbrev node : World
node = record {
  jobs = [];
  blobs =
      record { content_key = bytes "k1"; size = 40 }
      ∷ record { content_key = bytes "k2"; size = 40 }
      ∷ [];
  refs =
      record { info_hash = bytes "abc"; content_key = bytes "k1" }
      ∷ record { info_hash = bytes "def"; content_key = bytes "k1" }
      ∷ [];
  objects = object (bytes "k1") ∷ object (bytes "k2") ∷ [];
}

k1_shared : referenced (bytes "k1") (kept_refs (bytes "abc") node) ≡ true
unfolding referenced keep any_of same
k1_shared = refl

k1_stored : stored (storage_key (bytes "k1")) node ≡ true
unfolding any_of same
k1_stored = refl

k1_apart : has_prefix (storage_key (bytes "k1")) (bytes "abc" ++ (b'/' ∷ [])) ≡ false
unfolding has_prefix
k1_apart = refl

k1_named : referenced (base_from [] (storage_key (bytes "k1"))) node.refs ≡ true
unfolding referenced base_from any_of same
k1_named = refl

k2_orphaned : orphaned_blobs 500 node ≢ []
unfolding orphaned_blobs referenced keep any_of same
k2_orphaned = λ e. cc

-- A file of the first candidate stands under its directory.
abbrev shelf : World
shelf = record node {
  objects = record { key = bytes "abc/0"; size = 80; mod_time = 5 } ∷ node.objects;
}

run_gc-ends_example :
    (v : World) × (run_gc (length node.blobs + 1) sound node ≡ some v) × Settled sound v
run_gc-ends_example = run_gc-ends sound node (λ k. refl)

run_gc-stuck_example : run_gc 9 read_only node ≡ none
run_gc-stuck_example = run_gc-stuck 9 read_only node (λ k. refl) (λ k. refl) k2_orphaned

evict-keeps_shared_example :
    stored (storage_key (bytes "k1")) (evict engine (bytes "abc") node).0 ≡ true
evict-keeps_shared_example =
    evict-keeps_shared engine (bytes "abc") (bytes "k1") node k1_apart k1_shared k1_stored

-- The one reference to a key is dropped, and the key is not returned.
drop_blob_refs_lem_example :
    ((drop_blob_refs (bytes "abc") node).0.refs ≡ kept_refs (bytes "abc") node)
    × ((drop_blob_refs (bytes "abc") node).1 ≡ [])
drop_blob_refs_lem_example = drop_blob_refs_lem (bytes "abc") node
