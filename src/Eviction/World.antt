-- ===== src/Eviction/World.antt =====
-- What the engine reads and writes: the tables of package shared/jobs (blobs.go, views.go) and the
-- objects of the node's store. `Faults` says which calls fail during a pass; one that fails is taken
-- to change nothing, also where the store might have deleted some objects.
use torrin.Prelude.{
  ℕ, Bool, not, ◌||◌, Option, none, some, List, [], ◌∷◌, ◌++◌, map, if◌then◌else◌, ok, err, take,
}
use torrin.Prelude.Text.{Text, bytes, same, has_prefix, to_lower}
use torrin.Prelude.Select.{keep, any_of}
use torrin.Jobs.Model.{Job}
use torrin.Jobs.Table.{Table, by_id, find_row}
use torrin.Jobs.Queue.{update_job}

pub record Blob : Type 0 where
  pub content_key : Text
  pub size : ℕ

pub record BlobRef : Type 0 where
  pub info_hash : Text
  pub content_key : Text

pub record Object : Type 0 where
  pub key : Text
  pub size : ℕ
  pub mod_time : ℕ

pub record World : Type 0 where
  pub jobs : Table
  pub blobs : List Blob
  pub refs : List BlobRef
  pub objects : List Object

pub record Faults : Type 0 where
  pub list_by_info_hash : Text → Bool
  pub delete_prefix : Text → Bool
  pub delete_object : Text → Bool
  pub drop_blob_refs : Text → Bool
  pub delete_blob : Text → Bool

-- blob.StorageKey
abbrev pub storage_key : Text → Text
storage_key content_key = bytes "blobs/" ++ content_key

unfoldable pub list_by_info_hash : Text → World → List Job
list_by_info_hash h w = keep (λ r. same (to_lower r.info_hash) (to_lower h)) w.jobs

unfoldable pub delete_prefix : Text → World → World
delete_prefix p w = record w { objects = keep (λ o. not (has_prefix o.key p)) w.objects }

unfoldable pub delete_object : Text → World → World
delete_object k w = record w { objects = keep (λ o. not (same o.key k)) w.objects }

-- `DELETE FROM blobs`, whose error the callers ignore.
unfoldable pub delete_blob : Faults → Text → World → World
delete_blob f k w =
    if f.delete_blob k
    then w
    else record w { blobs = keep (λ b. not (same b.content_key k)) w.blobs }

unfoldable pub referenced : Text → List BlobRef → Bool
referenced k refs = any_of (λ r. same r.content_key k) refs

-- SELECT DISTINCT
unfoldable pub distinct : List Text → List Text
distinct [] = []
distinct (k ∷ ks) = let rest = distinct ks in if any_of (same k) rest then rest else k ∷ rest

-- `DropBlobRefs`: the removed keys that no row of blob_refs names, each once. The statement reads
-- one snapshot: its SELECT sees the table as it was before the DELETE of its WITH clause.
unfoldable pub drop_blob_refs : Text → World → World × List Text
drop_blob_refs h w =
    let removed = map (λ r. r.content_key) (keep (λ r. same r.info_hash h) w.refs) in
    (
      record w { refs = keep (λ r. not (same r.info_hash h)) w.refs },
      distinct (keep (λ k. not (referenced k w.refs)) removed),
    )

unfoldable pub orphaned_blobs : ℕ → World → List Blob
orphaned_blobs limit w = take limit (keep (λ b. not (referenced b.content_key w.refs)) w.blobs)

-- `Update`, whose error the engine ignores.
unfoldable pub update_row : ℕ → Job → World → World
update_row now j w = elim (update_job now j w.jobs) [ ok t ↦ record w { jobs = t } | err e ↦ w ]

unfoldable drop_dangling_refs : World → World
drop_dangling_refs w = record w {
  refs = keep (λ r. any_of (λ j. same j.info_hash r.info_hash) w.jobs) w.refs;
}

-- `Delete` of postgres.go: the references go with the last row of the hash.
unfoldable delete_job : Faults → Text → World → World
unfolding drop_blob_refs
delete_job f id w = elim (find_row (by_id id) w.jobs) [
  | none ↦ w
  | some j ↦
      let rest = record w { jobs = keep (λ r. not (by_id id r)) w.jobs } in
      if any_of (λ r. same r.info_hash j.info_hash) rest.jobs || f.drop_blob_refs j.info_hash
      then rest
      else (drop_blob_refs j.info_hash rest).0
]

unfoldable lookup_blob : Text → World → Option Blob
lookup_blob k w = find_row (λ b. same b.content_key k) w.blobs
