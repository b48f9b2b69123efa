-- ===== src/Jobs/Model.antt =====
-- shared/jobs/model.go: a job and its statuses. Instants are counted from the epoch, sizes are in
-- bytes; the media information of a file and the signed stream links are left out.
use torrin.Prelude.{
  ℕ, ◌≡◌, Bool, true, false, not, ◌&&◌, ◌||◌, List, [], ◌∷◌, map, ◌==◌, if◌then◌else◌, arith,
}
use torrin.Prelude.Int.{ℤ}
use torrin.Prelude.Text.{Text}

pub data Status : Type 0 where
  pending queued downloading processing publishing seeding complete failed evicted : Status

-- The place in the declaration, which tells two statuses apart.
abbrev ordinal : Status → ℕ
ordinal pending = 0
ordinal queued = 1
ordinal downloading = 2
ordinal processing = 3
ordinal publishing = 4
ordinal seeding = 5
ordinal complete = 6
ordinal failed = 7
ordinal evicted = 8

abbrev pub is_status : Status → Status → Bool
is_status s t = ordinal s == ordinal t

abbrev in_list : Status → List Status → Bool
in_list s [] = false
in_list s (a ∷ rest) = is_status s a || in_list s rest

abbrev pub active_statuses : List Status
active_statuses = pending ∷ queued ∷ downloading ∷ processing ∷ publishing ∷ seeding ∷ []

abbrev pub concurrency_statuses : List Status
concurrency_statuses = pending ∷ downloading ∷ processing ∷ publishing ∷ []

abbrev pub budget_statuses : List Status
budget_statuses = pending ∷ downloading ∷ processing ∷ publishing ∷ seeding ∷ []

unfoldable pub active : Status → Bool
active s = in_list s active_statuses

-- `status IN` concurrencyStates
unfoldable pub concurrent : Status → Bool
concurrent s = in_list s concurrency_statuses

-- `status IN` budgetStates
unfoldable pub budgeted : Status → Bool
budgeted s = in_list s budget_statuses

pub data Source : Type 0 where
  torrent usenet hoster hdencode scenerls telegram cross_seed ytdlp : Source

pub record File : Type 0 where
  pub index : ℕ
  pub name : Text
  pub size : ℕ
  pub key : Text
  pub enc : Bool

pub record Job : Type 0 where
  pub id : Text
  pub user_id : Text
  pub info_hash : Text
  pub name : Text
  pub magnet : Text
  pub source : Source
  pub status : Status
  pub seed : Bool
  pub budget_gated : Bool
  pub input_key : Text
  pub error : Text
  pub files : List File
  pub selected_idxs : List ℕ
  pub imdb_id : Text
  pub season : ℕ
  pub episode : ℕ
  pub file_size : ℕ
  pub max_bytes : ℕ
  pub priority : ℤ
  pub progress : ℕ
  pub speed : ℕ
  pub node : Text
  pub created_at : ℕ
  pub updated_at : ℕ

consumes_status : Status → Bool
consumes_status pending = true
consumes_status downloading = true
consumes_status processing = true
consumes_status publishing = true
consumes_status _ = false

unfoldable pub consumes_download_slot : Job → Bool
unfolding consumes_status
consumes_download_slot j = if j.seed then false else consumes_status j.status

unfoldable pub file_sizes : Job → List ℕ
file_sizes j = map (λ f. f.size) j.files

-- The switch of the method and the list behind the SQL agree: the rows that the queue counts are
-- the jobs that consume a slot.
pub consumes-concurrent : (j : Job) → consumes_download_slot j ≡ (not j.seed && concurrent j.status)
unfolding consumes_download_slot concurrent
consumes-concurrent j = ground arith

pub concurrent-active : (s : Status) → concurrent s ≡ true → active s ≡ true
unfolding concurrent active
concurrent-active s h = ground arith
