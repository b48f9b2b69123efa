-- ===== src/Jobs/Queue/Tests.antt =====
-- Runs of the queue on small tables, and the theorems at them.
use torrin.Prelude.{
  ℕ, ◌+◌, ◌≡◌, ◌≢◌, ◌≤◌, refl, true, false, none, some, List, [], ◌∷◌, ◌&&◌, max, ok, arith,
}
use torrin.Prelude.Int.{pos}
use torrin.Prelude.Text.{Text, bytes, same, before, to_lower, trim_space}
use torrin.Jobs.Model.{Job, torrent, pending, queued, downloading, complete, concurrent, budgeted}
use torrin.Jobs.Table.{
  Table, count_rows, exists_row, find_row, update_rows, is_queued, slot_of, other_holder, queued_of,
  budget_queued, budget_used, is_account, live_match, live_account_job, has_live_user_identity,
  conflicts, insert_job, inflight_count, queued_count,
}
use torrin.Jobs.Queue.Identity.{holder}
use torrin.Jobs.Queue.Decision.{no_faults, admit-queue-le}
use torrin.Jobs.Queue.Progress.{eligible, promote_progress}
use torrin.Jobs.Queue.Reach.{
  Reach, start, next, admits, creates, lent_rows, inflight-le-plan, one_holder, one_live_row,
}
use torrin.Jobs.Queue.Steps.{
  admitted, waiting, existing, prepare_create, normalize_concurrent, admit, create_once, create_end,
  promote_queued, promoted, promote_job, promote_row, precedes, busy_with, ahead_of, lock_admission,
  budget_blocks, must_queue, after_insert, claim, exec,
}

program : Unit {0}
unfolding admit create_once create_end promote_queued promote_job promote_row prepare_create
    normalize_concurrent lock_admission budget_blocks must_queue after_insert claim exec same before
    to_lower trim_space concurrent budgeted count_rows exists_row find_row update_rows slot_of
    other_holder queued_of budget_queued budget_used is_account live_match live_account_job
    has_live_user_identity conflicts insert_job holder eligible busy_with ahead_of precedes
program = tt

abbrev film : Job
film = record {
  id = bytes "j1";
  user_id = bytes "ann";
  info_hash = bytes "abc";
  name = bytes "film";
  magnet = [];
  source = torrent;
  status = pending;
  seed = false;
  budget_gated = true;
  input_key = [];
  error = [];
  files = [];
  selected_idxs = [];
  imdb_id = [];
  season = 0;
  episode = 0;
  file_size = 7;
  max_bytes = 0;
  priority = pos 1;
  progress = 0;
  speed = 0;
  node = [];
  created_at = 5;
  updated_at = 5;
}

abbrev series : Job
series = record film { id = bytes "j2"; info_hash = bytes "def" }

abbrev plan : Text → ℕ
plan _ = 1

abbrev budget : ℕ
budget = 10_000_000_000

abbrev first : Table
first = film ∷ []

abbrev second : Table
second = record series { status = queued } ∷ film ∷ []

film_admitted : admit no_faults none 5 1 10 budget film [] ≡ ok (first, admitted, film)
unfolding program
film_admitted = refl

-- The slot is taken, so the next job waits.
series_waits :
    admit no_faults none 5 1 10 budget series first
    ≡ ok (second, waiting, record series { status = queued })
unfolding program
series_waits = refl

series_in_queue :
    admit no_faults none 5 1 1 budget series first
    ≡ ok (second, waiting, record series { status = queued })
unfolding program
series_in_queue = refl

abbrev film_again : Job
film_again = record film { id = []; info_hash = bytes " ABC" }

-- A replay finds the row that is there, also under another spelling of the hash.
film_again_exists :
    admit no_faults (some (bytes "j9")) 6 1 10 budget film_again second
    ≡ ok (second, existing, film)
unfolding program
film_again_exists = refl

-- The bot creates a row of another user for the film, which holds a slot at once.
abbrev forwarded : Job
forwarded = record film { id = bytes "j3"; user_id = bytes "bob"; status = downloading }

abbrev third : Table
third = forwarded ∷ second

abbrev lent : List Text
lent = bytes "j3" ∷ []

third_reached : Reach plan third lent
unfolding program
third_reached =
    next
      (next
        (next start
          (admits no_faults none 5 1 10 budget film first admitted film (omega arith) refl))
        (admits no_faults none 5 1 10 budget series second waiting
          (record series { status = queued }) (omega arith) refl))
      (creates no_faults none 5 forwarded forwarded third true forwarded refl refl)

inflight-le-plan_example :
    inflight_count (bytes "ann") third
    ≤ normalize_concurrent (plan (bytes "ann")) + lent_rows lent (slot_of (bytes "ann")) third
inflight-le-plan_example = inflight-le-plan plan third lent third_reached (bytes "ann")

one_holder_example :
    count_rows (holder (bytes "ABC")) third ≤ 1 + lent_rows lent (holder (bytes "ABC")) third
one_holder_example = one_holder plan third lent third_reached (bytes "ABC")

one_live_row_example : count_rows (live_match (bytes "ann") (bytes "abc")) third ≤ 1
unfolding program
one_live_row_example =
    one_live_row plan third lent third_reached (bytes "ann") (bytes "abc") refl (λ e. cc)

admit-queue-le_example :
    ((u : Text) → queued_count u [] second ≤ max (queued_count u [] first) 1)
    × ((u : Text) → u ≢ series.user_id → queued_count u [] second ≡ queued_count u [] first)
unfolding program
admit-queue-le_example =
    admit-queue-le no_faults none 5 1 1 budget series first (omega arith) series_in_queue

-- The film is done, and the series still waits.
abbrev done : Table
done = record series { status = queued } ∷ record film { status = complete } ∷ []

promote_progress_example :
    (j : Job) × (j.user_id ≡ bytes "ann")
    × (promote_queued no_faults 9 j.id 1 budget done done
        ≡ ok (
          update_rows (λ r. same r.id j.id && is_queued r) (promoted 9) done,
          some (promoted 9 j),
        ))
unfolding program
promote_progress_example =
    promote_progress 9 1 budget done (record series { status = queued }) (refl, (refl, tt)) refl
      refl (omega arith) (omega arith)
