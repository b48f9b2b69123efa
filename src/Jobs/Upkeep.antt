-- ===== src/Jobs/Upkeep.antt =====
-- Writes of shared/jobs/postgres.go by id, and the counts that its callers read.
use torrin.Prelude.{ℕ, [], Result, ok, err, if◌then◌else◌}
use torrin.Prelude.Text.{Text}
use torrin.Jobs.Model.{pending}
use torrin.Jobs.Table.{Table, count_rows, exists_row, update_rows, by_id, slot_of}

data Missing : Type 0 where
  not_found : Missing

unfoldable requeue : ℕ → Text → Table → Result Missing Table
requeue now id t =
    if exists_row (by_id id) t
    then ok (
        update_rows (by_id id)
          (λ r. record r { status = pending; error = []; created_at = now; updated_at = now }) t)
    else err not_found

-- The percentage is rounded down.
unfoldable set_progress : Text → ℕ → ℕ → Table → Table
set_progress id percent speed =
    update_rows (by_id id) (λ r. record r { progress = percent; speed = speed })

unfoldable active_count : Text → Table → ℕ
unfolding slot_of
active_count user = count_rows (slot_of user)

-- downloadingStates are the states of concurrencyStates.
unfoldable downloading_count : Text → Table → ℕ
unfolding slot_of
downloading_count user = count_rows (slot_of user)
