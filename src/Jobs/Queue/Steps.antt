-- ===== src/Jobs/Queue/Steps.antt =====
-- The statements of a transaction, and the operations of the queue.
use torrin.Prelude.{
  ℕ, ◌+◌, Bool, true, false, not, ◌&&◌, ◌||◌, Option, none, some, if◌then◌else◌, ltb, leb, ◌==◌, [],
  Result, ok, err, fail_if, ◌>>=◌, ◌>>◌,
}
use torrin.Prelude.Int.{ℤ, ltb_ℤ, eqb_ℤ}
use torrin.Prelude.Text.{Text, same, before, to_lower, trim_space}
use torrin.Jobs.Model.{Status, Job, pending, queued, complete, failed, evicted, is_status}
use torrin.Jobs.Table.{
  Table, exists_row, find_row, update_rows, is_queued, holds_slot, live_account_job,
  has_live_user_identity, queued_count, inflight_count, active_hash, budget_queue_exists,
  budget_used, by_id, insert_job,
}

pub data Stmt : Type 0 where
  begin get lock_global lock_user lock_hash select_job select_live count_queued count_inflight
        select_active select_budget_queue sum_budget select_older insert update commit :
      Stmt

pub data Error : Type 0 where
  queue_full not_found no_id : Error
  db : Stmt → Error

pub data Admission : Type 0 where
  admitted waiting existing : Admission

abbrev pub Faults : Type 0
Faults = Stmt → Bool

-- The answer of a statement, if it does not fail.
unfoldable pub exec {ℓ} : {A : Type ℓ} → Faults → Stmt → A → Result Error A
exec faults s a = if faults s then err (db s) else ok a

abbrev pub initial_budget_headroom : ℕ
initial_budget_headroom = 1_000_000_000

abbrev pub promote_budget_headroom : ℕ
promote_budget_headroom = 5_000_000_000

unfoldable pub normalize_concurrent : ℕ → ℕ
normalize_concurrent n = if ltb n 1 then 1 else n

-- `fresh` is what uuid.NewV7 returns, `none` for its error.
unfoldable pub prepare_create : Option Text → ℕ → Job → Result Error Job
prepare_create fresh now j =
    let j' = record j {
      info_hash = to_lower (trim_space j.info_hash);
      created_at = now;
      updated_at = now;
    } in
    if same j.id []
    then elim fresh [ none ↦ err no_id | some u ↦ ok (record j' { id = u }) ]
    else ok j'

unfoldable pub lock_admission : Faults → Bool → Result Error (Unit {0})
unfolding exec
lock_admission faults global = do
  if global then exec faults lock_global tt else ok tt
  exec faults lock_user tt

-- The test for a free budget in a transaction, of `Admit` and of `Readmit`.
unfoldable pub budget_blocks : Faults → Bool → Text → ℕ → Table → Result Error Bool
unfolding exec
budget_blocks faults false exclude budget t = ok false
budget_blocks faults true exclude budget t = do
  others ← exec faults select_budget_queue (budget_queue_exists exclude t)
  used ← exec faults sum_budget (budget_used t)
  ok (others || ltb budget (used + initial_budget_headroom))

-- Whether a new claim on a slot has to wait, with the number of the user's queued jobs.
-- `exclude` is left out of the queue's count, `self` of the search for the same hash.
unfoldable pub must_queue : Faults → Job → Text → ℕ → ℕ → Table → Result Error (Bool × ℕ)
unfolding exec budget_blocks
must_queue faults j exclude max_concurrent budget t = do
  waiting_jobs ← exec faults count_queued (queued_count j.user_id exclude t)
  inflight ← exec faults count_inflight (inflight_count j.user_id t)
  same_hash ← exec faults select_active (active_hash j.info_hash j.id t)
  blocked ← budget_blocks faults j.budget_gated exclude budget t
  ok (
    ltb 0 waiting_jobs
        || leb (normalize_concurrent max_concurrent) inflight
        || same_hash
        || blocked,
    waiting_jobs,
  )

abbrev pub slot_status : Bool → Status
slot_status wait = if wait then queued else pending

abbrev pub slot_admission : Status → Admission
slot_admission s = if is_status s queued then waiting else admitted

-- What `Admit` returns after the insert of `j`.
unfoldable pub after_insert :
    Faults → Job → Option (Table × Bool) → Result Error (Table × Admission × Job)
unfolding exec
after_insert faults j none = err (db insert)
after_insert faults j (some (t, true)) = do
  exec faults commit tt
  ok (t, slot_admission j.status, j)
after_insert faults j (some (t, false)) = do
  found ← exec faults select_live (live_account_job j t)
  elim found [ none ↦ err not_found | some r ↦ ok (t, existing, r) ]

-- The part of `Admit` that decides a new claim.
unfoldable pub claim : Faults → ℕ → ℕ → ℕ → Job → Table → Result Error (Table × Admission × Job)
unfolding exec must_queue insert_job after_insert
claim faults max_concurrent max_queued budget j t = do
  (wait, n) ← must_queue faults j [] max_concurrent budget t
  fail_if (wait && ltb 0 max_queued && leb max_queued n) queue_full
  let j' = record j { status = slot_status wait }
  created ← exec faults insert (insert_job j' t)
  after_insert faults j' created

unfoldable pub admit :
    Faults → Option Text → ℕ → ℕ → ℕ → ℕ → Job → Table → Result Error (Table × Admission × Job)
unfolding exec prepare_create lock_admission claim
admit faults fresh now max_concurrent max_queued budget job t = do
  j ← prepare_create fresh now job
  exec faults begin tt
  lock_admission faults j.budget_gated
  exec faults lock_hash tt
  live ← exec faults select_live (live_account_job j t)
  elim live [
    | some r ↦ ok (t, existing, r)
    | none ↦ claim faults max_concurrent max_queued budget j t
  ]

-- scanOne of a SELECT by id
unfoldable pub select_id : Text → Table → Result Error Job
select_id id t = elim (find_row (by_id id) t) [ none ↦ err not_found | some r ↦ ok r ]

abbrev pub may_readmit : Status → Bool
may_readmit s = is_status s failed || is_status s evicted || is_status s complete

-- The row as `Readmit` writes it back.
abbrev pub readmitted : Bool → ℕ → Job → Job
readmitted wait now j = record j {
  status = slot_status wait;
  error = [];
  node = [];
  progress = 0;
  speed = 0;
  created_at = now;
  updated_at = now;
}

-- `Readmit` from its capacity test on.
unfoldable pub reclaim :
    Faults → ℕ → ℕ → ℕ → ℕ → Job → Table → Result Error (Table × Admission × Job)
unfolding exec must_queue
reclaim faults now max_concurrent max_queued budget j t = do
  (wait, n) ← must_queue faults j j.id max_concurrent budget t
  fail_if (wait && ltb 0 max_queued && leb max_queued n) queue_full
  t' ← exec faults update (update_rows (by_id j.id) (readmitted wait now) t)
  exec faults commit tt
  ok (t', slot_admission (slot_status wait), readmitted wait now j)

unfoldable pub readmit :
    Faults → ℕ → Text → ℕ → ℕ → ℕ → Table → Table → Result Error (Table × Admission × Job)
unfolding exec select_id lock_admission reclaim
readmit faults now id max_concurrent max_queued budget seen t = do
  exec faults get tt
  current ← select_id id seen
  exec faults begin tt
  lock_admission faults current.budget_gated
  exec faults lock_hash tt
  exec faults select_job tt
  j ← select_id id t
  if may_readmit j.status
      then (do
        live ← exec faults select_live (live_account_job j t)
        elim live [
          | none ↦ reclaim faults now max_concurrent max_queued budget j t
          | some r ↦
              if same r.id j.id
              then reclaim faults now max_concurrent max_queued budget j t
              else ok (t, existing, r)
        ])
      else ok (t, existing, j)

-- A queued row that is served before `j`: a higher priority, or as high and older.
unfoldable pub precedes : Job → Job → Bool
precedes q j =
    ltb_ℤ j.priority q.priority
    || (eqb_ℤ q.priority j.priority
        && (ltb q.created_at j.created_at || (q.created_at == j.created_at && before q.id j.id)))

-- `a` is another row than `q`, and holds a slot for its hash.
unfoldable pub busy_with : Job → Job → Bool
busy_with q a = not (same a.id q.id) && same a.info_hash q.info_hash && holds_slot a

abbrev pub hash_busy : Table → Job → Bool
hash_busy t q = exists_row (busy_with q) t

-- The rows of the user that `j` may not overtake.
unfoldable pub ahead_of : Table → Job → Job → Bool
ahead_of t j q =
    same q.user_id j.user_id
    && is_queued q
    && not (same q.id j.id)
    && precedes q j
    && not (hash_busy t q)

abbrev pub promoted : ℕ → Job → Job
promoted now j = record j { status = pending; node = []; updated_at = now }

-- The end of `PromoteQueued`: the budget, and the write.
unfoldable pub promote_row : Faults → ℕ → ℕ → Job → Table → Result Error (Table × Option Job)
unfolding exec
promote_row faults now budget j t = do
  used ← if j.budget_gated then exec faults sum_budget (budget_used t) else ok 0
  if j.budget_gated && ltb budget (used + promote_budget_headroom) then ok (t, none) else (do
    t' ← exec faults update (update_rows (λ r. same r.id j.id && is_queued r) (promoted now) t)
    exec faults commit tt
    ok (t', some (promoted now j)))

-- `PromoteQueued` from the row read under the locks on. The guards return nil.
unfoldable pub promote_job : Faults → ℕ → ℕ → ℕ → Job → Table → Result Error (Table × Option Job)
unfolding exec promote_row
promote_job faults now max_concurrent budget j t = do
  inflight ← exec faults count_inflight (inflight_count j.user_id t)
  if leb (normalize_concurrent max_concurrent) inflight then ok (t, none) else (do
    older ← exec faults select_older (exists_row (ahead_of t j) t)
    busy ← if older then ok true else exec faults select_active (hash_busy t j)
    if busy then ok (t, none) else promote_row faults now budget j t)

unfoldable pub promote_queued :
    Faults → ℕ → Text → ℕ → ℕ → Table → Table → Result Error (Table × Option Job)
unfolding exec lock_admission
promote_queued faults now id max_concurrent budget seen t = do
  first ← exec faults get (find_row (by_id id) seen)
  elim first [
    | none ↦ ok (t, none)
    | some current ↦
        if is_queued current
        then (do
          exec faults begin tt
          lock_admission faults current.budget_gated
          exec faults lock_hash tt
          second ← exec faults select_job (find_row (by_id id) t)
          elim second [
            | none ↦ ok (t, none)
            | some j ↦
                if is_queued j
                then promote_job faults now max_concurrent budget j t
                else ok (t, none)
          ])
        else ok (t, none)
  ]

-- What `CreateOnce` returns after the insert of `j`.
unfoldable pub create_end : Faults → Job → Option (Table × Bool) → Result Error (Table × Bool × Job)
unfolding exec
create_end faults j none = err (db insert)
create_end faults j (some (t, created)) =
    if created || not (has_live_user_identity j)
    then (do if has_live_user_identity j then exec faults commit tt else ok tt; ok (t, created, j))
    else (do
      found ← exec faults select_live (live_account_job j t)
      elim found [ none ↦ err not_found | some r ↦ (do exec faults commit tt; ok (t, false, r)) ])

abbrev pub overwrite : ℕ → Job → Job → Job
overwrite now j r = record j {
  updated_at = now;
  created_at = r.created_at;
  progress = r.progress;
  speed = r.speed;
}

-- `CreateOnce`; `true` if the row was created.
unfoldable pub create_once :
    Faults → Option Text → ℕ → Job → Table → Result Error (Table × Bool × Job)
unfolding exec prepare_create lock_admission insert_job create_end
create_once faults fresh now job t = do
  j ← prepare_create fresh now job
  if has_live_user_identity j then exec faults begin tt else ok tt
  if has_live_user_identity j then lock_admission faults false else ok tt
  created ← exec faults insert (insert_job j t)
  create_end faults j created

-- Update of postgres.go: the row with the job's id is written over, less its instant of creation,
-- its progress and its speed.
unfoldable pub update_job : ℕ → Job → Table → Result Error Table
update_job now j t =
    if exists_row (by_id j.id) t
    then ok (update_rows (by_id j.id) (overwrite now j) t)
    else err not_found

-- queue_state.go: only queued rows are written.
unfoldable pub set_queued_priority : ℕ → Text → ℤ → Table → Table
set_queued_priority now id priority =
    update_rows (λ r. same r.id id && is_queued r && not (eqb_ℤ r.priority priority))
      (λ r. record r { priority = priority; updated_at = now })

unfoldable pub fail_queued : ℕ → Text → Text → Table → Table
fail_queued now id reason =
    update_rows (λ r. same r.id id && is_queued r)
      (λ r. record r { status = failed; error = reason; updated_at = now })
