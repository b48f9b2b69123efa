-- ===== src/Jobs/Table.antt =====
-- The jobs table and the statements of package shared/jobs over it: the rows in no particular
-- order, a WHERE clause as a test of a row. A statement that fails ends the transaction with
-- an error, and the caller keeps the table as it was.
use torrin.Prelude.{
  ℕ, suc, ◌+◌, Bool, true, false, not, ◌&&◌, ◌||◌, Option, none, some, List, [], ◌∷◌, map,
  if◌then◌else◌, ltb,
}
use torrin.Prelude.Text.{Text, bytes, same, to_lower}
use torrin.Jobs.Model.{Status, Job, queued, failed, evicted, is_status, concurrent, budgeted}

abbrev pub Table : Type 0
Table = List Job

module _ {ℓ} {A : Type ℓ} where
  -- SELECT COUNT(*)
  unfoldable pub count_rows : (A → Bool) → List A → ℕ
  count_rows p [] = 0
  count_rows p (r ∷ t) = if p r then suc (count_rows p t) else count_rows p t

  -- SELECT EXISTS
  unfoldable pub exists_row : (A → Bool) → List A → Bool
  exists_row p [] = false
  exists_row p (r ∷ t) = p r || exists_row p t

  -- SELECT with LIMIT 1
  unfoldable pub find_row : (A → Bool) → List A → Option A
  find_row p [] = none
  find_row p (r ∷ t) = let rest = find_row p t in if p r then some r else rest

  -- UPDATE
  unfoldable pub update_rows : (A → Bool) → (A → A) → List A → List A
  update_rows p f = map (λ r. if p r then f r else r)

abbrev pub is_queued : Job → Bool
is_queued r = is_status r.status queued

-- seed=false AND status IN concurrencyStates
abbrev pub holds_slot : Job → Bool
holds_slot r = not r.seed && concurrent r.status

-- The users whose rows are not held to one live row for each hash.
unfoldable pub is_account : Text → Bool
is_account u = not (same u []) && not (same u (bytes "system")) && not (same u (bytes "prewarm"))

abbrev pub is_live : Status → Bool
is_live s = not (is_status s failed) && not (is_status s evicted)

unfoldable pub live_match : Text → Text → Job → Bool
live_match user hash r =
    same r.user_id user
    && same (to_lower r.info_hash) (to_lower hash)
    && not r.seed
    && is_live r.status

unfoldable pub live_account_job : Job → Table → Option Job
unfolding live_match
live_account_job j t =
    if j.seed || not (is_account j.user_id) || same j.info_hash []
    then none
    else find_row (live_match j.user_id j.info_hash) t

unfoldable pub has_live_user_identity : Job → Bool
has_live_user_identity j =
    is_account j.user_id && not (same j.info_hash []) && not j.seed && is_live j.status

unfoldable pub queued_of : Text → Text → Job → Bool
queued_of user exclude r = same r.user_id user && is_queued r && not (same r.id exclude)

abbrev pub queued_count : Text → Text → Table → ℕ
queued_count user exclude = count_rows (queued_of user exclude)

unfoldable pub slot_of : Text → Job → Bool
slot_of user r = same r.user_id user && holds_slot r

abbrev pub inflight_count : Text → Table → ℕ
inflight_count user = count_rows (slot_of user)

unfoldable pub other_holder : Text → Text → Job → Bool
other_holder hash exclude r =
    same (to_lower r.info_hash) (to_lower hash) && not (same r.id exclude) && holds_slot r

abbrev pub active_hash : Text → Text → Table → Bool
active_hash hash exclude = exists_row (other_holder hash exclude)

unfoldable pub budget_queued : Text → Job → Bool
budget_queued exclude r = is_queued r && r.budget_gated && not (same r.id exclude)

abbrev pub budget_queue_exists : Text → Table → Bool
budget_queue_exists exclude = exists_row (budget_queued exclude)

unfoldable pub budget_used : Table → ℕ
budget_used [] = 0
budget_used (r ∷ t) =
    (if budgeted r.status then if ltb 0 r.file_size then r.file_size else 5_000_000_000 else 0)
    + budget_used t

-- The row that blocks an insert by the unique index on (user_id, lower(info_hash)).
unfoldable pub conflicts : Job → Job → Bool
conflicts j r =
    has_live_user_identity j
    && has_live_user_identity r
    && same r.user_id j.user_id
    && same (to_lower r.info_hash) (to_lower j.info_hash)

abbrev pub by_id : Text → Job → Bool
by_id id r = same r.id id

-- INSERT … ON CONFLICT DO NOTHING: the table, and whether the row was created; `none` where the
-- primary key is taken, which the clause does not cover.
unfoldable pub insert_job : Job → Table → Option (Table × Bool)
unfolding conflicts
insert_job j t =
    if exists_row (conflicts j) t
    then some (t, false)
    else if exists_row (by_id j.id) t
    then none
    else some (j ∷ t, true)
