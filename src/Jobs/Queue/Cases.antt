-- ===== src/Jobs/Queue/Cases.antt =====
-- Each operation of the queue, where it succeeds, is a change of the table.
use torrin.Prelude.{
  ℕ, ◌+◌, ◌≤◌, ◌≡◌, ◌⊎◌, inl, inr, refl, Bool, true, false, ◌&&◌, ◌||◌, Option, none, some, List,
  [], ◌∷◌, if◌then◌else◌, ltb, leb, Bool-cases, Option-cases, Result-cases, ok, arith,
}
use torrin.Prelude.Text.{Text, same, same_iff, same_self, to_lower, trim_space, to_lower_idem}
use torrin.Jobs.Model.{Job, queued, concurrent}
use torrin.Jobs.Table.{
  Table, by_id, exists_row, find_row, update_rows, is_live, live_match, live_account_job, conflicts,
  inflight_count, active_hash, queued_count, insert_job, budget_used, budget_queue_exists,
}
use torrin.Jobs.Rows.{DistinctIds, find_own, update-replace, find-pass, find_unique}
use torrin.Jobs.Queue.Change.{SlotFree, Change, keep, insert, write}
use torrin.Jobs.Queue.Identity.{IsNormal}
use torrin.Jobs.Queue.Steps.{
  Faults, Admission, admitted, waiting, existing, exec, normalize_concurrent, prepare_create,
  lock_admission, initial_budget_headroom, must_queue, slot_status, after_insert, claim, admit,
  reclaim, readmitted, readmit, may_readmit, select_id,
}

-- Whether the budget leaves no room for a gated job.
abbrev pub budget_full : Job → Text → ℕ → Table → Bool
budget_full j exclude budget t =
    j.budget_gated
    && (budget_queue_exists exclude t || ltb budget (budget_used t + initial_budget_headroom))

-- The test of `must_queue`, its statements apart.
abbrev pub has_to_wait : Job → Text → ℕ → ℕ → Table → Bool
has_to_wait j exclude max_concurrent budget t =
    ltb 0 (queued_count j.user_id exclude t)
    || leb (normalize_concurrent max_concurrent) (inflight_count j.user_id t)
    || active_hash j.info_hash j.id t
    || budget_full j exclude budget t

module _ (faults : Faults) (max_concurrent budget : ℕ) (t : Table) where
  pub must_queue-eq :
      (j : Job) (exclude : Text) {w : Bool} {n : ℕ}
      → must_queue faults j exclude max_concurrent budget t ≡ ok (w, n)
      → (w ≡ has_to_wait j exclude max_concurrent budget t) × (n ≡ queued_count j.user_id exclude t)
  unfolding must_queue
  must_queue-eq j exclude h = ground arith

  -- A claim that does not wait has a free slot.
  pub free_of_wait :
      (limit : Text → ℕ) (j : Job) (exclude : Text)
      → normalize_concurrent max_concurrent ≤ limit j.user_id
      → has_to_wait j exclude max_concurrent budget t ≡ false
      → SlotFree limit j t
  free_of_wait limit j exclude l h = ground arith

queued_holds_none : concurrent queued ≡ false
unfolding concurrent
queued_holds_none = refl

pub prepare_create_lem :
    (fresh : Option Text) (now : ℕ) (job : Job) {j : Job}
    → prepare_create fresh now job ≡ ok j
    → (j.info_hash ≡ to_lower (trim_space job.info_hash))
      × (j.user_id ≡ job.user_id)
      × (j.status ≡ job.status)
      × (j.seed ≡ job.seed)
unfolding prepare_create
prepare_create_lem fresh now job h = ground arith

module _ (faults : Faults) (max_concurrent max_queued budget : ℕ) where
  -- A successful claim: a live row was there, or the job is new, and it waits exactly if it has to.
  pub claim-cases :
      (j : Job) (t : Table) {t' : Table} {a : Admission} {r : Job}
      → claim faults max_concurrent max_queued budget j t ≡ ok (t', a, r)
      → let w = has_to_wait j [] max_concurrent budget t in
        ((t' ≡ t) × (a ≡ existing))
        ⊎ ((r ≡ record j { status = slot_status w })
            × (t' ≡ r ∷ t)
            × (exists_row (conflicts r) t ≡ false)
            × (exists_row (by_id r.id) t ≡ false)
            × (a ≡ (if w then waiting else admitted))
            × ((w && ltb 0 max_queued && leb max_queued (queued_count j.user_id [] t)) ≡ false))
  unfolding claim must_queue insert_job after_insert
  claim-cases j t h = ground arith

  -- A successful re-admission writes the row over; it waits exactly if it has to.
  pub reclaim-eq :
      (now : ℕ) (j : Job) (t : Table) {t' : Table} {a : Admission} {r : Job}
      → reclaim faults now max_concurrent max_queued budget j t ≡ ok (t', a, r)
      → t'
        ≡ update_rows (by_id j.id) (readmitted (has_to_wait j j.id max_concurrent budget t) now) t
  unfolding reclaim must_queue
  reclaim-eq now j t h = ground arith

  module _ (limit : Text → ℕ) (out : List Text) where
    claim-Change :
        (j : Job) (t : Table) {t' : Table} {a : Admission} {r : Job}
        → normalize_concurrent max_concurrent ≤ limit j.user_id
        → IsNormal j
        → claim faults max_concurrent max_queued budget j t ≡ ok (t', a, r)
        → Change limit out t t'
    unfolding concurrent
    claim-Change j t {t'} {a} {r} l n h = elim (claim-cases j t h) [
      | inl (e, _) ↦ rw e keep
      | inr (er, et, unique, new_id, _, _) ↦ rw et (
          insert r (record {
            new_id = new_id;
            unique = unique;
            normal = rw er n;
            slot = λ held. inl (
                let free : SlotFree limit j t =
                  free_of_wait faults max_concurrent budget t limit j [] l (ground arith) in
                rw er (record { room = free.room; alone = free.alone }));
          }))
    ]

    pub admit-cases :
        (fresh : Option Text) (now : ℕ) (job j : Job) (t : Table) {t' : Table} {a : Admission}
        {r : Job}
        → prepare_create fresh now job ≡ ok j
        → admit faults fresh now max_concurrent max_queued budget job t ≡ ok (t', a, r)
        → ((t' ≡ t) × (a ≡ existing) × (live_account_job j t ≡ some r))
          ⊎ ((live_account_job j t ≡ none)
              × (claim faults max_concurrent max_queued budget j t ≡ ok (t', a, r)))
    unfolding admit exec lock_admission
    admit-cases fresh now job j t p h = ground arith

    -- A successful `Admit` changes the table by at most one row, which is new.
    pub admit-Change :
        (fresh : Option Text) (now : ℕ) (job : Job) (t : Table) {t' : Table} {a : Admission}
        {r : Job}
        → normalize_concurrent max_concurrent ≤ limit job.user_id
        → admit faults fresh now max_concurrent max_queued budget job t ≡ ok (t', a, r)
        → Change limit out t t'
    unfolding admit
    admit-Change fresh now job t l h = elim (Result-cases (prepare_create fresh now job)) [
      | inr (e, p) ↦ absurd (ground arith)
      | inl (j, p) ↦
          let (hash, user, _, _) = prepare_create_lem fresh now job p in
          elim (admit-cases fresh now job j t p h) [
            | inl (e, _, _) ↦ rw e keep
            | inr (_, c) ↦
                claim-Change j t (rw user l) (rw hash (to_lower_idem (trim_space job.info_hash))) c
          ]
    ]

    reclaim-Change :
        (now : ℕ) (j : Job) (t : Table) {t' : Table} {a : Admission} {r : Job}
        → normalize_concurrent max_concurrent ≤ limit j.user_id
        → DistinctIds t
        → find_row (by_id j.id) t ≡ some j
        → (is_live j.status ≡ true) ⊎ (live_account_job j t ≡ none)
        → reclaim faults now max_concurrent max_queued budget j t ≡ ok (t', a, r)
        → Change limit out t t'
    unfolding concurrent
    reclaim-Change now j t l d found live h =
        let w = has_to_wait j j.id max_concurrent budget t in
        rw
          (
            reclaim-eq now j t h,
            update-replace (by_id j.id) (readmitted w now) j t d found (λ r k. k) (same_self j.id),
          )
          (write j (readmitted w now j) (record {
            found = found;
            id = refl;
            user = refl;
            hash = refl;
            seed = refl;
            slot = λ held.
                inr
                  (inl (free_of_wait faults max_concurrent budget t limit j j.id l (ground arith)));
            live = λ _. live;
          }))

    readmit-cases :
        (now : ℕ) (id : Text) (seen t : Table) {t' : Table} {a : Admission} {r : Job}
        → readmit faults now id max_concurrent max_queued budget seen t ≡ ok (t', a, r)
        → (t' ≡ t)
          ⊎ ((j : Job) × (find_row (by_id id) t ≡ some j)
              × (may_readmit j.status ≡ true)
              × (reclaim faults now max_concurrent max_queued budget j t ≡ ok (t', a, r))
              × ((live_account_job j t ≡ none)
                  ⊎ ((o : Job) × (live_account_job j t ≡ some o) × (o.id ≡ j.id))))
    unfolding readmit exec lock_admission select_id
    readmit-cases now id seen t h = elim (Option-cases (find_row (by_id id) t)) [
      | inl gone ↦ inl (ground arith)
      | inr (j, found) ↦ elim (Option-cases (live_account_job j t)) [
        | inl l ↦ elim (Bool-cases (may_readmit j.status)) [
          | inl may ↦ inr (j, found, may, ground arith, inl l)
          | inr not_now ↦ inl (ground arith)
        ]
        | inr (o, l) ↦ elim (Bool-cases (may_readmit j.status && same o.id j.id)) [
          | inl may ↦
              inr (
                j,
                found,
                ground arith,
                ground arith,
                inr (o, l, ground (arith, same_iff o.id j.id)),
              )
          | inr other ↦ inl (ground arith)
        ]
      ]
    ]

    -- A successful `Readmit` writes at most the row with the id.
    pub readmit-Change :
        (now : ℕ) (id : Text) (seen t : Table) {t' : Table} {a : Admission} {r : Job}
        → DistinctIds t
        → ((j : Job)
            → find_row (by_id id) t ≡ some j
            → normalize_concurrent max_concurrent ≤ limit j.user_id)
        → readmit faults now id max_concurrent max_queued budget seen t ≡ ok (t', a, r)
        → Change limit out t t'
    unfolding live_account_job live_match
    readmit-Change now id seen t d l h = elim (readmit-cases now id seen t h) [
      | inl e ↦ rw e keep
      | inr (j, found, may, c, live) ↦
          let own : find_row (by_id j.id) t ≡ some j = find_own id t found in
          elim live [
            | inl none_live ↦ reclaim-Change now j t (l j found) d own (inr none_live) c
            | inr (o, l', same_id) ↦
                let p = live_match j.user_id j.info_hash in
                let chosen : find_row p t ≡ some o = ground arith in
                let e : o ≡ j = find_unique p t d chosen own same_id in
                let passes : p o ≡ true = find-pass p t chosen in
                let is : is_live j.status ≡ true = rw (← e) (ground arith) in
                reclaim-Change now j t (l j found) d own (inl is) c
          ]
    ]
