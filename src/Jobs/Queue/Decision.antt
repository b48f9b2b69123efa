-- ===== src/Jobs/Queue/Decision.antt =====
-- How long `Admit` lets a queue grow.
use torrin.Prelude.{
  ℕ, ◌≤◌, ◌<◌, ◌≡◌, ◌≢◌, ◌∙◌, inl, inr, refl, Bool, true, false, ◌&&◌, Option, [], ◌∷◌, ltb, leb,
  max, Bool-cases, Result-cases, ok, arith,
}
use torrin.Prelude.Text.{Text, same_iff}
use torrin.Jobs.Model.{Job}
use torrin.Jobs.Table.{Table, queued_of, queued_count}
use torrin.Jobs.Rows.{count-cons}
use torrin.Jobs.Queue.Cases.{has_to_wait, prepare_create_lem, admit-cases, claim-cases}
use torrin.Jobs.Queue.Steps.{Faults, Admission, prepare_create, slot_status, admit}

abbrev pub no_faults : Faults
no_faults _ = false

-- The job as `Admit` inserts it.
abbrev pub placed : Bool → Job → Job
placed wait j = record j { status = slot_status wait }

placed_queue :
    (wait : Bool) (j : Job) (u : Text)
    → queued_of u [] (placed wait j) ≡ true
    → (wait ≡ true) × (u ≡ j.user_id)
unfolding queued_of
placed_queue wait j u h = ground (arith, same_iff j.user_id u)

-- Where the length of queues is limited: whatever it answers without an error, `Admit` makes no queue
-- longer than the limit, unless it is so already, and leaves the queues of all other users as they
-- are.
pub admit-queue-le :
    (faults : Faults) (fresh : Option Text) (now max_concurrent max_queued budget : ℕ) (job : Job)
    (t : Table) {t' : Table} {a : Admission} {r : Job}
    → 0 < max_queued
    → admit faults fresh now max_concurrent max_queued budget job t ≡ ok (t', a, r)
    → ((u : Text) → queued_count u [] t' ≤ max (queued_count u [] t) max_queued)
      × ((u : Text) → u ≢ job.user_id → queued_count u [] t' ≡ queued_count u [] t)
unfolding admit
admit-queue-le faults fresh now max_concurrent max_queued budget job t {t'} {a} {r} pos h =
    elim (Result-cases (prepare_create fresh now job)) [
      | inr (e, p) ↦ absurd (ground arith)
      | inl (j, p) ↦
          elim (admit-cases faults max_concurrent max_queued budget (λ _. 0) [] fresh now job j t p
            h) [
              | inl (e, _, _) ↦ rw e (λ u. omega arith, λ u d. refl)
              | inr (_, c) ↦ elim (claim-cases faults max_concurrent max_queued budget j t c) [
                | inl (e, _) ↦ rw e (λ u. omega arith, λ u d. refl)
                | inr (er, et, _, _, _, room) ↦
                    let w = has_to_wait j [] max_concurrent budget t in
                    let owner = (prepare_create_lem fresh now job p).1 in
                    rw (et, er) (λ u. grown u w j room, λ u d. kept u w j owner d)
              ]
            ]
    ]
  where
    grown :
        (u : Text) (w : Bool) (j : Job)
        → (w && ltb 0 max_queued && leb max_queued (queued_count j.user_id [] t)) ≡ false
        → queued_count u [] (placed w j ∷ t) ≤ max (queued_count u [] t) max_queued
    grown u w j room = elim (Bool-cases (queued_of u [] (placed w j))) [
      | inr other ↦ ground (arith, count-cons (queued_of u []) (placed w j) t)
      | inl one ↦
          let (waits, e) = placed_queue w j u one in
          let short : queued_count u [] t < max_queued = rw e (ground arith) in
          ground (arith, count-cons (queued_of u []) (placed w j) t)
    ]

    kept :
        (u : Text) (w : Bool) (j : Job)
        → j.user_id ≡ job.user_id
        → u ≢ job.user_id
        → queued_count u [] (placed w j ∷ t) ≡ queued_count u [] t
    kept u w j owner other = elim (Bool-cases (queued_of u [] (placed w j))) [
      | inr off ↦ ground (arith, count-cons (queued_of u []) (placed w j) t)
      | inl one ↦ absurd (other ((placed_queue w j u one).1 ∙ owner))
    ]
