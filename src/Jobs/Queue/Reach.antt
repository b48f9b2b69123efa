-- ===== src/Jobs/Queue/Reach.antt =====
-- Every history of the jobs table: transactions of any API replica, one after the other.
use torrin.Prelude.{
  ℕ, ◌≡◌, ◌≢◌, ◌≤◌, ◌+◌, ◌⊎◌, inl, inr, refl, Bool, true, false, not, ◌&&◌, Option, none, some,
  List, [], ◌∷◌, Bool-cases, ok, arith,
}
use torrin.Prelude.Int.{ℤ}
use torrin.Prelude.Text.{Text, same_self}
use torrin.Prelude.Select.{any_of}
use torrin.Jobs.Model.{Job}
use torrin.Jobs.Table.{
  Table, by_id, count_rows, find_row, holds_slot, is_account, live_match, inflight_count, slot_of,
}
use torrin.Jobs.Rows.{find_id}
use torrin.Jobs.Queue.Change.{
  Change, IsSound, Change-IsSound, given, queue_slot_of, queue_holder, given-IsSound,
}
use torrin.Jobs.Queue.Identity.{holder}
use torrin.Jobs.Queue.Cases.{admit-Change, readmit-Change}
use torrin.Jobs.Queue.Promotion.{promote-Change}
use torrin.Jobs.Queue.Writes.{
  Rewrites, set_queued_priority-Change, fail_queued-Change, update_job-Change, create_once-Change,
}
use torrin.Jobs.Queue.Steps.{
  Faults, Admission, normalize_concurrent, prepare_create, admit, readmit, promote_queued,
  create_once, update_job, set_queued_priority, fail_queued,
}

-- The list of lent slots, after a write that may have given one.
abbrev pub lend : Bool → Text → List Text → List Text
lend true id out = id ∷ out
lend false id out = out

lend-given : (id : Text) (out : List Text) → given (lend true id out) id ≡ true
unfolding given any_of
lend-given id out = ground (arith, same_self id)

-- Whether the row with the job's id, written over by the job, has a slot from then on.
abbrev pub takes_slot : Job → Table → Bool
takes_slot j t = elim (find_row (by_id j.id) t) [
  | none ↦ false
  | some old ↦ holds_slot j && not (holds_slot old)
]

-- `plan u` is the most concurrent jobs that any plan of user `u` ever allowed. A step keeps the list of
-- the rows to which a writer outside the queue gave a slot: the bot of Telegram and the prewarming
-- create rows that hold one, and a worker may write a row into one.
module _ (plan : Text → ℕ) where
  pub data Step (t : Table) (out : List Text) : Table → List Text → Type 0 where
    admits :
        (faults : Faults) (fresh : Option Text) (now max_concurrent max_queued budget : ℕ)
        (job : Job) (t' : Table) (a : Admission) (r : Job)
        → normalize_concurrent max_concurrent ≤ normalize_concurrent (plan job.user_id)
        → admit faults fresh now max_concurrent max_queued budget job t ≡ ok (t', a, r)
        → Step t out t' out
    readmits :
        (faults : Faults) (now : ℕ) (id : Text) (max_concurrent max_queued budget : ℕ)
        (seen t' : Table) (a : Admission) (r : Job)
        → ((j : Job)
            → find_row (by_id id) t ≡ some j
            → normalize_concurrent max_concurrent ≤ normalize_concurrent (plan j.user_id))
        → readmit faults now id max_concurrent max_queued budget seen t ≡ ok (t', a, r)
        → Step t out t' out
    promotes :
        (faults : Faults) (now : ℕ) (id : Text) (max_concurrent budget : ℕ) (seen t' : Table)
        (o : Option Job)
        → ((j : Job)
            → find_row (by_id id) t ≡ some j
            → normalize_concurrent max_concurrent ≤ normalize_concurrent (plan j.user_id))
        → promote_queued faults now id max_concurrent budget seen t ≡ ok (t', o)
        → Step t out t' out
    -- Any job, in any status.
    creates :
        (faults : Faults) (fresh : Option Text) (now : ℕ) (job j : Job) (t' : Table) (b : Bool)
        (r : Job)
        → prepare_create fresh now job ≡ ok j
        → create_once faults fresh now job t ≡ ok (t', b, r)
        → Step t out t' (lend (holds_slot j) j.id out)
    -- The row takes a slot that it did not have, or not.
    updates :
        (now : ℕ) (j : Job) (t' : Table)
        → ((old : Job) → find_row (by_id j.id) t ≡ some old → Rewrites t old j)
        → update_job now j t ≡ ok t'
        → Step t out t' (lend (takes_slot j t) j.id out)
    prioritizes :
        (now : ℕ) (id : Text) (priority : ℤ)
        → Step t out (set_queued_priority now id priority t) out
    fails : (now : ℕ) (id reason : Text) → Step t out (fail_queued now id reason t) out

  pub data Reach : Table → List Text → Type 0 where
    start : Reach [] []
    next : {t t' : Table} {out out' : List Text} → Reach t out → Step t out t' out' → Reach t' out'

  abbrev pub slots : Text → ℕ
  slots u = normalize_concurrent (plan u)

  lend-IsSound :
      (b : Bool) (id : Text) (out : List Text) (t : Table)
      → IsSound slots out t
      → IsSound slots (lend b id out) t
  lend-IsSound true id out t s = given-IsSound slots out id t s
  lend-IsSound false id out t s = s

  Step-Change :
      {t t' : Table} {out out' : List Text}
      → IsSound slots out t
      → Step t out t' out'
      → Change slots out' t t' × IsSound slots out' t
  Step-Change {t} {out = out} s (admits faults fresh now max max_queued budget job t' a r le h) =
      (admit-Change faults max max_queued budget slots out fresh now job t le h, s)
  Step-Change {t} {out = out} s (readmits faults now id max max_queued budget seen t' a r le h) =
      (readmit-Change faults max max_queued budget slots out now id seen t s.ids le h, s)
  Step-Change {t} {out = out} s (promotes faults now id max budget seen t' o le h) =
      (promote-Change faults now max budget slots out id seen t s.ids s.normal le h, s)
  Step-Change {t} {out = out} s (creates faults fresh now job j t' b r p h) = (
    create_once-Change slots (lend (holds_slot j) j.id out) faults fresh now job t
        (λ k q held. created k q held) h,
    lend-IsSound (holds_slot j) j.id out t s,
  )
    where
      created :
          (k : Job)
          → prepare_create fresh now job ≡ ok k
          → holds_slot k ≡ true
          → given (lend (holds_slot j) j.id out) k.id ≡ true
      created k q held = let e : j ≡ k = ground (arith, p, q) in rw (e, held) (lend-given k.id out)
  Step-Change {t} {out = out} s (updates now j t' adv h) = (
    update_job-Change slots (lend (takes_slot j t) j.id out) now j t s.ids adv
        (λ old found held. lent old found held) h,
    lend-IsSound (takes_slot j t) j.id out t s,
  )
    where
      lent :
          (old : Job)
          → find_row (by_id j.id) t ≡ some old
          → holds_slot j ≡ true
          → (holds_slot old ≡ true) ⊎ (given (lend (takes_slot j t) j.id out) old.id ≡ true)
      lent old found held = elim (Bool-cases (holds_slot old)) [
        | inl was ↦ inl was
        | inr off ↦
            let takes : takes_slot j t ≡ true = rw (found, held, off, takes_slot) refl in
            inr (rw (takes, find_id j.id t found) (lend-given j.id out))
      ]
  Step-Change {t} {out = out} s (prioritizes now id priority) =
      (set_queued_priority-Change slots out now id priority t s.ids, s)
  Step-Change {t} {out = out} s (fails now id reason) =
      (fail_queued-Change slots out now id reason t s.ids, s)

  empty-IsSound : IsSound slots [] []
  unfolding count_rows
  empty-IsSound = record {
    ids = tt;
    normal = tt;
    capacity = λ u. omega arith;
    exclusive = λ h. omega arith;
    unique = λ u h a n. omega arith;
  }

  pub Reach-IsSound : {t : Table} {out : List Text} → Reach t out → IsSound slots out t
  Reach-IsSound start = empty-IsSound
  Reach-IsSound (next p st) =
      let (c, s) = Step-Change (Reach-IsSound p) st in Change-IsSound slots _ c s

-- The rows that pass a test and got their slot outside the queue.
abbrev pub lent_rows : List Text → (Job → Bool) → Table → ℕ
lent_rows out p = count_rows (λ r. p r && given out r.id)

queue_and_lent :
    (out : List Text) (p q : Job → Bool) (t : Table)
    → ((r : Job) → q r ≡ (p r && not (given out r.id)))
    → count_rows p t ≡ count_rows q t + lent_rows out p t
unfolding count_rows
queue_and_lent out p q [] e = refl
queue_and_lent out p q (r ∷ t) e = ground (arith, queue_and_lent out p q t e, e r)

-- In every table that is reached a user holds no more download slots than the most that any plan of
-- the user has (one at least), but for the rows to which a writer outside the queue gave a slot. This
-- holds however the admissions, retries and promotions of all users, inserts of any jobs, and writes
-- that keep a row's user, hash and seed flag and bring back no second live row of an account for the
-- hash, follow one another.
pub inflight-le-plan :
    (plan : Text → ℕ) (t : Table) (out : List Text)
    → Reach plan t out
    → (u : Text) → inflight_count u t ≤ normalize_concurrent (plan u) + lent_rows out (slot_of u) t
unfolding queue_slot_of
inflight-le-plan plan t out p u =
    let split = queue_and_lent out (slot_of u) (queue_slot_of out u) t (λ r. refl) in
    omega (arith, split, (Reach-IsSound plan p).capacity u)

-- In every table that is reached at most one row holds a slot for a hash, whoever owns the rows and
-- however they spell the hash, but for the rows to which a writer outside the queue gave a slot.
pub one_holder :
    (plan : Text → ℕ) (t : Table) (out : List Text)
    → Reach plan t out
    → (h : Text) → count_rows (holder h) t ≤ 1 + lent_rows out (holder h) t
unfolding queue_holder
one_holder plan t out p h =
    let split = queue_and_lent out (holder h) (queue_holder out h) t (λ r. refl) in
    omega (arith, split, (Reach-IsSound plan p).exclusive h)

-- In every table that is reached an account has at most one row for a hash that is neither a
-- private seed nor failed nor evicted.
pub one_live_row :
    (plan : Text → ℕ) (t : Table) (out : List Text)
    → Reach plan t out
    → (u h : Text) → is_account u ≡ true
    → h ≢ []
    → count_rows (live_match u h) t ≤ 1
one_live_row plan t out p u h a n = (Reach-IsSound plan p).unique u h a n
