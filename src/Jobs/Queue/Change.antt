-- ===== src/Jobs/Queue/Change.antt =====
-- What a transaction may do to the table: nothing, one new row, or one row written over; and the
-- invariant of the table that each of these keeps.
use torrin.Prelude.{
  ℕ, ◌≤◌, ◌<◌, ◌≡◌, ◌≢◌, ◌⊎◌, inl, inr, true, false, not, ◌&&◌, Bool, none, some, List, [], ◌∷◌,
  Bool-cases, arith,
}
use torrin.Prelude.Text.{Text, same, same_iff, to_lower, to_lower-eq_nil, to_lower_nil}
use torrin.Prelude.Select.{any_of}
use torrin.Jobs.Model.{Job}
use torrin.Jobs.Table.{
  Table, by_id, count_rows, exists_row, find_row, holds_slot, is_account, is_live, live_match,
  slot_of, other_holder, live_account_job, conflicts, inflight_count, active_hash,
}
use torrin.Jobs.Rows.{
  DistinctIds, All, replace, count-cons, exists-count, exists_mono, count-replace,
  replace-DistinctIds, All-replace, All-find, count_only, count_other, count_mono, find-none,
}
use torrin.Jobs.Queue.Identity.{holder, IsNormal, live-conflict, live_match-eq}

-- Whether an id is one of those to which a writer outside the queue gave a slot.
unfoldable pub given : List Text → Text → Bool
given out id = any_of (same id) out

-- The rows of a user, and the rows of a hash, that hold a slot which the queue gave.
unfoldable pub queue_slot_of : List Text → Text → Job → Bool
queue_slot_of out u r = slot_of u r && not (given out r.id)

unfoldable pub queue_holder : List Text → Text → Job → Bool
queue_holder out h r = holder h r && not (given out r.id)

-- A slot for `r` is free.
pub record SlotFree (limit : Text → ℕ) (r : Job) (t : Table) : Type 0 where
  pub room : inflight_count r.user_id t < limit r.user_id
  pub alone : active_hash r.info_hash r.id t ≡ false

module _ (limit : Text → ℕ) (out : List Text) where
  pub record Insert (r : Job) (t : Table) : Type 0 where
    pub new_id : exists_row (by_id r.id) t ≡ false
    pub unique : exists_row (conflicts r) t ≡ false
    pub normal : IsNormal r
    pub slot : holds_slot r ≡ true → SlotFree limit r t ⊎ (given out r.id ≡ true)

  -- `r` is written over `j`.
  pub record Write (j r : Job) (t : Table) : Type 0 where
    pub found : find_row (by_id j.id) t ≡ some j
    pub id : r.id ≡ j.id
    pub user : r.user_id ≡ j.user_id
    pub hash : r.info_hash ≡ j.info_hash
    pub seed : r.seed ≡ j.seed
    pub slot :
        holds_slot r ≡ true → (holds_slot j ≡ true) ⊎ (SlotFree limit j t ⊎ (given out j.id ≡ true))
    pub live : is_live r.status ≡ true → (is_live j.status ≡ true) ⊎ (live_account_job j t ≡ none)

  pub data Change (t : Table) : Table → Type 0 where
    keep : Change t t
    insert : (r : Job) → Insert r t → Change t (r ∷ t)
    write : (j r : Job) → Write j r t → Change t (replace j.id r t)

  -- The invariant: ids are a key, the queue gave no user more slots than the plan has, and
  -- no two rows a slot for one hash, and an account has one live row for a hash.
  pub record IsSound (t : Table) : Type 0 where
    pub ids : DistinctIds t
    pub normal : All IsNormal t
    pub capacity : (u : Text) → count_rows (queue_slot_of out u) t ≤ limit u
    pub exclusive : (h : Text) → count_rows (queue_holder out h) t ≤ 1
    pub unique : (u h : Text) → is_account u ≡ true → h ≢ [] → count_rows (live_match u h) t ≤ 1

  queue-le-inflight :
      (u : Text) (t : Table) → count_rows (queue_slot_of out u) t ≤ inflight_count u t
  unfolding queue_slot_of
  queue-le-inflight u t = count_mono (slot_of u) (queue_slot_of out u) t (λ r k. ground arith)

  queue-le-holder :
      (h : Text) (t : Table) → count_rows (queue_holder out h) t ≤ count_rows (holder h) t
  unfolding queue_holder
  queue-le-holder h t = count_mono (holder h) (queue_holder out h) t (λ r k. ground arith)

  Insert-capacity :
      (r : Job) (t : Table)
      → Insert r t
      → IsSound t
      → (u : Text) → count_rows (queue_slot_of out u) (r ∷ t) ≤ limit u
  unfolding queue_slot_of slot_of
  Insert-capacity r t i s u = elim (Bool-cases (queue_slot_of out u r)) [
    | inl new ↦
        let e : r.user_id ≡ u = ground (arith, same_iff r.user_id u) in
        let held : holds_slot r ≡ true = ground arith in
        elim (i.slot held) [
          | inr lent ↦ absurd (ground arith)
          | inl free ↦
              let room : inflight_count u t < limit u = rw (← e) free.room in
              ground (arith, count-cons (queue_slot_of out u) r t, queue-le-inflight u t)
        ]
    | inr old ↦ ground (arith, s.capacity u, count-cons (queue_slot_of out u) r t)
  ]

  -- With no other holder of the hash of `r`, no row but the one with its id holds it.
  alone-others :
      (r : Job) (h : Text) (t : Table)
      → same (to_lower r.info_hash) (to_lower h) ≡ true
      → active_hash r.info_hash r.id t ≡ false
      → exists_row (λ x. holder h x && not (same x.id r.id)) t ≡ false
  unfolding holder other_holder
  alone-others r h t e a =
      exists_mono (other_holder r.info_hash r.id) (λ x. holder h x && not (same x.id r.id)) t
        (λ x k. rw ((same_iff (to_lower r.info_hash) (to_lower h)).0 e) (ground arith)) a

  queue_alone :
      (r : Job) (h : Text) (t : Table)
      → exists_row (λ x. holder h x && not (same x.id r.id)) t ≡ false
      → exists_row (λ x. queue_holder out h x && not (same x.id r.id)) t ≡ false
  unfolding queue_holder
  queue_alone r h t a =
      exists_mono (λ x. holder h x && not (same x.id r.id))
        (λ x. queue_holder out h x && not (same x.id r.id)) t (λ x k. ground arith) a

  Insert-exclusive :
      (r : Job) (t : Table)
      → Insert r t
      → IsSound t
      → (h : Text) → count_rows (queue_holder out h) (r ∷ t) ≤ 1
  unfolding queue_holder holder
  Insert-exclusive r t i s h = elim (Bool-cases (queue_holder out h r)) [
    | inl new ↦
        let held : holds_slot r ≡ true = ground arith in
        let e : same (to_lower r.info_hash) (to_lower h) ≡ true = ground arith in
        elim (i.slot held) [
          | inr lent ↦ absurd (ground arith)
          | inl free ↦ ground (
            arith,
            count-cons (queue_holder out h) r t,
            queue-le-holder h t,
            count_other (holder h) r.id t i.new_id (alone-others r h t e free.alone),
          )
        ]
    | inr old ↦ ground (arith, s.exclusive h, count-cons (queue_holder out h) r t)
  ]

  Insert-unique :
      (r : Job) (t : Table)
      → Insert r t
      → IsSound t
      → (u h : Text) → is_account u ≡ true
      → h ≢ []
      → count_rows (live_match u h) (r ∷ t) ≤ 1
  unfolding live_match
  Insert-unique r t i s u h a n = elim (Bool-cases (live_match u h r)) [
    | inl new ↦ ground (
      arith,
      count-cons (live_match u h) r t,
      exists-count (live_match u h) t (
          exists_mono (conflicts r) (live_match u h) t (λ x k. live-conflict r x u h a n new k)
            i.unique),
    )
    | inr old ↦ ground (arith, s.unique u h a n, count-cons (live_match u h) r t)
  ]

  Insert-IsSound : (r : Job) (t : Table) → Insert r t → IsSound t → IsSound (r ∷ t)
  Insert-IsSound r t i s = record {
    ids = (i.new_id, s.ids);
    normal = (i.normal, s.normal);
    capacity = λ u. Insert-capacity r t i s u;
    exclusive = λ h. Insert-exclusive r t i s h;
    unique = λ u h a n. Insert-unique r t i s u h a n;
  }

  Write-capacity :
      (j r : Job) (t : Table)
      → Write j r t
      → IsSound t
      → (u : Text) → count_rows (queue_slot_of out u) (replace j.id r t) ≤ limit u
  unfolding queue_slot_of slot_of
  Write-capacity j r t w s u = elim (Bool-cases (queue_slot_of out u r)) [
    | inl new ↦
        let mine : given out j.id ≡ false = rw (← w.id) (ground arith) in
        let e : j.user_id ≡ u = ground (arith, same_iff r.user_id u, w.user) in
        let held : holds_slot r ≡ true = ground arith in
        elim (w.slot held) [
          | inl was ↦
              let own : same j.user_id u ≡ true = (same_iff j.user_id u).1 e in
              ground (arith, s.capacity u, count-replace (queue_slot_of out u) j r t s.ids w.found)
          | inr (inl free) ↦
              let room : inflight_count u t < limit u = rw (← e) free.room in
              ground (
                arith,
                queue-le-inflight u t,
                count-replace (queue_slot_of out u) j r t s.ids w.found,
              )
          | inr (inr lent) ↦ absurd (ground arith)
        ]
    | inr old ↦
        ground (arith, s.capacity u, count-replace (queue_slot_of out u) j r t s.ids w.found)
  ]

  Write-exclusive :
      (j r : Job) (t : Table)
      → Write j r t
      → IsSound t
      → (h : Text) → count_rows (queue_holder out h) (replace j.id r t) ≤ 1
  unfolding queue_holder holder
  Write-exclusive j r t w s h = elim (Bool-cases (queue_holder out h r)) [
    | inl new ↦
        let mine : given out j.id ≡ false = rw (← w.id) (ground arith) in
        let held : holds_slot r ≡ true = ground arith in
        let e : same (to_lower j.info_hash) (to_lower h) ≡ true = rw (← w.hash) (ground arith) in
        elim (w.slot held) [
          | inl was ↦
              ground (arith, s.exclusive h, count-replace (queue_holder out h) j r t s.ids w.found)
          | inr (inl free) ↦ ground (
            arith,
            count-replace (queue_holder out h) j r t s.ids w.found,
            count_only (queue_holder out h) j t s.ids w.found
                (queue_alone j h t (alone-others j h t e free.alone)),
          )
          | inr (inr lent) ↦ absurd (ground arith)
        ]
    | inr old ↦
        ground (arith, s.exclusive h, count-replace (queue_holder out h) j r t s.ids w.found)
  ]

  -- No live row of the account for the hash of `j`.
  none-live :
      (j : Job) (t : Table) (u h : Text)
      → is_account u ≡ true
      → h ≢ []
      → j.user_id ≡ u
      → same (to_lower j.info_hash) (to_lower h) ≡ true
      → j.seed ≡ false
      → live_account_job j t ≡ none
      → count_rows (live_match u h) t ≡ 0
  unfolding live_account_job
  none-live j t u h a n e m d l =
      let account : is_account j.user_id ≡ true = rw e a in
      let k : same j.info_hash [] ≡ false = ground (
        arith,
        same_iff j.info_hash [],
        same_iff (to_lower j.info_hash) (to_lower h),
        to_lower-eq_nil h,
        to_lower_nil,
        n,
      ) in
      exists-count (live_match u h) t (
        exists_mono (live_match j.user_id j.info_hash) (live_match u h) t (λ x p. match_of x p)
          (find-none (live_match j.user_id j.info_hash) t (ground arith)))
    where
      match_of : (x : Job) → live_match u h x ≡ true → live_match j.user_id j.info_hash x ≡ true
      match_of x p = live_match-eq u j.user_id h j.info_hash x e m p

  Write-unique :
      (j r : Job) (t : Table)
      → Write j r t
      → IsSound t
      → (u h : Text) → is_account u ≡ true
      → h ≢ []
      → count_rows (live_match u h) (replace j.id r t) ≤ 1
  unfolding live_match
  Write-unique j r t w s u h a n = elim (Bool-cases (live_match u h r)) [
    | inl new ↦
        let e : j.user_id ≡ u = ground (arith, same_iff r.user_id u, w.user) in
        let own : same j.user_id u ≡ true = (same_iff j.user_id u).1 e in
        let m : same (to_lower j.info_hash) (to_lower h) ≡ true = rw (← w.hash) (ground arith) in
        let d : j.seed ≡ false = rw (← w.seed) (ground arith) in
        elim (w.live (ground arith)) [
          | inl was ↦
              ground (arith, s.unique u h a n, count-replace (live_match u h) j r t s.ids w.found)
          | inr l ↦ ground (
            arith,
            count-replace (live_match u h) j r t s.ids w.found,
            none-live j t u h a n e m d l,
          )
        ]
    | inr old ↦ ground (arith, s.unique u h a n, count-replace (live_match u h) j r t s.ids w.found)
  ]

  Write-IsSound : (j r : Job) (t : Table) → Write j r t → IsSound t → IsSound (replace j.id r t)
  Write-IsSound j r t w s = record {
    ids = replace-DistinctIds j r t w.id s.ids;
    normal =
        All-replace IsNormal j.id r t
          (rw w.hash (All-find IsNormal (by_id j.id) t w.found s.normal)) s.normal;
    capacity = λ u. Write-capacity j r t w s u;
    exclusive = λ h. Write-exclusive j r t w s h;
    unique = λ u h a n. Write-unique j r t w s u h a n;
  }

  -- Every change keeps the invariant.
  pub Change-IsSound : {t t' : Table} → Change t t' → IsSound t → IsSound t'
  Change-IsSound keep s = s
  Change-IsSound {t} (insert r i) s = Insert-IsSound r t i s
  Change-IsSound {t} (write j r w) s = Write-IsSound j r t w s

-- One more slot given outside keeps the invariant.
pub given-IsSound :
    (limit : Text → ℕ) (out : List Text) (id : Text) (t : Table)
    → IsSound limit out t
    → IsSound limit (id ∷ out) t
unfolding queue_slot_of queue_holder given any_of
given-IsSound limit out id t s = record {
  ids = s.ids;
  normal = s.normal;
  capacity = λ u. omega (
    arith,
    s.capacity u,
    count_mono (queue_slot_of out u) (queue_slot_of (id ∷ out) u) t (λ r k. fewer_slots u r k),
  );
  exclusive = λ h. omega (
    arith,
    s.exclusive h,
    count_mono (queue_holder out h) (queue_holder (id ∷ out) h) t (λ r k. fewer_holders h r k),
  );
  unique = s.unique;
}
  where
    fewer_slots :
        (u : Text) (r : Job) → queue_slot_of (id ∷ out) u r ≡ true → queue_slot_of out u r ≡ true
    fewer_slots u r k = ground arith

    fewer_holders :
        (h : Text) (r : Job) → queue_holder (id ∷ out) h r ≡ true → queue_holder out h r ≡ true
    fewer_holders h r k = ground arith
