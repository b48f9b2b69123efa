-- ===== src/Jobs/Rows.antt =====
-- Counting rows: what an insert and an update by id do to a count.
use mathlib.Core.Path.{subst}
pub use torrin.Prelude.{All}
use torrin.Prelude.{
  ℕ, ◌+◌, ◌≤◌, ◌≡◌, refl, sym, Bool, true, false, not, ◌&&◌, none, some, [], ◌∷◌, if◌then◌else◌,
  Bool-cases, Option-cases, ◌⊎◌, inl, inr, arith,
}
use torrin.Prelude.Text.{Text, same, same_iff, same_self}
use torrin.Jobs.Model.{Job}
use torrin.Jobs.Table.{Table, by_id, count_rows, exists_row, find_row, update_rows}

abbrev pub one_if : Bool → ℕ
one_if b = if b then 1 else 0

-- The primary key.
abbrev pub DistinctIds : Table → Type 0
DistinctIds [] = Unit
DistinctIds (r ∷ t) = (exists_row (by_id r.id) t ≡ false) × DistinctIds t

-- The row with an id, written over.
abbrev pub replace : Text → Job → Table → Table
replace id r = update_rows (by_id id) (λ _. r)

pub count-cons :
    (p : Job → Bool) (r : Job) (t : Table) → count_rows p (r ∷ t) ≡ one_if (p r) + count_rows p t
unfolding count_rows
count-cons p r t = ground arith

pub exists-count : (p : Job → Bool) (t : Table) → exists_row p t ≡ false → count_rows p t ≡ 0
unfolding count_rows exists_row
exists-count p [] h = refl
exists-count p (r ∷ t) h = ground (arith, exists-count p t)

pub exists_mono :
    (p q : Job → Bool) (t : Table)
    → ((r : Job) → q r ≡ true → p r ≡ true)
    → exists_row p t ≡ false
    → exists_row q t ≡ false
unfolding exists_row
exists_mono p q [] pq h = refl
exists_mono p q (r ∷ t) pq h = ground (arith, pq r, exists_mono p q t pq)

pub count_mono :
    (p q : Job → Bool) (t : Table)
    → ((r : Job) → q r ≡ true → p r ≡ true)
    → count_rows q t ≤ count_rows p t
unfolding count_rows
count_mono p q [] pq = omega arith
count_mono p q (r ∷ t) pq = ground (arith, pq r, count_mono p q t pq)

pub update_none :
    (q : Job → Bool) (f : Job → Job) (t : Table) → exists_row q t ≡ false → update_rows q f t ≡ t
unfolding update_rows exists_row
update_none q f [] h = refl
update_none q f (r ∷ t) h = ground (arith, update_none q f t)

pub find_id : (id : Text) (t : Table) {j : Job} → find_row (by_id id) t ≡ some j → j.id ≡ id
unfolding find_row
find_id id [] h = ground arith
find_id id (r ∷ t) {j} h = ground (arith, find_id id t {j = j}, same_iff r.id id)

pub find_own :
    (id : Text) (t : Table) {j : Job}
    → find_row (by_id id) t ≡ some j
    → find_row (by_id j.id) t ≡ some j
find_own id t {j} h = subst (λ k. find_row (by_id k) t ≡ some j) (sym (find_id id t h)) h

pub find-exists :
    (p : Job → Bool) (t : Table) {j : Job} → find_row p t ≡ some j → exists_row p t ≡ true
unfolding find_row exists_row
find-exists p [] h = ground arith
find-exists p (r ∷ t) {j} h = ground (arith, find-exists p t {j = j})

-- An UPDATE that writes only the row with the id of `j` is a replacement of that row.
pub update-replace :
    (q : Job → Bool) (f : Job → Job) (j : Job) (t : Table)
    → DistinctIds t
    → find_row (by_id j.id) t ≡ some j
    → ((r : Job) → q r ≡ true → by_id j.id r ≡ true)
    → q j ≡ true
    → update_rows q f t ≡ replace j.id (f j) t
unfolding update_rows find_row
update-replace q f j [] d found only at = refl
update-replace q f j (r ∷ t) d found only at = elim (Bool-cases (same r.id j.id)) [
  | inl here ↦
      let e : r ≡ j = ground arith in
      let gone : exists_row (by_id j.id) t ≡ false = rw e at d.0 in
      ground (
        arith,
        update_none q f t (exists_mono (by_id j.id) q t only gone),
        update_none (by_id j.id) (λ _. f j) t gone,
      )
  | inr other ↦ ground (arith, only r, update-replace q f j t d.1)
]

-- Where one row is written over, a count changes by that row alone.
pub count-replace :
    (p : Job → Bool) (j r : Job) (t : Table)
    → DistinctIds t
    → find_row (by_id j.id) t ≡ some j
    → count_rows p (replace j.id r t) + one_if (p j) ≡ count_rows p t + one_if (p r)
unfolding count_rows update_rows find_row
count-replace p j r [] d found = ground arith
count-replace p j r (x ∷ t) d found = elim (Bool-cases (same x.id j.id)) [
  | inl here ↦
      let e : x ≡ j = ground arith in
      let gone : exists_row (by_id j.id) t ≡ false = rw e at d.0 in
      ground (arith, update_none (by_id j.id) (λ _. r) t gone)
  | inr other ↦ ground (arith, count-replace p j r t d.1)
]

exists-replace :
    (id : Text) (j r : Job) (t : Table)
    → r.id ≡ j.id
    → exists_row (by_id id) (replace j.id r t) ≡ exists_row (by_id id) t
unfolding exists_row update_rows
exists-replace id j r [] e = refl
exists-replace id j r (x ∷ t) e = ground (arith, exists-replace id j r t e, same_iff x.id j.id)

pub replace-DistinctIds :
    (j r : Job) (t : Table) → r.id ≡ j.id → DistinctIds t → DistinctIds (replace j.id r t)
unfolding update_rows
replace-DistinctIds j r [] e d = tt
replace-DistinctIds j r (x ∷ t) e d =
    ground (arith, exists-replace x.id j r t e, same_iff x.id j.id, replace-DistinctIds j r t e d.1)

pub All-replace {κ} :
    (P : Job → Type κ) (id : Text) (r : Job) (t : Table) → P r → All P t → All P (replace id r t)
unfolding update_rows
All-replace P id r [] h a = tt
All-replace P id r (x ∷ t) h a = elim (Bool-cases (same x.id id)) [
  | inl here ↦ rw here (h, All-replace P id r t h a.1)
  | inr other ↦ rw other (a.0, All-replace P id r t h a.1)
]

pub All-find {κ} :
    (P : Job → Type κ) (p : Job → Bool) (t : Table) {j : Job}
    → find_row p t ≡ some j
    → All P t
    → P j
unfolding find_row
All-find P p [] h a = absurd (ground arith)
All-find P p (x ∷ t) h a = elim (Bool-cases (p x)) [
  | inl here ↦ let e : x ≡ _ = ground arith in rw e at a.0
  | inr other ↦ All-find P p t (ground arith) a.1
]

-- A test that only a row with an absent id may pass counts nothing.
pub count_other :
    (p : Job → Bool) (id : Text) (t : Table)
    → exists_row (by_id id) t ≡ false
    → exists_row (λ r. p r && not (same r.id id)) t ≡ false
    → count_rows p t ≡ 0
unfolding count_rows exists_row
count_other p id [] h k = refl
count_other p id (r ∷ t) h k = ground (arith, count_other p id t)

-- If only the row with the id of `j` can pass a test, at most that row is counted.
pub count_only :
    (p : Job → Bool) (j : Job) (t : Table)
    → DistinctIds t
    → find_row (by_id j.id) t ≡ some j
    → exists_row (λ r. p r && not (same r.id j.id)) t ≡ false
    → count_rows p t ≤ one_if (p j)
unfolding count_rows exists_row find_row
count_only p j [] d found k = omega arith
count_only p j (x ∷ t) d found k = elim (Bool-cases (same x.id j.id)) [
  | inl here ↦
      let e : x ≡ j = ground arith in
      let gone : exists_row (by_id j.id) t ≡ false = rw e at d.0 in
      ground (arith, count_other p j.id t gone)
  | inr other ↦ ground (arith, count_only p j t d.1)
]

pub find-pass : (p : Job → Bool) (t : Table) {j : Job} → find_row p t ≡ some j → p j ≡ true
unfolding find_row
find-pass p [] h = ground arith
find-pass p (x ∷ t) {j} h = ground (arith, find-pass p t {j = j})

pub find-none : (p : Job → Bool) (t : Table) → find_row p t ≡ none → exists_row p t ≡ false
unfolding find_row exists_row
find-none p [] h = refl
find-none p (x ∷ t) h = ground (arith, find-none p t)

exists_id :
    (p : Job → Bool) (t : Table) {r : Job}
    → find_row p t ≡ some r
    → exists_row (by_id r.id) t ≡ true
unfolding find_row exists_row
exists_id p [] h = ground arith
exists_id p (x ∷ t) {r} h = ground (arith, exists_id p t {r = r}, same_self r.id)

-- Two selected rows with one id are the same row.
pub find_unique :
    (p : Job → Bool) (t : Table) {r j : Job}
    → DistinctIds t
    → find_row p t ≡ some r
    → find_row (by_id j.id) t ≡ some j
    → r.id ≡ j.id
    → r ≡ j
unfolding find_row
find_unique p [] d h k e = ground arith
find_unique p (x ∷ t) {r} {j} d h k e = ground (
  arith,
  same_iff x.id j.id,
  exists_id p t {r = r},
  exists_id (by_id j.id) t {r = j},
  find_unique p t {r = r} {j = j} d.1,
  d.0,
)

exists_off :
    (q : Job → Bool) (j : Job) (t : Table)
    → DistinctIds t
    → find_row (by_id j.id) t ≡ some j
    → ((r : Job) → q r ≡ true → by_id j.id r ≡ true)
    → q j ≡ false
    → exists_row q t ≡ false
unfolding exists_row find_row
exists_off q j [] d found only h = refl
exists_off q j (x ∷ t) d found only h = elim (Bool-cases (same x.id j.id)) [
  | inl here ↦
      let e : x ≡ j = ground arith in
      let gone : exists_row (by_id j.id) t ≡ false = rw e at d.0 in
      ground (arith, exists_mono (by_id j.id) q t only gone)
  | inr other ↦ ground (arith, only x, exists_off q j t d.1)
]

-- An UPDATE with an id in its test does nothing, or writes over the row with that id, which
-- passes the test.
pub update_guarded :
    (q : Job → Bool) (f : Job → Job) (id : Text) (t : Table)
    → DistinctIds t
    → ((r : Job) → q r ≡ true → by_id id r ≡ true)
    → (update_rows q f t ≡ t)
      ⊎ ((j : Job) × (find_row (by_id j.id) t ≡ some j)
          × (q j ≡ true)
          × (update_rows q f t ≡ replace j.id (f j) t))
update_guarded q f id t d only = elim (Option-cases (find_row (by_id id) t)) [
  | inl gone ↦
      inl (update_none q f t (exists_mono (by_id id) q t only (find-none (by_id id) t gone)))
  | inr (j, found) ↦
      let own = find_own id t found in
      let only' : (r : Job) → q r ≡ true → by_id j.id r ≡ true =
        λ r k. subst (λ i. by_id i r ≡ true) (sym (find_id id t found)) (only r k) in
      elim (Bool-cases (q j)) [
        | inl on ↦ inr (j, own, on, update-replace q f j t d own only' on)
        | inr off ↦ inl (update_none q f t (exists_off q j t d own only' off))
      ]
]
