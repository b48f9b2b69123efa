-- ===== src/Jobs/Queue/Order.antt =====
-- The order in which queued jobs are served: priority, then age, then id.
use torrin.Prelude.{
  ◌≡◌, ◌⊎◌, inl, inr, refl, Bool, true, false, ◌&&◌, List, [], ◌∷◌, if◌then◌else◌, Bool-cases,
  arith,
}
use torrin.Prelude.Text.{Text, before}
use torrin.Jobs.Model.{Job}
use torrin.Jobs.Rows.{All}
use torrin.Jobs.Queue.Steps.{precedes}

before_self : (s : Text) → before s s ≡ false
unfolding before
before_self [] = refl
before_self (a ∷ s) = ground (arith, before_self s)

before_trans : (r s t : Text) → before r s ≡ true → before s t ≡ true → before r t ≡ true
unfolding before
before_trans [] [] t h k = ground arith
before_trans [] (b ∷ s) [] h k = ground arith
before_trans [] (b ∷ s) (c ∷ t) h k = refl
before_trans (a ∷ r) [] t h k = ground arith
before_trans (a ∷ r) (b ∷ s) [] h k = ground arith
before_trans (a ∷ r) (b ∷ s) (c ∷ t) h k = ground (arith, before_trans r s t)

-- No job precedes itself, and the order is transitive.
pub precedes_self : (j : Job) → precedes j j ≡ false
unfolding precedes
precedes_self j = ground (arith, before_self j.id)

pub precedes_trans : (i j k : Job) → precedes i j ≡ true → precedes j k ≡ true → precedes i k ≡ true
unfolding precedes
precedes_trans i j k h l = ground (arith, before_trans i.id j.id k.id)

-- The first in order of `acc` and the jobs of a list that pass a test.
pub front : (Job → Bool) → List Job → Job → Job
front p [] acc = acc
front p (x ∷ l) acc = front p l (if p x && precedes x acc then x else acc)

front-acc :
    (p : Job → Bool) (l : List Job) (acc : Job)
    → (front p l acc ≡ acc) ⊎ (precedes (front p l acc) acc ≡ true)
unfolding front
front-acc p [] acc = inl refl
front-acc p (x ∷ l) acc = ground (
  arith,
  front-acc p l (if p x && precedes x acc then x else acc),
  precedes_trans (front p l (if p x && precedes x acc then x else acc)) x acc,
)

-- Nothing that passes the test precedes the front.
pub front_first :
    (p : Job → Bool) (l : List Job) (acc : Job)
    → All (λ q. (p q && precedes q (front p l acc)) ≡ false) l
unfolding front
front_first p [] acc = tt
front_first p (x ∷ l) acc =
    let acc' : Job = if p x && precedes x acc then x else acc in
    (
      ground (
        arith,
        front-acc p l acc',
        precedes_trans x (front p l acc') acc,
        precedes_trans x (front p l acc') x,
        precedes_self x,
      ),
      front_first p l acc',
    )

pub front-All {κ} :
    (P : Job → Type κ) (p : Job → Bool) (l : List Job) (acc : Job)
    → P acc
    → All P l
    → P (front p l acc)
unfolding front
front-All P p [] acc h a = h
front-All P p (x ∷ l) acc h a = elim (Bool-cases (p x && precedes x acc)) [
  | inl better ↦ rw better (front-All P p l x a.0 a.1)
  | inr worse ↦ rw worse (front-All P p l acc h a.1)
]

pub front-pass :
    (p : Job → Bool) (l : List Job) (acc : Job) → p acc ≡ true → p (front p l acc) ≡ true
unfolding front
front-pass p [] acc h = h
front-pass p (x ∷ l) acc h =
    ground (arith, front-pass p l (if p x && precedes x acc then x else acc))
