-- ===== src/Reseller/Limiter.antt =====
-- The limit on attempts to redeem a code: `attemptLimiter` of api/internal/handlers/reseller.go. A
-- call under the mutex is one step, and its calls of time.Now give the same time.
use torrin.Prelude.{
  ℕ, ◌+◌, ◌≤◌, ◌≡◌, refl, sym, ◌∙◌, inl, inr, Bool, true, false, not, ◌&&◌, List, [], ◌∷◌, ◌++◌,
  if◌then◌else◌, ltb, leb, length, Bool-cases, arith,
}
use torrin.Prelude.Select.{keep}
use torrin.Prelude.Text.{Text, same, same_iff}

-- A key that is not in the map has no hits.
pub record AttemptLimiter : Type 0 where
  pub max : ℕ
  pub window : ℕ
  pub hits : Text → List ℕ

abbrev pub new_attempt_limiter : ℕ → ℕ → AttemptLimiter
new_attempt_limiter max window = record { max = max; window = window; hits = λ key. [] }

-- After the cutoff, which is `window` before now.
abbrev pub is_recent : ℕ → ℕ → ℕ → Bool
is_recent window now t = ltb now (t + window)

unfoldable pub allow : ℕ → Text → AttemptLimiter → AttemptLimiter × Bool
unfolding keep same
allow now key l =
    let kept = keep (is_recent l.window now) (l.hits key) in
    let full = leb l.max (length kept) in
    let hits = if full then kept else kept ++ (now ∷ []) in
    (record l { hits = λ k. if same k key then hits else l.hits k }, not full)

-- Calls in turn, and the ones that were allowed, the newest first.
unfoldable pub allow_all :
    List (ℕ × Text) → AttemptLimiter → List (ℕ × Text) → AttemptLimiter × List (ℕ × Text)
unfolding allow
allow_all [] l log = (l, log)
allow_all ((now, key) ∷ calls) l log =
    let (l', allowed) = allow now key l in
    allow_all calls l' (if allowed then (now, key) ∷ log else log)

-- How many calls of a key were allowed within the window.
unfoldable pub recent_count : ℕ → ℕ → Text → List (ℕ × Text) → ℕ
unfolding same
recent_count window now key [] = 0
recent_count window now key ((t, k) ∷ log) =
    (if same k key && is_recent window now t then 1 else 0) + recent_count window now key log

-- The times do not decrease from `t` on.
abbrev pub Ascending : ℕ → List (ℕ × Text) → Type 0
Ascending t [] = Unit
Ascending t ((now, key) ∷ calls) = (t ≤ now) × Ascending now calls

abbrev pub last_time : ℕ → List (ℕ × Text) → ℕ
last_time t [] = t
last_time t ((now, key) ∷ calls) = last_time now calls

keep_earlier :
    (window t now : ℕ) (l : List ℕ)
    → t ≤ now
    → length (keep (is_recent window now) (keep (is_recent window t) l))
      ≡ length (keep (is_recent window now) l)
unfolding keep
keep_earlier window t now [] h = refl
keep_earlier window t now (x ∷ l) h = ground (arith, keep_earlier window t now l)

keep-append :
    (p : ℕ → Bool) (l : List ℕ) (x : ℕ)
    → length (keep p (l ++ (x ∷ []))) ≡ length (keep p l) + (if p x then 1 else 0)
unfolding keep
keep-append p [] x = ground arith
keep-append p (y ∷ l) x = ground (arith, keep-append p l x)

count_cons :
    (window u now : ℕ) (id key : Text) (log : List (ℕ × Text))
    → recent_count window u id ((now, key) ∷ log)
      ≡ (if same key id && is_recent window u now then 1 else 0) + recent_count window u id log
unfolding recent_count
count_cons window u now id key log = refl

-- From time `t` on the hits tell how many calls were allowed within the window.
record Tracks (max window t : ℕ) (l : AttemptLimiter) (log : List (ℕ × Text)) : Type 0 where
  its_max : l.max ≡ max
  its_window : l.window ≡ window
  its_hits :
      (now : ℕ) (key : Text)
      → t ≤ now
      → length (keep (is_recent window now) (l.hits key)) ≡ recent_count window now key log

allow-decision :
    (max window t now : ℕ) (key : Text) (l : AttemptLimiter) (log : List (ℕ × Text))
    → Tracks max window t l log
    → t ≤ now
    → (allow now key l).1 ≡ ltb (recent_count window now key log) max
unfolding allow
allow-decision max window t now key l log k h =
    rw (k.its_window, k.its_max) (ground (arith, k.its_hits now key h))

allow-Tracks :
    (max window t now : ℕ) (key : Text) (l : AttemptLimiter) (log : List (ℕ × Text))
    → Tracks max window t l log
    → t ≤ now
    → let (l', allowed) = allow now key l in
      Tracks max window now l' (if allowed then (now, key) ∷ log else log)
unfolding allow
allow-Tracks max window t now key l log k h = record {
  its_max = k.its_max;
  its_window = k.its_window;
  its_hits = λ u id le.
      let kept = keep (is_recent l.window now) (l.hits key) in
      let before : length (keep (is_recent window u) (l.hits id)) ≡ recent_count window u id log =
        k.its_hits u id (omega (arith, h, le)) in
      let earlier : length (keep (is_recent window u) kept)
          ≡ length (keep (is_recent window u) (l.hits key)) =
        rw k.its_window (keep_earlier window now u (l.hits key) le) in
      let one_more = keep-append (is_recent window u) kept now in
      let counted = count_cons window u now id key log in
      elim (Bool-cases (same id key)) [
        | inl his ↦
            let e : id ≡ key = (same_iff id key).0 his in
            let own : length (keep (is_recent window u) (l.hits key))
                ≡ recent_count window u id log =
              rw (← e) before in
            let his' : same key id ≡ true = (same_iff key id).1 (sym e) in
            elim (Bool-cases (leb l.max (length kept))) [
              | inl full ↦ rw (his, full) (earlier ∙ own)
              | inr room ↦ rw (his, room) (ground (arith, earlier, own, one_more, counted, his'))
            ]
        | inr other ↦
            let other' : same key id ≡ false =
              ground (arith, other, same_iff key id, same_iff id key) in
            elim (Bool-cases (leb l.max (length kept))) [
              | inl full ↦ rw (other, full) before
              | inr room ↦ rw (other, room) (ground (arith, before, counted, other'))
            ]
      ];
}

all-Tracks :
    (max window t : ℕ) (calls : List (ℕ × Text)) (l : AttemptLimiter) (log : List (ℕ × Text))
    → Tracks max window t l log
    → Ascending t calls
    → let (l', log') = allow_all calls l log in Tracks max window (last_time t calls) l' log'
unfolding allow_all
all-Tracks max window t [] l log k a = k
all-Tracks max window t ((now, key) ∷ calls) l log k (h, a) =
    all-Tracks max window now calls _ _ (allow-Tracks max window t now key l log k h) a

-- After any calls at times that do not decrease, the limiter allows a call exactly if fewer than
-- `max` calls of its key were allowed within the window before it.
pub allow_all-allow :
    (max window : ℕ) (calls : List (ℕ × Text)) (now : ℕ) (key : Text)
    → Ascending 0 calls
    → last_time 0 calls ≤ now
    → let (l, log) = allow_all calls (new_attempt_limiter max window) [] in
      (allow now key l).1 ≡ ltb (recent_count window now key log) max
unfolding recent_count keep
allow_all-allow max window calls now key a h =
    let (l, log) = allow_all calls (new_attempt_limiter max window) [] in
    allow-decision max window (last_time 0 calls) now key l log
      (all-Tracks max window 0 calls (new_attempt_limiter max window) []
        (record { its_max = refl; its_window = refl; its_hits = λ u id le. refl }) a)
      h
