-- ===== src/Providers/Retries.antt =====
-- A download that fails for a while and then succeeds.
use torrin.Prelude.{
  ℕ, zero, suc, ◌+◌, ◌≤◌, ◌<◌, ◌≡◌, refl, ap, true, false, Option, none, some, ◌&&◌, ◌||◌, List, [],
  ◌∷◌, ◌++◌, length, ltb, ◌==◌, if◌then◌else◌, length-append, arith,
}
use mathlib.Core.List.{append-nil, append_assoc}
use torrin.Prelude.Parts.{Bytes}
use torrin.Providers.Body.{Error, refused, Turn, cancelled, breaks, reads, write_at, copy_body}
use torrin.Providers.Download.{Response, Server, Env, after_copy, attempts, resilient, download}
use torrin.Providers.Served.{body_bytes, write_at-end}

-- A body in which nothing fails.
abbrev pub Smooth : List Turn → Type 0
Smooth [] = Unit
Smooth (cancelled ∷ ts) = ⊥
Smooth (breaks ∷ ts) = ⊥
Smooth (reads got (some k) wait_fails ∷ ts) = ⊥
Smooth (reads got none true ∷ ts) = ⊥
Smooth (reads got none false ∷ ts) = Smooth ts

copy_body-Smooth :
    (ts : List Turn) (f : Bytes) (w : ℕ)
    → w ≡ length f
    → Smooth ts
    → copy_body ts f w ≡ (f ++ body_bytes ts, w + length (body_bytes ts), none, false)
unfolding copy_body
copy_body-Smooth [] f w h s = let z : w + 0 ≡ w = omega arith in rw (z, append-nil f) refl
copy_body-Smooth (cancelled ∷ ts) f w h s = absurd s
copy_body-Smooth (breaks ∷ ts) f w h s = absurd s
copy_body-Smooth (reads got (some k) wait_fails ∷ ts) f w h s = absurd s
copy_body-Smooth (reads got none true ∷ ts) f w h s = absurd s
copy_body-Smooth (reads [] none false ∷ ts) f w h s = copy_body-Smooth ts f w h s
copy_body-Smooth (reads (b ∷ bs) none false ∷ ts) f w h s =
    let at : write_at w (b ∷ bs) f ≡ f ++ (b ∷ bs) = rw h (write_at-end (b ∷ bs) f) in
    let l : w + length (b ∷ bs) ≡ length (f ++ (b ∷ bs)) =
      omega (arith, h, length-append f (b ∷ bs)) in
    let n : w + length (b ∷ bs) + length (body_bytes ts) ≡ w + length ((b ∷ bs) ++ body_bytes ts) =
      omega (arith, length-append (b ∷ bs) (body_bytes ts)) in
    let a = append_assoc f (b ∷ bs) (body_bytes ts) in
    rw (at, ← n, ← a) (copy_body-Smooth ts (f ++ (b ∷ bs)) (w + length (b ∷ bs)) l s)

module _ (env : Env) (server : Server) (r : Response) (quiet : (k : ℕ) → env.cancelled k ≡ false)
    (fine : r.status ≡ 200) (smooth : Smooth r.body)
    (announced : r.content_length ≡ length (body_bytes r.body)) where
  attempts_last :
      (n k : ℕ) (last : Option Error)
      → server k 0 ≡ some r
      → attempts env server (suc n) k [] 0 0 last ≡ (body_bytes r.body, none)
  unfolding attempts
  attempts_last n k last got =
      let ok_status : (r.status == 200) ≡ true = ground (arith, fine) in
      let no_part : (r.status == 206) ≡ false = ground (arith, fine) in
      let size = length (body_bytes r.body) in
      let t : ℕ = if ltb 0 r.content_length then r.content_length else 0 in
      let not_short : (ltb 0 t && ltb (0 + size) t) ≡ false = ground (arith, announced) in
      rw (quiet k, got, ok_status, no_part, copy_body-Smooth r.body [] 0 refl smooth, attempts)
        (rw (not_short, after_copy) refl)

  -- The attempts before attempt `k + m` get no answer, and that one gets the whole file.
  attempts-retry :
      (m n k : ℕ) (last : Option Error)
      → m < n
      → ((j : ℕ) → j < k + m → k ≤ j → server j 0 ≡ none)
      → server (k + m) 0 ≡ some r
      → attempts env server n k [] 0 0 last ≡ (body_bytes r.body, none)
  unfolding attempts
  attempts-retry m zero k last lt no_answer got = absurd (omega arith)
  attempts-retry zero (suc n) k last lt no_answer got =
      let z : k + 0 ≡ k = omega arith in attempts_last n k last (rw (← z) got)
  attempts-retry (suc m) (suc n) k last lt no_answer got =
      let z : k + suc m ≡ k + 1 + m = omega arith in
      rw (quiet k, no_answer k (omega arith) (omega arith), attempts)
        (attempts-retry m n (k + 1) (some refused) (omega arith)
          (λ j a b. no_answer j (omega (arith, a)) (omega (arith, b))) (rw (← z) got))

  -- A download that gets no answer fewer than six times and then the whole file ends with the file.
  pub download-retries :
      (m : ℕ)
      → m < 6
      → ((j : ℕ) → j < m → server j 0 ≡ none)
      → server m 0 ≡ some r
      → download env server false none ≡ (some (body_bytes r.body), none)
  unfolding download resilient
  download-retries m lt no_answer got =
      let z : 0 + m ≡ m = omega arith in
      let e : resilient env server [] ≡ (body_bytes r.body, none) =
        attempts-retry m 6 0 none lt (λ j a b. no_answer j (omega (arith, a))) (rw z got) in
      ap finish e
    where
      finish : Bytes × Option Error → Option Bytes × Option Error
      finish (f, e) = elim e [
        | none ↦ (some f, none)
        | some x ↦ (if env.cancelled_after || env.remove_fails then some f else none, some x)
      ]
