-- ===== src/Stream/Guards/StreamGuard/History.antt =====
-- The guard over every history of calls.
use mathlib.Core.Path.{subst₂}
use torrin.Prelude.{ℕ, ◌≤◌, ◌≡◌, refl, ◌∙◌, List, [], ◌∷◌, max, min, max, min, length, arith}
use torrin.Prelude.Text.{Text, same_iff}
use torrin.Prelude.Dict.{get}
use torrin.Prelude.Bag.{count, erase, count-cons, count-erase}
use torrin.Prelude.Counts.{count_at}
use torrin.Stream.Guards.StreamGuard.{StreamGuard, StreamLimit, acquire, release, new_stream_guard}
use torrin.Stream.Guards.StreamGuard.Books.{Tracks, acquire_spec, acquire-Tracks, release-Tracks}

pub data Call : Type 0 where
  open_stream : Text → Call
  close_stream : Text → Call

pub step : StreamGuard → Call → StreamGuard
step g (open_stream id) = (acquire g id).0
step g (close_stream id) = release g id

-- A history of the server, from a guard on.
unfoldable pub run : StreamGuard → List Call → StreamGuard
unfolding step
run g [] = g
run g (c ∷ cs) = run (step g c) cs

-- What the calls that open a stream are answered, in their order.
unfoldable pub answers : StreamGuard → List Call → List StreamLimit
unfolding step
answers g [] = []
answers g (open_stream id ∷ cs) = (acquire g id).1 ∷ answers (step g (open_stream id)) cs
answers g (close_stream id ∷ cs) = answers (step g (close_stream id)) cs

-- The streams that are open after the calls, by the promise alone.
step_spec : ℕ → ℕ → List Text → Call → List Text
step_spec n k held (open_stream id) = (acquire_spec n k id held).0
step_spec n k held (close_stream id) = erase id held

unfoldable pub run_spec : ℕ → ℕ → List Text → List Call → List Text
unfolding step_spec
run_spec n k held [] = held
run_spec n k held (c ∷ cs) = run_spec n k (step_spec n k held c) cs

-- What is answered, by the promise alone.
unfoldable pub answers_spec : ℕ → ℕ → List Text → List Call → List StreamLimit
unfolding step_spec
answers_spec n k held [] = []
answers_spec n k held (open_stream id ∷ cs) =
    (acquire_spec n k id held).1 ∷ answers_spec n k (step_spec n k held (open_stream id)) cs
answers_spec n k held (close_stream id ∷ cs) =
    answers_spec n k (step_spec n k held (close_stream id)) cs

limits-step :
    (g : StreamGuard) (c : Call)
    → ((step g c).max_total ≡ g.max_total) × ((step g c).max_per_user ≡ g.max_per_user)
unfolding step acquire release
limits-step g (open_stream id) = ground arith
limits-step g (close_stream id) = ground arith

step-Tracks :
    (g : StreamGuard) (held : List Text) (c : Call)
    → Tracks g held
    → Tracks (step g c) (step_spec g.max_total g.max_per_user held c)
unfolding step step_spec
step-Tracks g held (open_stream id) t = (acquire-Tracks g held id t).1
step-Tracks g held (close_stream id) t = release-Tracks g held id t

run-Tracks :
    (n k : ℕ) (g : StreamGuard) (held : List Text) (cs : List Call)
    → g.max_total ≡ n
    → g.max_per_user ≡ k
    → Tracks g held
    → Tracks (run g cs) (run_spec n k held cs)
unfolding run run_spec
run-Tracks n k g held [] en ek t = t
run-Tracks n k g held (c ∷ cs) en ek t =
    run-Tracks n k (step g c) (step_spec n k held c) cs ((limits-step g c).0 ∙ en)
      ((limits-step g c).1 ∙ ek)
      (subst₂ (λ i j. Tracks (step g c) (step_spec i j held c)) en ek (step-Tracks g held c t))

answers-Tracks :
    (n k : ℕ) (g : StreamGuard) (held : List Text) (cs : List Call)
    → g.max_total ≡ n
    → g.max_per_user ≡ k
    → Tracks g held
    → answers g cs ≡ answers_spec n k held cs
unfolding answers answers_spec
answers-Tracks n k g held [] en ek t = refl
answers-Tracks n k g held (open_stream id ∷ cs) en ek t =
    let c : Call = open_stream id in
    let later =
      answers-Tracks n k (step g c) (step_spec n k held c) cs ((limits-step g c).0 ∙ en)
        ((limits-step g c).1 ∙ ek)
        (subst₂ (λ i j. Tracks (step g c) (step_spec i j held c)) en ek (step-Tracks g held c t)) in
    let now =
      subst₂ (λ i j. (acquire g id).1 ≡ (acquire_spec i j id held).1) en ek
        (acquire-Tracks g held id t).0 in
    rw (now, later) refl
answers-Tracks n k g held (close_stream id ∷ cs) en ek t =
    let c : Call = close_stream id in
    answers-Tracks n k (step g c) (step_spec n k held c) cs ((limits-step g c).0 ∙ en)
      ((limits-step g c).1 ∙ ek)
      (subst₂ (λ i j. Tracks (step g c) (step_spec i j held c)) en ek (step-Tracks g held c t))

length-erase-le :
    (id : Text) (held : List Text) (n : ℕ) → length held ≤ n → length (erase id held) ≤ n
unfolding erase
length-erase-le id [] n h = h
length-erase-le id (j ∷ held) n h = ground (arith, length-erase-le id held (length held))

-- The limits hold of what is open.
spec_bounded :
    (n k : ℕ) (held : List Text) (cs : List Call)
    → length held ≤ n
    → ((u : Text) → count u held ≤ k)
    → (length (run_spec n k held cs) ≤ n) × ((u : Text) → count u (run_spec n k held cs) ≤ k)
unfolding run_spec step_spec
spec_bounded n k held [] a b = (a, b)
spec_bounded n k held (open_stream id ∷ cs) a b =
    spec_bounded n k (acquire_spec n k id held).0 cs (ground (arith, a))
      (λ u. ground (arith, count-cons u id held, b u, b id, same_iff id u))
spec_bounded n k held (close_stream id ∷ cs) a b =
    spec_bounded n k (erase id held) cs (length-erase-le id held n a)
      (λ u. ground (arith, count-erase u id held, b u))

new-Tracks : (total per_user : ℕ) → Tracks (new_stream_guard total per_user) []
unfolding new_stream_guard get count
new-Tracks total per_user = record { keys = tt; counts = λ u. refl; all = refl }

-- For every history of calls: each call to open a stream is answered as the promise answers it,
-- said of the streams that are open by the promise alone (the user's limit, else the total, else it
-- opens); and the guard then stands for these streams, where each release closes one.
pub guard-Tracks :
    (total per_user : ℕ) (cs : List Call)
    → let g = new_stream_guard total per_user in
      (answers g cs ≡ answers_spec g.max_total g.max_per_user [] cs)
      × Tracks (run g cs) (run_spec g.max_total g.max_per_user [] cs)
guard-Tracks total per_user cs =
    let g = new_stream_guard total per_user in
    (
      answers-Tracks g.max_total g.max_per_user g [] cs refl refl (new-Tracks total per_user),
      run-Tracks g.max_total g.max_per_user g [] cs refl refl (new-Tracks total per_user),
    )

-- After every history of calls no more streams are counted than the limit, in all and for any one
-- user; and the limits are the configured ones, raised to 1, the user's cut to the total.
pub guard_limits :
    (total per_user : ℕ) (cs : List Call)
    → let g = run (new_stream_guard total per_user) cs in
      (g.total ≤ max total 1)
      × ((u : Text) → count_at u g.inflight ≤ min (max per_user 1) (max total 1))
unfolding new_stream_guard count
guard_limits total per_user cs =
    let g = new_stream_guard total per_user in
    let (_, t) = guard-Tracks total per_user cs in
    let (few, each) =
      spec_bounded g.max_total g.max_per_user [] cs (omega arith) (λ u. omega arith) in
    (ground (arith, t.all, few), λ u. ground (arith, t.counts u, each u))
