-- ===== src/Cluster/Placement.antt =====
-- Where a job goes: the first node with room, else the one with most free.
use torrin.Prelude.{
  ◌≡◌, ◌≢◌, refl, ap, sym, ◌∙◌, ◌⊎◌, inl, inr, Bool, true, false, Option, none, some, List, [], ◌∷◌,
  Bool-cases, Option-cases, arith, All,
}
use torrin.Prelude.Int.{ℤ, ◌≤ℤ◌, ltb_ℤ}
use torrin.Prelude.Text.{Text}
use torrin.Cluster.Dispatch.{
  Env, Sizer, Statuser, ordered_nodes, effective_free, has_room, free_loop, target_by_free,
  portable, target_by_cap, target_node,
}

-- The first node that a test takes.
abbrev pub first_of : (Text → Bool) → List Text → Option Text
first_of p [] = none
first_of p (id ∷ ids) = elim (p id) [ true ↦ some id | false ↦ first_of p ids ]

module _ (env : Env) (sizer : Sizer) (st : Statuser) (size_hint : ℤ) where
  -- A node whose status and reservations are known, with room for the job above its floor.
  abbrev pub fits : Text → Bool
  fits id = elim (effective_free env sizer st id) [ none ↦ false | some e ↦ has_room size_hint e ]

  -- What is free is at most this, where it is known.
  abbrev pub AtMost : ℤ → Text → Type 0
  AtMost free id = elim (effective_free env sizer st id) [
    | none ↦ Unit {0}
    | some (e, floor) ↦ e ≤ℤ free
  ]

  -- The first node that fits; or, if none does, one with no less free than any that reports.
  abbrev pub Placed : List Text → Text → Type 0
  Placed ids id =
      (first_of fits ids ≡ some id)
      ⊎ ((first_of fits ids ≡ none)
          × (free : ℤ) × (floor : ℤ) × (effective_free env sizer st id ≡ some (free, floor))
          × All (AtMost free) ids)

  -- The first node that fits; or, if none does, one that has at least `low` and no less than any.
  Found : ℤ → List Text → Text → Type 0
  Found low ids id =
      (first_of fits ids ≡ some id)
      ⊎ ((first_of fits ids ≡ none)
          × (free : ℤ) × (floor : ℤ) × (effective_free env sizer st id ≡ some (free, floor))
          × (low ≤ℤ free)
          × All (AtMost free) ids)

  Found-skip :
      (low low' : ℤ) (x : Text) (ids : List Text) (id : Text)
      → fits x ≡ false
      → low ≤ℤ low'
      → ((free : ℤ) → low' ≤ℤ free → AtMost free x)
      → Found low' ids id
      → Found low (x ∷ ids) id
  unfolding Found
  Found-skip low low' x ids id without le most f = elim f [
    | inl first ↦ inl (rw (without, first_of) first)
    | inr (all_no, free, floor, e, l, a) ↦
        inr (rw (without, first_of) all_no, free, floor, e, omega (arith, le, l), (most free l, a))
  ]

  -- A best node that fits is the first.
  Found-first : (low : ℤ) (x : Text) (ids : List Text) → fits x ≡ true → Found low (x ∷ ids) x
  unfolding Found
  Found-first low x ids room = inl (rw (room, first_of) refl)

  loop_best :
      (ids : List Text) (b id : Text) (f floor : ℤ)
      → effective_free env sizer st b ≡ some (f, floor)
      → free_loop env sizer st size_hint ids (some (b, f)) ≡ some id
      → Found f ids id
  unfolding Found free_loop
  loop_best [] b id f floor k h =
      let same_node : b ≡ id = ground (arith, h) in
      inr (refl, f, floor, rw (sym same_node) k, omega arith, tt)
  loop_best (x ∷ ids) b id f floor k h = elim (Option-cases (effective_free env sizer st x)) [
    | inl unknown ↦
        let step : free_loop env sizer st size_hint (x ∷ ids) (some (b, f))
            ≡ free_loop env sizer st size_hint ids (some (b, f)) =
          rw (unknown, free_loop) refl in
        Found-skip f f x ids id (rw (unknown, fits) refl) (omega arith)
          (λ free l. rw (unknown, AtMost) tt) (loop_best ids b id f floor k (sym step ∙ h))
    | inr ((e, fl), known) ↦ elim (Bool-cases (has_room size_hint (e, fl))) [
      | inl room ↦
          let step : free_loop env sizer st size_hint (x ∷ ids) (some (b, f)) ≡ some x =
            rw (known, room, free_loop) refl in
          let here : x ≡ id = ground (arith, step, h) in
          rw (sym here) (Found-first f x ids (rw (known, fits) room))
      | inr full ↦ elim (Bool-cases (ltb_ℤ f e)) [
        | inl more ↦
            let step : free_loop env sizer st size_hint (x ∷ ids) (some (b, f))
                ≡ free_loop env sizer st size_hint ids (some (x, e)) =
              rw (known, full, more, free_loop) refl in
            Found-skip f e x ids id (rw (known, fits) full) (ground (arith, more))
              (λ free l. rw (known, AtMost) (omega (arith, l)))
              (loop_best ids x id e fl known (sym step ∙ h))
        | inr less ↦
            let step : free_loop env sizer st size_hint (x ∷ ids) (some (b, f))
                ≡ free_loop env sizer st size_hint ids (some (b, f)) =
              rw (known, full, less, free_loop) refl in
            Found-skip f f x ids id (rw (known, fits) full) (omega arith)
              (λ free l. rw (known, AtMost) (ground (arith, l, less)))
              (loop_best ids b id f floor k (sym step ∙ h))
      ]
    ]
  ]

  -- Neither what is free at the node nor what is reserved there can be missing for it to count.
  abbrev pub Silent : Text → Type 0
  Silent id = effective_free env sizer st id ≡ none

  best_answers :
      (ids : List Text) (b : Text) (f : ℤ)
      → free_loop env sizer st size_hint ids (some (b, f)) ≢ none
  unfolding free_loop
  best_answers [] b f h = ground (arith, h)
  best_answers (x ∷ ids) b f h = elim (Option-cases (effective_free env sizer st x)) [
    | inl unknown ↦ best_answers ids b f (rw (unknown, free_loop) at h)
    | inr ((e, fl), known) ↦ elim (Bool-cases (has_room size_hint (e, fl))) [
      | inl room ↦ absurd (ground (arith, h))
      | inr full ↦ elim (Bool-cases (ltb_ℤ f e)) [
        | inl more ↦ best_answers ids x e (rw (known, full, more, free_loop) at h)
        | inr less ↦ best_answers ids b f (rw (known, full, less, free_loop) at h)
      ]
    ]
  ]

  -- Without an answer no node reports.
  loop-Silent :
      (ids : List Text) → free_loop env sizer st size_hint ids none ≡ none → All Silent ids
  unfolding free_loop
  loop-Silent [] h = tt
  loop-Silent (x ∷ ids) h = elim (Option-cases (effective_free env sizer st x)) [
    | inl unknown ↦ (unknown, loop-Silent ids (rw (unknown, free_loop) at h))
    | inr ((e, fl), known) ↦ elim (Bool-cases (has_room size_hint (e, fl))) [
      | inl room ↦ absurd (ground (arith, h))
      | inr full ↦ absurd (best_answers ids x e (rw (known, full, free_loop) at h))
    ]
  ]

  loop_start :
      (ids : List Text) (id : Text)
      → free_loop env sizer st size_hint ids none ≡ some id
      → Placed ids id
  unfolding free_loop Found
  loop_start [] id h = absurd (ground (arith, h))
  loop_start (x ∷ ids) id h = elim (Option-cases (effective_free env sizer st x)) [
    | inl unknown ↦
        let step : free_loop env sizer st size_hint (x ∷ ids) none
            ≡ free_loop env sizer st size_hint ids none =
          rw (unknown, free_loop) refl in
        elim (loop_start ids id (sym step ∙ h)) [
          | inl first ↦ inl (rw (unknown, first_of) first)
          | inr (none_fits, free, floor, e, a) ↦
              inr (rw (unknown, first_of) none_fits, free, floor, e, (rw (unknown, AtMost) tt, a))
        ]
    | inr ((e, fl), known) ↦ elim (Bool-cases (has_room size_hint (e, fl))) [
      | inl room ↦
          let step : free_loop env sizer st size_hint (x ∷ ids) none ≡ some x =
            rw (known, room, free_loop) refl in
          let here : x ≡ id = ground (arith, step, h) in
          inl (rw (known, first_of) (rw (room, first_of) (ap some here)))
      | inr full ↦
          let step : free_loop env sizer st size_hint (x ∷ ids) none
              ≡ free_loop env sizer st size_hint ids (some (x, e)) =
            rw (known, full, free_loop) refl in
          elim (loop_best ids x id e fl known (sym step ∙ h)) [
            | inl first ↦ inl (rw (known, first_of) (rw (full, first_of) first))
            | inr (none_fits, free, floor, k, l, a) ↦ inr (
              rw (known, first_of) (rw (full, first_of) none_fits),
              free,
              floor,
              k,
              (rw (known, AtMost) (omega (arith, l)), a),
            )
          ]
    ]
  ]

  -- Where a job of a source goes.
  abbrev pub Goes : Text → Text → Type 0
  Goes source id =
      ((portable source ≡ false) × (id ≡ env.primary_node))
      ⊎ ((portable source ≡ true) × Placed (ordered_nodes env) id)
      ⊎ ((portable source ≡ true)
          × All Silent (ordered_nodes env)
          × (id ≡ target_by_cap env sizer size_hint))

  -- Where the status of the nodes is at hand: a job whose source is not portable goes to the primary. Any other goes to the first node, the
  -- primary before the others in their order, where the free bytes, less what is reserved and the
  -- job's size, reach the floor; if some node reports but none has that room, to one that reports and
  -- has at least as much free as every other; and only if no node reports, to the one that is chosen
  -- by the capacities.
  pub target_node-Goes :
      (source : Text) → Goes source (target_node env sizer (some st) source size_hint)
  unfolding target_node target_by_free
  target_node-Goes source = elim (Bool-cases (portable source)) [
    | inr bound ↦ inl (bound, rw (bound, target_node) refl)
    | inl free ↦
        inr (elim (Option-cases (free_loop env sizer st size_hint (ordered_nodes env) none)) [
          | inl without ↦
              inr (
                free,
                loop-Silent (ordered_nodes env) without,
                rw (free, without, target_node) refl,
              )
          | inr (id, found) ↦
              inl (free, rw (free, found, target_node) (loop_start (ordered_nodes env) id found))
        ])
  ]
