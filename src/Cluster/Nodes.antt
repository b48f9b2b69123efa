-- ===== src/Cluster/Nodes.antt =====
-- The nodes that a job can go to: always one that the configuration names.
use torrin.Prelude.{
  ◌≡◌, refl, sym, ◌∙◌, ◌⊎◌, inl, inr, true, false, Option, none, some, List, [], ◌∷◌, Bool-cases,
  Option-cases, length, ◌==◌, arith,
}
use torrin.Prelude.Int.{ℤ, pos, ltb_ℤ, ◌+ℤ◌}
use torrin.Prelude.Select.{any_of}
use torrin.Prelude.Text.{Text, same, same_self}
use torrin.Cluster.Dispatch.{
  Env, Sizer, Statuser, NodeCap, portable, overflow_nodes, other_ids, ordered_nodes, effective_free,
  has_room, free_loop, target_by_free, node_used, local_has_room, takes, cap_loop, target_by_cap,
  target_node,
}

abbrev pub Listed : List Text → Text → Type 0
Listed ids id = any_of (same id) ids ≡ true

module _ (env : Env) (sizer : Sizer) (size_hint : ℤ) where
  Listed-later : (x : Text) (ids : List Text) (id : Text) → Listed ids id → Listed (x ∷ ids) id
  unfolding any_of
  Listed-later x ids id h = ground (arith, h)

  Listed-here : (ids : List Text) (id : Text) → Listed (id ∷ ids) id
  unfolding any_of
  Listed-here ids id = rw (same_self id) refl

  -- The loop gives a node of the list, or the best so far.
  FromLoop : List Text → Option (Text × ℤ) → Text → Type 0
  FromLoop ids best id = Listed ids id ⊎ ((f : ℤ) × (best ≡ some (id, f)))

  from_later :
      (x : Text) (ids : List Text) (best : Option (Text × ℤ)) (id : Text)
      → FromLoop ids best id
      → FromLoop (x ∷ ids) best id
  unfolding FromLoop
  from_later x ids best id h = elim h [
    | inl later ↦ inl (Listed-later x ids id later)
    | inr b ↦ inr b
  ]

  from_new :
      (x : Text) (e : ℤ) (ids : List Text) (best : Option (Text × ℤ)) (id : Text)
      → FromLoop ids (some (x, e)) id
      → FromLoop (x ∷ ids) best id
  unfolding FromLoop
  from_new x e ids best id h = elim h [
    | inl later ↦ inl (Listed-later x ids id later)
    | inr (f, b) ↦ let here : x ≡ id = ground (arith, b) in inl (rw here (Listed-here ids id))
  ]

  loop-FromLoop :
      (st : Statuser) (ids : List Text) (best : Option (Text × ℤ)) (id : Text)
      → free_loop env sizer st size_hint ids best ≡ some id
      → FromLoop ids best id
  unfolding free_loop FromLoop
  loop-FromLoop st [] none id h = absurd (ground (arith, h))
  loop-FromLoop st [] (some (b, f)) id h = let e : b ≡ id = ground (arith, h) in inr (f, rw e refl)
  loop-FromLoop st (x ∷ ids) best id h = elim (Option-cases (effective_free env sizer st x)) [
    | inl unknown ↦
        let step : free_loop env sizer st size_hint (x ∷ ids) best
            ≡ free_loop env sizer st size_hint ids best =
          rw (unknown, free_loop) refl in
        from_later x ids best id (loop-FromLoop st ids best id (sym step ∙ h))
    | inr ((e, fl), known) ↦ elim (Bool-cases (has_room size_hint (e, fl))) [
      | inl room ↦
          let step : free_loop env sizer st size_hint (x ∷ ids) best ≡ some x =
            rw (known, room, free_loop) refl in
          let here : x ≡ id = ground (arith, step, h) in inl (rw here (Listed-here ids id))
      | inr full ↦ elim (Option-cases best) [
        | inl first ↦
            let step : free_loop env sizer st size_hint (x ∷ ids) best
                ≡ free_loop env sizer st size_hint ids (some (x, e)) =
              rw (known, full, first, free_loop) refl in
            from_new x e ids best id (loop-FromLoop st ids (some (x, e)) id (sym step ∙ h))
        | inr ((b, f), there) ↦ elim (Bool-cases (ltb_ℤ f e)) [
          | inl more ↦
              let step : free_loop env sizer st size_hint (x ∷ ids) best
                  ≡ free_loop env sizer st size_hint ids (some (x, e)) =
                rw (known, full, there, more, free_loop) refl in
              from_new x e ids best id (loop-FromLoop st ids (some (x, e)) id (sym step ∙ h))
          | inr less ↦
              let step : free_loop env sizer st size_hint (x ∷ ids) best
                  ≡ free_loop env sizer st size_hint ids (some (b, f)) =
                rw (known, full, there, less, free_loop) refl in
              rw there (
                from_later x ids (some (b, f)) id
                  (loop-FromLoop st ids (some (b, f)) id (sym step ∙ h)))
        ]
      ]
    ]
  ]

  -- Below its capacity with the job, or without one.
  abbrev pub Accepts : NodeCap → Type 0
  Accepts n =
      (used : ℤ) × (node_used sizer n.id ≡ some used)
      × ((ltb_ℤ (pos 0) n.cap ≡ false) ⊎ (ltb_ℤ (used +ℤ size_hint) n.cap ≡ true))

  takes-Accepts :
      (n : NodeCap)
      → takes env sizer size_hint n ≡ true
      → (same n.id env.primary_node ≡ false) × Accepts n
  unfolding takes
  takes-Accepts n h = elim (Option-cases (node_used sizer n.id)) [
    | inl unknown ↦ absurd (ground (arith, h, unknown))
    | inr (used, known) ↦ elim (Bool-cases (ltb_ℤ (pos 0) n.cap)) [
      | inl capped ↦ (ground (arith, h), (used, known, inr (ground (arith, h, known, capped))))
      | inr free ↦ (ground (arith, h), (used, known, inl free))
    ]
  ]

  Listed-other :
      (n : NodeCap) (ns : List NodeCap) (primary id : Text)
      → Listed (other_ids primary ns) id
      → Listed (other_ids primary (n ∷ ns)) id
  Listed-other n ns primary id h = elim (Bool-cases (same n.id primary)) [
    | inl it ↦ rw (it, other_ids) h
    | inr other ↦ rw (other, other_ids) (Listed-later n.id (other_ids primary ns) id h)
  ]

  cap_loop_cases :
      (ns : List NodeCap)
      → (cap_loop env sizer size_hint ns ≡ env.primary_node)
        ⊎ ((n : NodeCap) × (n.id ≡ cap_loop env sizer size_hint ns)
            × Accepts n
            × Listed (other_ids env.primary_node ns) n.id)
  unfolding cap_loop
  cap_loop_cases [] = inl refl
  cap_loop_cases (n ∷ ns) = elim (Bool-cases (takes env sizer size_hint n)) [
    | inl taken ↦
        let t = takes-Accepts n taken in
        inr (
          n,
          rw (taken, cap_loop) refl,
          t.1,
          rw (t.0, other_ids) (Listed-here (other_ids env.primary_node ns) n.id),
        )
    | inr refused ↦
        let step : cap_loop env sizer size_hint (n ∷ ns) ≡ cap_loop env sizer size_hint ns =
          rw (refused, cap_loop) refl in
        elim (cap_loop_cases ns) [
          | inl none_takes ↦ inl (step ∙ none_takes)
          | inr (m, e, a, l) ↦ inr (m, e ∙ sym step, a, Listed-other n ns env.primary_node m.id l)
        ]
  ]

  -- By capacities a job stays at the primary node, or goes to one that the configuration names, whose
  -- bytes, with those in flight and the job's, are below its capacity if it has one; and that only
  -- where the primary has no room.
  pub target_by_cap-Accepts :
      (target_by_cap env sizer size_hint ≡ env.primary_node)
      ⊎ ((local_has_room env sizer env.eviction_cap_bytes size_hint ≡ false)
          × (n : NodeCap) × (n.id ≡ target_by_cap env sizer size_hint)
          × Listed (ordered_nodes env) n.id
          × Accepts n)
  unfolding target_by_cap ordered_nodes
  target_by_cap-Accepts = elim (Bool-cases (length (overflow_nodes env) == 0)) [
    | inl alone ↦ inl (rw (alone, target_by_cap) refl)
    | inr others ↦ elim (Bool-cases (ltb_ℤ (pos 0) env.eviction_cap_bytes)) [
      | inr uncapped ↦ inl (rw (others, uncapped, target_by_cap) refl)
      | inl capped ↦ elim (Bool-cases (local_has_room env sizer env.eviction_cap_bytes size_hint)) [
        | inl room ↦ inl (rw (others, capped, room, target_by_cap) refl)
        | inr full ↦
            let step : target_by_cap env sizer size_hint
                ≡ cap_loop env sizer size_hint (overflow_nodes env) =
              rw (others, capped, full, target_by_cap) refl in
            elim (cap_loop_cases (overflow_nodes env)) [
              | inl none_takes ↦ inl (step ∙ none_takes)
              | inr (n, e, a, l) ↦ inr (
                full,
                n,
                e ∙ sym step,
                Listed-later env.primary_node (other_ids env.primary_node (overflow_nodes env)) n.id
                    l,
                a,
              )
            ]
      ]
    ]
  ]

  free-Listed :
      (statuser : Option Statuser) (n : Text)
      → target_by_free env sizer statuser size_hint ≡ some n
      → Listed (ordered_nodes env) n
  unfolding target_by_free FromLoop
  free-Listed none n h = absurd (ground (arith, h))
  free-Listed (some st) n h = elim (loop-FromLoop st (ordered_nodes env) none n h) [
    | inl listed ↦ listed
    | inr (f, e) ↦ absurd (ground (arith, e))
  ]

  cap-Listed : Listed (ordered_nodes env) (target_by_cap env sizer size_hint)
  unfolding ordered_nodes
  cap-Listed = elim target_by_cap-Accepts [
    | inl primary ↦
        rw primary (Listed-here (other_ids env.primary_node (overflow_nodes env)) env.primary_node)
    | inr (full, n, e, l, a) ↦ rw (sym e) l
  ]

  -- Whatever the nodes report, the size and the source are, a job goes to a node that is configured.
  pub target_node-Listed :
      (statuser : Option Statuser) (source : Text)
      → Listed (ordered_nodes env) (target_node env sizer statuser source size_hint)
  unfolding target_node ordered_nodes
  target_node-Listed statuser source = elim (Bool-cases (portable source)) [
    | inr bound ↦
        rw (bound, target_node)
          (Listed-here (other_ids env.primary_node (overflow_nodes env)) env.primary_node)
    | inl moves ↦ elim (Option-cases (target_by_free env sizer statuser size_hint)) [
      | inl silent ↦ rw (moves, silent, target_node) cap-Listed
      | inr (n, h) ↦ rw (moves, h, target_node) (free-Listed statuser n h)
    ]
  ]
