-- ===== src/Cluster/Dispatch.antt =====
-- shared/cluster/dispatch.go. The environment, the free disk, the nodes' status and the sizes that
-- the jobs repository sums are arguments; `none` is an answer with `ok` false or an error. The float
-- that a capacity is read with is the argument `scale`: of a number's text and a factor.
use torrin.Prelude.{
  ℕ, ◌++◌, ◌^◌, Bool, true, false, not, ◌&&◌, ◌||◌, Option, none, some, List, [], ◌∷◌,
  if◌then◌else◌, length, ◌==◌, take, ◌-◌,
}
use torrin.Prelude.Int.{ℤ, pos, ◌+ℤ◌, ◌-ℤ◌, ltb_ℤ}
use torrin.Prelude.Text.{Text, bytes, same, trim_space, to_upper, has_suffix}
use torrin.Prelude.Parse.{cut_byte}

pub record Env : Type 0 where
  pub primary_node : Text
  pub cluster_nodes : Text
  pub node2_id : Text
  pub store_min_free_bytes : ℤ
  pub eviction_cap_bytes : ℤ
  pub disk_free : Option ℤ
  pub scale : Text → ℕ → ℤ

pub record Sizer : Type 0 where
  pub total_cached_size : Text → Option ℤ
  pub in_flight_size : Text → Option ℤ

pub record Statuser : Type 0 where
  pub free : Text → Option ℤ
  pub min_free : Text → Option ℤ

pub record NodeCap : Type 0 where
  pub id : Text
  pub cap : ℤ

unfoldable pub portable : Text → Bool
portable source =
    same source (bytes "torrent")
    || same source (bytes "usenet")
    || same source (bytes "hoster")
    || same source (bytes "ytdlp")
    || same source (bytes "scenerls")
    || same source (bytes "hdencode")
    || same source (bytes "telegram")

-- strings.TrimSuffix, of a text that ends so
abbrev trim_end : ℕ → Text → Text
trim_end n s = take (length s - n) s

unfoldable pub parse_cap : Env → Text → ℤ
parse_cap env s =
    let s = to_upper (trim_space s) in
    if has_suffix s (bytes "TB")
    then env.scale (trim_space (trim_end 2 s)) (10 ^ 12)
    else if has_suffix s (bytes "GB")
    then env.scale (trim_space (trim_end 2 s)) (10 ^ 9)
    else if has_suffix s (bytes "T")
    then env.scale (trim_space (trim_end 1 s)) (10 ^ 12)
    else if has_suffix s (bytes "G")
    then env.scale (trim_space (trim_end 1 s)) (10 ^ 9)
    else env.scale (trim_space s) 1

-- strings.Split at commas
abbrev pub split_from : Text → Text → List Text
split_from word [] = word ∷ []
split_from word (c ∷ s) =
    let next = split_from [] s in
    let same_word = split_from (word ++ (c ∷ [])) s in if c == b',' then word ∷ next else same_word

-- strings.Cut at the first colon
abbrev cut_colon : Text → Text × Text
cut_colon entry = elim (cut_byte b':' entry) [ none ↦ (entry, []) | some parts ↦ parts ]

-- One part of CLUSTER_NODES.
unfoldable pub node_of : Env → Text → List NodeCap
node_of env word =
    let entry = trim_space word in
    let (id, cap) = cut_colon entry in
    let id = trim_space id in
    if length id == 0 then [] else record { id = id; cap = parse_cap env cap } ∷ []

abbrev pub nodes_of : Env → List Text → List NodeCap
nodes_of env [] = []
nodes_of env (w ∷ ws) = node_of env w ++ nodes_of env ws

unfoldable pub overflow_nodes : Env → List NodeCap
overflow_nodes env =
    if length env.cluster_nodes == 0
    then (if length env.node2_id == 0 then [] else record { id = env.node2_id; cap = pos 0 } ∷ [])
    else nodes_of env (split_from [] env.cluster_nodes)

abbrev pub other_ids : Text → List NodeCap → List Text
other_ids primary [] = []
other_ids primary (n ∷ ns) =
    let rest = other_ids primary ns in if same n.id primary then rest else n.id ∷ rest

unfoldable pub ordered_nodes : Env → List Text
ordered_nodes env = env.primary_node ∷ other_ids env.primary_node (overflow_nodes env)

abbrev pub floor_of : Env → Statuser → Text → ℤ
floor_of env st id = elim (st.min_free id) [ none ↦ env.store_min_free_bytes | some f ↦ f ]

-- What is free at a node beside the reservations, and the floor there.
unfoldable pub effective_free : Env → Sizer → Statuser → Text → Option (ℤ × ℤ)
effective_free env sizer st id = elim (st.free id) [
  | none ↦ none
  | some free ↦
      let floor = floor_of env st id in
      elim (sizer.in_flight_size id) [
        | none ↦ none
        | some reserved ↦ some (free -ℤ reserved, floor)
      ]
]

abbrev pub has_room : ℤ → ℤ × ℤ → Bool
has_room size_hint (eff, floor) = not (ltb_ℤ (eff -ℤ size_hint) floor)

-- The loop of `targetByFree`, with the best node so far.
unfoldable pub free_loop : Env → Sizer → Statuser → ℤ → List Text → Option (Text × ℤ) → Option Text
free_loop env sizer st size_hint [] none = none
free_loop env sizer st size_hint [] (some (best, best_free)) = some best
free_loop env sizer st size_hint (id ∷ ids) best = elim (effective_free env sizer st id) [
  | none ↦ free_loop env sizer st size_hint ids best
  | some (eff, floor) ↦ elim (has_room size_hint (eff, floor)) [
    | true ↦ some id
    | false ↦ elim best [
      | none ↦ free_loop env sizer st size_hint ids (some (id, eff))
      | some (b, best_free) ↦ elim (ltb_ℤ best_free eff) [
        | true ↦ free_loop env sizer st size_hint ids (some (id, eff))
        | false ↦ free_loop env sizer st size_hint ids (some (b, best_free))
      ]
    ]
  ]
]

-- There is no statuser where none was set.
unfoldable pub target_by_free : Env → Sizer → Option Statuser → ℤ → Option Text
target_by_free env sizer none size_hint = none
target_by_free env sizer (some st) size_hint =
    free_loop env sizer st size_hint (ordered_nodes env) none

unfoldable pub node_used : Sizer → Text → Option ℤ
node_used sizer node = elim (sizer.total_cached_size node) [
  | none ↦ none
  | some cached ↦ elim (sizer.in_flight_size node) [
    | none ↦ none
    | some in_flight ↦ some (cached +ℤ in_flight)
  ]
]

unfoldable pub disk_above_floor : Env → Bool
disk_above_floor env =
    if not (ltb_ℤ (pos 0) env.store_min_free_bytes) then true else (elim env.disk_free [
      | none ↦ true
      | some free ↦ not (ltb_ℤ free env.store_min_free_bytes)
    ])

unfoldable pub local_has_room : Env → Sizer → ℤ → ℤ → Bool
local_has_room env sizer cap1 size_hint =
    if not (disk_above_floor env) then false else (elim (node_used sizer env.primary_node) [
      | none ↦ true
      | some used ↦ ltb_ℤ (used +ℤ size_hint) cap1
    ])

-- The test of the loop of `targetByCap`.
unfoldable pub takes : Env → Sizer → ℤ → NodeCap → Bool
takes env sizer size_hint n = not (same n.id env.primary_node) && (elim (node_used sizer n.id) [
  | none ↦ false
  | some used ↦ not (ltb_ℤ (pos 0) n.cap) || ltb_ℤ (used +ℤ size_hint) n.cap
])

unfoldable pub cap_loop : Env → Sizer → ℤ → List NodeCap → Text
cap_loop env sizer size_hint [] = env.primary_node
cap_loop env sizer size_hint (n ∷ ns) =
    let rest = cap_loop env sizer size_hint ns in if takes env sizer size_hint n then n.id else rest

unfoldable pub target_by_cap : Env → Sizer → ℤ → Text
target_by_cap env sizer size_hint =
    let nodes = overflow_nodes env in
    let cap1 = env.eviction_cap_bytes in
    if length nodes == 0
    then env.primary_node
    else if not (ltb_ℤ (pos 0) cap1)
    then env.primary_node
    else if local_has_room env sizer cap1 size_hint
    then env.primary_node
    else cap_loop env sizer size_hint nodes

unfoldable pub target_node : Env → Sizer → Option Statuser → Text → ℤ → Text
target_node env sizer statuser source size_hint =
    if not (portable source)
    then env.primary_node
    else (elim (target_by_free env sizer statuser size_hint) [
      | some n ↦ n
      | none ↦ target_by_cap env sizer size_hint
    ])
