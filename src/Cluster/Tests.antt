-- ===== src/Cluster/Tests.antt =====
-- A cluster of a primary node and two others, by their reports and by their capacities.
use torrin.Prelude.{ℕ, ◌*◌, ◌≡◌, refl, none, some, [], if◌then◌else◌}
use torrin.Prelude.Int.{ℤ, pos, ◌+ℤ◌, ◌-ℤ◌}
use torrin.Prelude.Text.{Text, bytes, same, trim_space, to_upper, has_suffix}
use torrin.Prelude.Parse.{cut_byte, parse_digits}
use torrin.Cluster.Dispatch.{
  Env, free_loop, node_of, disk_above_floor, node_used, cap_loop, takes, parse_cap, Sizer, Statuser,
  ordered_nodes, overflow_nodes, effective_free, target_by_free, target_by_cap, target_node,
  local_has_room,
}
use torrin.Cluster.Placement.{Goes, target_node-Goes}

abbrev numbers : Text → ℕ → ℤ
numbers t factor = elim (parse_digits t) [ none ↦ pos 0 | some n ↦ pos (n * factor) ]

abbrev env : Env
env = record {
  primary_node = bytes "box1";
  cluster_nodes = bytes "box2:2000, box3:1g";
  node2_id = [];
  store_min_free_bytes = pos 50;
  eviction_cap_bytes = pos 1000;
  disk_free = none;
  scale = numbers;
}

abbrev sizer : Sizer
sizer = record { total_cached_size = λ id. some (pos 950); in_flight_size = λ id. some (pos 10) }

-- The primary is nearly full, box2 does not report, box3 has most.
abbrev statuser : Statuser
statuser = record {
  free = λ id.
      if same id (bytes "box1")
      then some (pos 60)
      else if same id (bytes "box2")
      then none
      else some (pos 500);
  min_free = λ id. none;
}

target : target_by_free env sizer (some statuser) (pos 2000) ≡ some (bytes "box3")
unfolding target_by_free ordered_nodes free_loop effective_free same ◌-ℤ◌ overflow_nodes node_of
    trim_space cut_byte
target = refl

target_node-Goes_example :
    Goes env sizer statuser
      (pos 2000)
      (bytes "usenet")
      (target_node env sizer (some statuser) (bytes "usenet") (pos 2000))
target_node-Goes_example = target_node-Goes env sizer statuser (pos 2000) (bytes "usenet")

by_capacity : target_by_cap env sizer (pos 100) ≡ bytes "box2"
unfolding target_by_cap overflow_nodes node_of trim_space cut_byte local_has_room disk_above_floor
    node_used ◌+ℤ◌ cap_loop takes same parse_cap to_upper has_suffix parse_digits
by_capacity = refl
