-- ===== src/Jobs/Queue/Identity.antt =====
-- When a row is a live row of an account for a hash, and when it holds a slot for one.
use torrin.Prelude.{◌≡◌, ◌≢◌, Bool, true, false, ◌&&◌, [], arith}
use torrin.Prelude.Text.{Text, same, same_iff, to_lower, to_lower-eq_nil, to_lower_nil}
use torrin.Jobs.Model.{Job}
use torrin.Jobs.Table.{holds_slot, is_account, live_match, has_live_user_identity, conflicts}

-- The rows that hold a slot for a hash, whoever owns them.
unfoldable pub holder : Text → Job → Bool
holder hash r = same (to_lower r.info_hash) (to_lower hash) && holds_slot r

-- The hash is stored as `prepare_create` spells it.
abbrev pub IsNormal : Job → Type 0
IsNormal r = to_lower r.info_hash ≡ r.info_hash

pub live-identity :
    (r : Job) (u h : Text)
    → is_account u ≡ true
    → h ≢ []
    → live_match u h r ≡ true
    → has_live_user_identity r ≡ true
unfolding live_match has_live_user_identity
live-identity r u h a n m =
    let e : r.user_id ≡ u = ground (arith, same_iff r.user_id u) in
    let k : same r.info_hash [] ≡ false = ground (
      arith,
      same_iff r.info_hash [],
      same_iff (to_lower r.info_hash) (to_lower h),
      to_lower-eq_nil h,
      to_lower_nil,
      n,
    ) in
    rw (e, a, k) (ground arith)

-- Two live rows of an account for one hash are in conflict.
pub live-conflict :
    (r x : Job) (u h : Text)
    → is_account u ≡ true
    → h ≢ []
    → live_match u h r ≡ true
    → live_match u h x ≡ true
    → conflicts r x ≡ true
unfolding conflicts live_match
live-conflict r x u h a n m k = ground (
  arith,
  live-identity r u h a n m,
  live-identity x u h a n k,
  same_iff r.user_id u,
  same_iff x.user_id u,
  same_iff x.user_id r.user_id,
  same_iff (to_lower r.info_hash) (to_lower h),
  same_iff (to_lower x.info_hash) (to_lower h),
  same_iff (to_lower x.info_hash) (to_lower r.info_hash),
)

pub live_match-eq :
    (u v h k : Text) (x : Job)
    → v ≡ u
    → same (to_lower k) (to_lower h) ≡ true
    → live_match u h x ≡ true
    → live_match v k x ≡ true
unfolding live_match
live_match-eq u v h k x e m p = rw (e, (same_iff (to_lower k) (to_lower h)).0 m) p
