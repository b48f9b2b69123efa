-- ===== src/Stream/Guards/StreamGuard.antt =====
-- streamGuard: at most so many streams in all, and at most so many of one user.
pub mod Books
pub mod History
use torrin.Prelude.{
  ℕ, zero, suc, ◌+◌, ◌-◌, ◌≤◌, ◌<◌, ◌≡◌, ◌⊎◌, inl, inr, refl, ◌∙◌, Bool, true, false, Option, none,
  some, List, [], ◌∷◌, ◌++◌, if◌then◌else◌, ltb, leb, ◌==◌, length, Bool-cases, arith,
}
use torrin.Prelude.Text.{Text, bytes, same, same_iff, same_self}
use torrin.Prelude.Dict.{
  get, put, del, DistinctKeys, get-put, get-del, put-DistinctKeys, del-DistinctKeys,
}
use torrin.Prelude.Counts.{count_at}
use torrin.Prelude.Bag.{count, erase, count-cons, count-erase, length-erase, count-le-length}

pub data StreamLimit : Type 0 where
  stream_allowed stream_limit_user stream_limit_total : StreamLimit

pub record StreamGuard : Type 0 where
  pub inflight : List (Text × ℕ)
  pub total : ℕ
  pub max_total : ℕ
  pub max_per_user : ℕ

unfoldable pub new_stream_guard : ℕ → ℕ → StreamGuard
new_stream_guard total per_user =
    let total' = if ltb total 1 then 1 else total in
    let per_user' = if ltb per_user 1 then 1 else per_user in
    record {
      inflight = [];
      total = 0;
      max_total = total';
      max_per_user = if ltb total' per_user' then total' else per_user';
    }

unfoldable pub acquire : StreamGuard → Text → StreamGuard × StreamLimit
acquire g identity =
    if leb g.max_per_user (count_at identity g.inflight)
    then (g, stream_limit_user)
    else if leb g.max_total g.total
    then (g, stream_limit_total)
    else (
      record g {
        inflight = put identity (count_at identity g.inflight + 1) g.inflight;
        total = g.total + 1;
      },
      stream_allowed,
    )

unfoldable pub release : StreamGuard → Text → StreamGuard
release g identity =
    let n = count_at identity g.inflight in
    if n == 0 then g else record g {
      inflight = if n - 1 == 0 then del identity g.inflight else put identity (n - 1) g.inflight;
      total = g.total - 1;
    }

-- cairnStreamIdentity, from the values of the query: a user, or else the signature of the link.
unfoldable pub cairn_stream_identity : Text → Text → Text
cairn_stream_identity u sig = if same u [] then bytes "legacy:" ++ sig else bytes "user:" ++ u
