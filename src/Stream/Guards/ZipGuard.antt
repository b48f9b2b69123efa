-- ===== src/Stream/Guards/ZipGuard.antt =====
-- zipGuard: at most `max` archive downloads of a named user at once.
use torrin.Prelude.{
  ℕ, ◌+◌, ◌-◌, ◌≤◌, ◌<◌, ◌≡◌, Bool, true, false, ◌||◌, List, [], ◌∷◌, if◌then◌else◌, leb, ◌==◌,
  Bool-cases, inl, inr, arith,
}
use torrin.Prelude.Text.{Text, same, same_iff}
use torrin.Prelude.Dict.{put, del, DistinctKeys, put-DistinctKeys, del-DistinctKeys}
use torrin.Prelude.Counts.{count_at, put_count, del_count}
use torrin.Prelude.Bag.{count, erase, count-cons, count-erase}

abbrev pub max_zips_per_user : ℕ
max_zips_per_user = 2

pub record ZipGuard : Type 0 where
  pub inflight : List (Text × ℕ)
  pub limit : ℕ

unfoldable pub new_zip_guard : ℕ → ZipGuard
new_zip_guard limit = record { inflight = []; limit = limit }

unfoldable pub acquire : ZipGuard → Text → ZipGuard × Bool
acquire g user =
    if same user [] || g.limit == 0
    then (g, true)
    else if leb g.limit (count_at user g.inflight)
    then (g, false)
    else (record g { inflight = put user (count_at user g.inflight + 1) g.inflight }, true)

-- A count below 0 stands for 0: either is deleted.
unfoldable pub release : ZipGuard → Text → ZipGuard
release g user =
    if same user [] || g.limit == 0
    then g
    else let n = count_at user g.inflight - 1 in
      record g { inflight = if n == 0 then del user g.inflight else put user n g.inflight }

pub data Call : Type 0 where
  begin_zip : Text → Call
  end_zip : Text → Call

unfoldable pub step : ZipGuard → Call → ZipGuard
step g (begin_zip u) = (acquire g u).0
step g (end_zip u) = release g u

unfoldable pub run : ZipGuard → List Call → ZipGuard
unfolding step
run g [] = g
run g (c ∷ cs) = run (step g c) cs

-- The downloads of named users that are under way, by what the calls are to do.
abbrev pub step_spec : ℕ → List Text → Call → List Text
step_spec n held (begin_zip u) = if same u [] || leb n (count u held) then held else u ∷ held
step_spec n held (end_zip u) = erase u held

unfoldable pub run_spec : ℕ → List Text → List Call → List Text
run_spec n held [] = held
run_spec n held (c ∷ cs) = run_spec n (step_spec n held c) cs

pub record Tracks (g : ZipGuard) (n : ℕ) (held : List Text) : Type 0 where
  pub limit : g.limit ≡ n
  pub keys : DistinctKeys g.inflight
  pub counts : (u : Text) → count_at u g.inflight ≡ count u held
  pub within : (u : Text) → count u held ≤ n
  pub named : count [] held ≡ 0

acquire-Tracks :
    (g : ZipGuard) (n : ℕ) (held : List Text) (u : Text)
    → 0 < n
    → Tracks g n held
    → Tracks (acquire g u).0 n (step_spec n held (begin_zip u))
unfolding acquire
acquire-Tracks g n held u pos t = elim (Bool-cases (same u [])) [
  | inl anonymous ↦ rw (anonymous, acquire) t
  | inr user ↦
      let on : (g.limit == 0) ≡ false = ground (arith, t.limit) in
      elim (Bool-cases (leb g.limit (count_at u g.inflight))) [
        | inl full ↦
            let full' : leb n (count u held) ≡ true = ground (arith, t.limit, t.counts u) in
            rw (user, on, full, full', acquire) t
        | inr free ↦
            let free' : leb n (count u held) ≡ false = ground (arith, t.limit, t.counts u) in
            rw (user, on, free, free', acquire)
              (record {
                limit = t.limit;
                keys = put-DistinctKeys u (count_at u g.inflight + 1) g.inflight t.keys;
                counts = λ v. ground (
                  arith,
                  put_count v u (count_at u g.inflight + 1) g.inflight,
                  count-cons v u held,
                  same_iff u v,
                  t.counts v,
                  t.counts u,
                );
                within = λ v. ground (arith, count-cons v u held, same_iff u v, t.within v);
                named = ground (arith, count-cons [] u held, t.named);
              })
      ]
]

release-Tracks :
    (g : ZipGuard) (n : ℕ) (held : List Text) (u : Text)
    → 0 < n
    → Tracks g n held
    → Tracks (release g u) n (erase u held)
unfolding release
release-Tracks g n held u pos t = elim (Bool-cases (same u [])) [
  | inl anonymous ↦
      let e : u ≡ [] = (same_iff u []).0 anonymous in
      rw (anonymous, release)
        (record {
          limit = t.limit;
          keys = t.keys;
          counts = λ v. ground (arith, e, t.counts v, count-erase v u held, same_iff u v, t.named);
          within = λ v. ground (arith, count-erase v u held, t.within v);
          named = ground (arith, count-erase [] u held, t.named);
        })
  | inr user ↦
      let on : (g.limit == 0) ≡ false = ground (arith, t.limit) in
      elim (Bool-cases (count_at u g.inflight - 1 == 0)) [
        | inl last ↦
            rw (user, on, last, release)
              (record {
                limit = t.limit;
                keys = del-DistinctKeys u g.inflight t.keys;
                counts = λ v. ground (
                  arith,
                  del_count v u g.inflight t.keys,
                  count-erase v u held,
                  same_iff u v,
                  t.counts v,
                  t.counts u,
                );
                within = λ v. ground (arith, count-erase v u held, t.within v);
                named = ground (arith, count-erase [] u held, t.named);
              })
        | inr more ↦
            rw (user, on, more, release)
              (record {
                limit = t.limit;
                keys = put-DistinctKeys u (count_at u g.inflight - 1) g.inflight t.keys;
                counts = λ v. ground (
                  arith,
                  put_count v u (count_at u g.inflight - 1) g.inflight,
                  count-erase v u held,
                  same_iff u v,
                  t.counts v,
                  t.counts u,
                );
                within = λ v. ground (arith, count-erase v u held, t.within v);
                named = ground (arith, count-erase [] u held, t.named);
              })
      ]
]

step-Tracks :
    (g : ZipGuard) (n : ℕ) (held : List Text) (c : Call)
    → 0 < n
    → Tracks g n held
    → Tracks (step g c) n (step_spec n held c)
unfolding step
step-Tracks g n held (begin_zip u) pos t = acquire-Tracks g n held u pos t
step-Tracks g n held (end_zip u) pos t = release-Tracks g n held u pos t

-- From a guard that stands for some downloads, every history of calls leads to a guard that
-- stands for the downloads under way: each call begins or refuses one as it is to, and each end
-- takes one off. No user has more than the limit, and nobody without a name is counted.
pub zip_guard-Tracks :
    (g : ZipGuard) (n : ℕ) (held : List Text) (cs : List Call)
    → 0 < n
    → Tracks g n held
    → Tracks (run g cs) n (run_spec n held cs)
unfolding run run_spec
zip_guard-Tracks g n held [] pos t = t
zip_guard-Tracks g n held (c ∷ cs) pos t =
    zip_guard-Tracks (step g c) n (step_spec n held c) cs pos (step-Tracks g n held c pos t)
