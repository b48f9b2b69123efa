-- ===== src/Stream/Guards/StreamGuard/Books.antt =====
-- The guard keeps the books of what is open.
use torrin.Prelude.{
  ℕ, ◌+◌, ◌-◌, ◌≡◌, inl, inr, refl, true, false, List, [], ◌∷◌, if◌then◌else◌, leb, ◌==◌, length,
  Bool-cases, arith,
}
use torrin.Prelude.Text.{Text, same_iff}
use torrin.Prelude.Dict.{put, DistinctKeys, put-DistinctKeys, del-DistinctKeys}
use torrin.Prelude.Bag.{count, erase, count-cons, count-erase, length-erase}
use torrin.Prelude.Counts.{count_at, put_count, del_count}
use torrin.Stream.Guards.StreamGuard.{
  StreamGuard, StreamLimit, stream_allowed, stream_limit_user, stream_limit_total, acquire, release,
}

-- The guard stands for the streams that are open, named by their identities.
pub record Tracks (g : StreamGuard) (held : List Text) : Type 0 where
  pub keys : DistinctKeys g.inflight
  pub counts : (u : Text) → count_at u g.inflight ≡ count u held
  pub all : g.total ≡ length held

-- What the guard promises, said of the streams that are open: refuse a user who has as many as
-- allowed, then anybody if all are taken, else open one more.
abbrev pub acquire_spec : ℕ → ℕ → Text → List Text → List Text × StreamLimit
acquire_spec max_total max_per_user id held =
    if leb max_per_user (count id held)
    then (held, stream_limit_user)
    else if leb max_total (length held)
    then (held, stream_limit_total)
    else (id ∷ held, stream_allowed)

-- One stream more.
Tracks-open :
    (g : StreamGuard) (held : List Text) (id : Text)
    → Tracks g held
    → Tracks
        (record g {
          inflight = put id (count_at id g.inflight + 1) g.inflight;
          total = g.total + 1;
        })
        (id ∷ held)
Tracks-open g held id t = record {
  keys = put-DistinctKeys id (count_at id g.inflight + 1) g.inflight t.keys;
  counts = λ u. ground (
    arith,
    put_count u id (count_at id g.inflight + 1) g.inflight,
    count-cons u id held,
    same_iff id u,
    t.counts u,
    t.counts id,
  );
  all = omega (arith, t.all);
}

-- `acquire` decides as promised, and keeps the books.
pub acquire-Tracks :
    (g : StreamGuard) (held : List Text) (id : Text)
    → Tracks g held
    → let (g', d) = acquire g id in
      let (held', d') = acquire_spec g.max_total g.max_per_user id held in
      (d ≡ d') × Tracks g' held'
unfolding acquire
acquire-Tracks g held id t = elim (Bool-cases (leb g.max_per_user (count_at id g.inflight))) [
  | inl full ↦
      let full' : leb g.max_per_user (count id held) ≡ true = ground (arith, t.counts id) in
      rw (full, full') (refl, t)
  | inr fits ↦
      let fits' : leb g.max_per_user (count id held) ≡ false = ground (arith, t.counts id) in
      elim (Bool-cases (leb g.max_total g.total)) [
        | inl taken ↦
            let taken' : leb g.max_total (length held) ≡ true = ground (arith, t.all) in
            rw (fits, fits', taken, taken') (refl, t)
        | inr free ↦
            let free' : leb g.max_total (length held) ≡ false = ground (arith, t.all) in
            rw (fits, fits', free, free') (refl, Tracks-open g held id t)
      ]
]

length-erase_absent : (k : Text) (l : List Text) → count k l ≡ 0 → length (erase k l) ≡ length l
unfolding count erase
length-erase_absent k [] h = refl
length-erase_absent k (j ∷ l) h = ground (arith, length-erase_absent k l)

-- `release` closes one stream of the identity, if it has one.
pub release-Tracks :
    (g : StreamGuard) (held : List Text) (id : Text)
    → Tracks g held
    → Tracks (release g id) (erase id held)
unfolding release
release-Tracks g held id t = elim (Bool-cases (count_at id g.inflight == 0)) [
  | inl idle ↦
      rw (idle, release)
        (record {
          keys = t.keys;
          counts =
              λ u. ground (arith, t.counts u, t.counts id, count-erase u id held, same_iff id u);
          all = ground (arith, t.all, length-erase_absent id held, t.counts id);
        })
  | inr some_open ↦ elim (Bool-cases (count_at id g.inflight - 1 == 0)) [
    | inl last ↦
        rw (some_open, last, release)
          (record {
            keys = del-DistinctKeys id g.inflight t.keys;
            counts = λ u. ground (
              arith,
              t.counts u,
              t.counts id,
              count-erase u id held,
              del_count u id g.inflight t.keys,
              same_iff id u,
            );
            all = ground (arith, t.all, length-erase id held, t.counts id);
          })
    | inr more ↦
        rw (some_open, more, release)
          (record {
            keys = put-DistinctKeys id (count_at id g.inflight - 1) g.inflight t.keys;
            counts = λ u. ground (
              arith,
              t.counts u,
              t.counts id,
              count-erase u id held,
              put_count u id (count_at id g.inflight - 1) g.inflight,
              same_iff id u,
            );
            all = ground (arith, t.all, length-erase id held, t.counts id);
          })
  ]
]
