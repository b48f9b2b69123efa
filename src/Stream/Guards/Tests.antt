-- ===== src/Stream/Guards/Tests.antt =====
-- Runs of the two guards, and the theorems at them.
use torrin.Prelude.{◌≤◌, ◌≡◌, refl, List, [], ◌∷◌, min, max, arith}
use torrin.Prelude.Text.{Text, bytes}
use torrin.Prelude.Dict.{get}
use torrin.Prelude.Counts.{count_at}
use torrin.Prelude.Bag.{count}
use torrin.Stream.Guards.StreamGuard
use torrin.Stream.Guards.StreamGuard.Books
use torrin.Stream.Guards.StreamGuard.History
use torrin.Stream.Guards.ZipGuard

abbrev day : List History.Call
day =
    History.open_stream (bytes "user:ann")
    ∷ History.open_stream (bytes "user:ann")
    ∷ History.open_stream (bytes "user:bob")
    ∷ History.close_stream (bytes "user:ann")
    ∷ []

guard-Tracks_example :
    (History.answers (StreamGuard.new_stream_guard 2 1) day ≡ History.answers_spec 2 1 [] day)
    × Books.Tracks
        (History.run (StreamGuard.new_stream_guard 2 1) day)
        (History.run_spec 2 1 [] day)
unfolding StreamGuard.new_stream_guard
guard-Tracks_example = History.guard-Tracks 2 1 day

guard_limits_example :
    let g = History.run (StreamGuard.new_stream_guard 2 1) day in
    (g.total ≤ max 2 1) × ((u : Text) → count_at u g.inflight ≤ min (max 1 1) (max 2 1))
guard_limits_example = History.guard_limits 2 1 day

abbrev evening : List ZipGuard.Call
evening =
    ZipGuard.begin_zip (bytes "ann")
    ∷ ZipGuard.begin_zip (bytes "ann")
    ∷ ZipGuard.begin_zip (bytes "ann")
    ∷ ZipGuard.end_zip (bytes "ann")
    ∷ []

fresh_zip_guard : ZipGuard.Tracks (ZipGuard.new_zip_guard 2) 2 []
unfolding ZipGuard.new_zip_guard get count
fresh_zip_guard = record {
  limit = refl;
  keys = tt;
  counts = λ u. refl;
  within = λ u. omega arith;
  named = refl;
}
