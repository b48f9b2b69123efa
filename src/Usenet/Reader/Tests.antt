-- ===== src/Usenet/Reader/Tests.antt =====
-- A file of three parts, read at an offset, and with a missing article.
use torrin.Prelude.{
  ℕ, ◌+◌, ◌≡◌, refl, ◌==◌, none, some, List, [], ◌∷◌, if◌then◌else◌, drop, take, length, arith,
}
use torrin.Usenet.Reader.Machine.{
  eof, article, no_article, Net, new_reader_at, read_at, read_loop, seg_for_offset, seg,
}
use torrin.Prelude.Parts.{Bytes, whole, offset, part}
use torrin.Usenet.Reader.Segments.{Serves, Genuine}
use torrin.Usenet.Reader.Whole.{AllWhole}
use torrin.Usenet.Reader.Progress.{Filled, read_at-ends}
use torrin.Usenet.Reader.Reads.{read_error, read_at-Genuine}

abbrev parts : List Bytes
parts = (10 ∷ 11 ∷ 12 ∷ []) ∷ (13 ∷ 14 ∷ 15 ∷ []) ∷ (16 ∷ []) ∷ []

-- The sizes that the release gives are those of the articles as they were sent.
abbrev sizes : List ℕ
sizes = 150 ∷ 150 ∷ 120 ∷ []

abbrev servers : Net
servers = record {
  fetch = λ t i. article (offset parts i + 1) (part parts i);
  prefetched = λ t. [];
}

servers-Serves : Serves servers parts
servers-Serves = record {
  answers = λ t i lt. (offset parts i + 1, omega arith, refl);
  in_file = λ t. tt;
}

fresh-Genuine : Genuine parts new_reader_at
fresh-Genuine i c lt h = absurd (ground (arith, h))

read_at-Genuine_example :
    let (r, p, e) = read_at servers sizes 4 4 new_reader_at in
    (p ≡ take 4 (drop 4 (whole parts)))
    × (e ≡ read_error (length (whole parts)) 4 4)
    × Genuine parts r
read_at-Genuine_example =
    read_at-Genuine servers sizes parts refl servers-Serves 4 4 new_reader_at (omega arith)
      fresh-Genuine

short_read :
    let (r, p, e) = read_at servers sizes 4 4 new_reader_at in
    (p ≡ 14 ∷ 15 ∷ 16 ∷ []) × (e ≡ some eof)
unfolding read_at seg_for_offset seg
short_read = (refl, refl)

-- A segment that no server has is read as zeros, after the segment before.
abbrev holed : Net
holed = record {
  fetch = λ t i. if i == 1 then no_article else article (offset parts i + 1) (part parts i);
  prefetched = λ t. [];
}

hole_read :
    let (r, p, e) = read_at holed sizes 5 2 new_reader_at in
    (p ≡ 12 ∷ 0 ∷ 0 ∷ 0 ∷ 16 ∷ []) × (e ≡ none)
unfolding read_at seg_for_offset seg
hole_read = (refl, refl)

fresh-AllWhole : AllWhole new_reader_at
fresh-AllWhole i c h = absurd (ground (arith, h))

read_at-ends_example :
    let (r, p, e) = read_at holed sizes 5 2 new_reader_at in
    (read_loop holed sizes 9 2 5 new_reader_at ≡ read_at holed sizes 5 2 new_reader_at)
    × Filled holed sizes 5 p e
    × AllWhole r
read_at-ends_example = read_at-ends holed sizes 9 5 2 new_reader_at fresh-AllWhole (omega arith)
