-- ===== src/Usenet/Reader/Machine.antt =====
-- The reader and its methods. What the news servers answer is an argument, by the number of calls
-- made before; so are the prefetches that end before a call. A prefetch runs `fetchSeg`, in which a
-- call that finds the segment in flight waits for the other's result: each is one step. `readMu`
-- lets one `ReadAt` run at a time.
use torrin.Prelude.{
  ℕ, zero, suc, ◌+◌, ◌-◌, ◌/◌, Bool, true, false, ◌||◌, Option, none, some, List, [], ◌∷◌, ◌++◌,
  Result, ok, err, if◌then◌else◌, ltb, leb, ◌==◌, length, get_or, take, drop, replicate,
}
use torrin.Prelude.Family.{update}
use torrin.Prelude.Parts.{Bytes}

abbrev pub ra_cache_max : ℕ
ra_cache_max = 48

abbrev pub max_pad_run : ℕ
max_pad_run = 4

abbrev pub max_pad_total : ℕ
max_pad_total = 64

pub record SegChunk : Type 0 where
  pub begin : ℕ
  pub end : ℕ
  pub content : Bytes
  pub hole : Bool

pub data Error : Type 0 where
  article_missing fetch_failed too_many_holes eof not_found : Error

-- A decoded article: the `Begin` of its header, from 1, or 0 without one, and its bytes.
pub data Answer : Type 0 where
  article : ℕ → Bytes → Answer
  no_article no_answer : Answer

pub record Net : Type 0 where
  pub fetch : ℕ → ℕ → Answer
  pub prefetched : ℕ → List ℕ

-- `lastHole` is -1 at first: the field is the number after it. A size that is not known is `none`.
pub record FileReaderAt : Type 0 where
  pub cache : ℕ → Option SegChunk
  pub order : List ℕ
  pub typ : ℕ
  pub size : Option ℕ
  pub pad_total : ℕ
  pub after_hole : ℕ
  pub cur_run : ℕ
  pub clock : ℕ

abbrev pub new_reader_at : FileReaderAt
new_reader_at = record {
  cache = λ _. none;
  order = [];
  typ = 0;
  size = none;
  pad_total = 0;
  after_hole = 0;
  cur_run = 0;
  clock = 0;
}

-- The end of `store`: the oldest chunk goes where there are too many.
abbrev pub trim : List ℕ → FileReaderAt → FileReaderAt
trim [] r = r
trim (old ∷ order) r =
    if ltb ra_cache_max (length r.order)
    then record r { cache = update r.cache old none; order = order }
    else r

unfoldable pub store : ℕ → SegChunk → FileReaderAt → FileReaderAt
store i c r =
    let order = r.order ++ (i ∷ []) in
    trim order (record r { cache = update r.cache i (some c); order = order })

abbrev pub tick : FileReaderAt → FileReaderAt
tick r = record r { clock = r.clock + 1 }

abbrev pub chunk_of : ℕ → Bytes → SegChunk
chunk_of begin content = record {
  begin = begin;
  end = begin + length content;
  content = content;
  hole = false;
}

unfoldable pub fetch_seg : Net → ℕ → FileReaderAt → FileReaderAt × Result Error SegChunk
unfolding store
fetch_seg net i r = elim (r.cache i) [
  | some c ↦ (r, ok c)
  | none ↦ elim (net.fetch r.clock i) [
    | article begin content ↦
        let c = chunk_of (begin - 1) content in
        let r' = store i c (tick r) in
        (record r' { typ = if i == 0 then length content else r'.typ }, ok c)
    | no_article ↦ (tick r, err article_missing)
    | no_answer ↦ (tick r, err fetch_failed)
  ]
]

-- The prefetches that end meanwhile.
unfoldable pub settle : Net → List ℕ → FileReaderAt → FileReaderAt
settle net [] r = r
settle net (i ∷ is) r = settle net is (fetch_seg net i r).0

-- `holeChunk`, with what finds the end of the segment before.
unfoldable pub hole_chunk :
    List ℕ
    → ℕ
    → (FileReaderAt → FileReaderAt × Result Error ℕ)
    → FileReaderAt
    → FileReaderAt × Result Error SegChunk
unfolding store
hole_chunk sizes i end_before r =
    let size = if r.typ == 0 then get_or sizes i 0 else r.typ in
    let (r1, b) = end_before r in
    elim b [
      | err e ↦ (r1, err e)
      | ok begin ↦
          let run = if i == r1.after_hole then r1.cur_run + 1 else 1 in
          let r2 = record r1 { cur_run = run; after_hole = i + 1; pad_total = r1.pad_total + 1 } in
          let c : SegChunk = record {
            begin = begin;
            end = begin + size;
            content = replicate size 0;
            hole = true;
          } in
          if ltb max_pad_run run || ltb max_pad_total r2.pad_total
          then (r2, err too_many_holes)
          else (store i c r2, ok c)
    ]

unfoldable pub seg_with :
    Net
    → List ℕ
    → ℕ
    → (FileReaderAt → FileReaderAt × Result Error ℕ)
    → FileReaderAt
    → FileReaderAt × Result Error SegChunk
unfolding fetch_seg settle hole_chunk
seg_with net sizes i end_before r =
    let (r1, a) = fetch_seg net i (settle net (net.prefetched r.clock) (tick r)) in
    elim a [
      | ok c ↦ (r1, ok c)
      | err article_missing ↦ hole_chunk sizes i end_before r1
      | err e ↦ (r1, err e)
    ]

abbrev pub end_of : FileReaderAt × Result Error SegChunk → FileReaderAt × Result Error ℕ
end_of (r, ok c) = (r, ok c.end)
end_of (r, err e) = (r, err e)

unfoldable pub seg : Net → List ℕ → ℕ → FileReaderAt → FileReaderAt × Result Error SegChunk
unfolding seg_with
seg net sizes zero r = seg_with net sizes zero (λ q. (q, ok 0)) r
seg net sizes (suc i) r = seg_with net sizes (suc i) (λ q. end_of (seg net sizes i q)) r

-- The loop of `segForOffset`.
unfoldable pub find_seg :
    Net → List ℕ → ℕ → ℕ → ℕ → FileReaderAt → FileReaderAt × Result Error (SegChunk × ℕ)
find_seg net sizes off zero guess r = (r, err not_found)
find_seg net sizes off (suc fuel) guess r =
    let (r1, a) = seg net sizes guess r in
    elim a [
      | err e ↦ (r1, err e)
      | ok c ↦ elim (ltb off c.begin) [
        | true ↦ elim (guess == 0) [
          | true ↦ (r1, err eof)
          | false ↦ find_seg net sizes off fuel (guess - 1) r1
        ]
        | false ↦ elim (leb c.end off) [
          | true ↦ elim (leb (length sizes) (guess + 1)) [
            | true ↦ (r1, err eof)
            | false ↦ find_seg net sizes off fuel (guess + 1) r1
          ]
          | false ↦ (r1, ok (c, guess))
        ]
      ]
    ]

abbrev pub first_guess : ℕ → ℕ → ℕ → ℕ
first_guess off t n = let g = if t == 0 then 0 else off / t in if leb n g then n - 1 else g

-- `sizes` has an element: the reader of a file without segments is not used.
unfoldable pub seg_for_offset :
    Net → List ℕ → ℕ → FileReaderAt → FileReaderAt × Result Error (SegChunk × ℕ)
unfolding find_seg
seg_for_offset net sizes off r =
    let n = length sizes in
    elim (r.typ == 0) [
      | false ↦ find_seg net sizes off (n + 4) (first_guess off r.typ n) r
      | true ↦
          let (r1, a) = seg net sizes 0 r in
          elim a [
            | err e ↦ (r1, err e)
            | ok c ↦ find_seg net sizes off (n + 4) (first_guess off r1.typ n) r1
          ]
    ]

-- The loop of `ReadAt` for the bytes that are left: the reader, what was read, and the error.
unfoldable pub read_loop :
    Net → List ℕ → ℕ → ℕ → ℕ → FileReaderAt → FileReaderAt × Bytes × Option Error
read_loop net sizes fuel off zero r = (r, [], none)
read_loop net sizes zero off (suc left) r = (r, [], some not_found)
read_loop net sizes (suc fuel) off (suc left) r =
    let (r1, a) = seg_for_offset net sizes off r in
    elim a [
      | err e ↦ (r1, [], some e)
      | ok (c, i) ↦
          let p = take (suc left) (drop (off - c.begin) c.content) in
          let (r2, rest, e) = read_loop net sizes fuel (off + length p) (suc left - length p) r1 in
          (r2, p ++ rest, e)
    ]

unfoldable pub read_at : Net → List ℕ → ℕ → ℕ → FileReaderAt → FileReaderAt × Bytes × Option Error
unfolding read_loop
read_at net sizes len off r = read_loop net sizes len off len r

unfoldable pub file_size : Net → List ℕ → FileReaderAt → FileReaderAt × Result Error ℕ
unfolding seg
file_size net sizes r = elim r.size [
  | some n ↦ (r, ok n)
  | none ↦
      let (r1, a) = seg net sizes (length sizes - 1) r in
      elim a [ err e ↦ (r1, err e) | ok c ↦ (record r1 { size = some c.end }, ok c.end) ]
]
