-- ===== src/Usenet/Lazy/Machine.antt =====
-- `NewReader`, `ReadAt` and what they call, from shared/usenet/reader.go. What the servers answer is
-- an argument, by the number of fetches made before, and so are the prefetches that end before a
-- call of `get`. A call that waits for a fetch in flight is one that comes after it.
use torrin.Prelude.{
  ℕ, zero, suc, ◌+◌, ◌-◌, ◌^◌, true, false, not, ◌&&◌, ◌||◌, Option, none, some, List, [], ◌∷◌,
  ◌++◌, Result, ok, err, ◌>>=◌, if◌then◌else◌, ltb, leb, ◌==◌, length, get_or, take, drop,
}
use torrin.Prelude.Int.{ℤ, pos, negsuc, pos_part, ltb_ℤ}
use torrin.Prelude.Family.{update}
use torrin.Prelude.Parts.{Bytes}
use torrin.Prelude.Text.{Text}
use torrin.Usenet.Yenc.Decode.{decode}

abbrev pub max_cached_seg : ℕ
max_cached_seg = 32

pub record NzbSegment : Type 0 where
  pub message_id : Text
  pub number : ℤ
  pub bytes : ℤ

pub record NzbFile : Type 0 where
  pub groups : List Text
  pub segments : List NzbSegment

pub data Failure : Type 0 where
  no_segments invalid_segment size_overflow negative_offset : Failure
  fetch_failed decode_failed wrong_length wrong_begin : Failure

-- What a read ends with, where it ends early.
pub data Error : Type 0 where
  eof : Error
  failed : Failure → Error

pub record Seg : Type 0 where
  pub message_id : Text
  pub bytes : ℕ
  pub start : ℕ
  pub end : ℕ

abbrev pub no_seg : Seg
no_seg = record { message_id = []; bytes = 0; start = 0; end = 0 }

pub record Reader : Type 0 where
  pub group : Text
  pub segs : List Seg
  pub size : ℕ
  pub cache : ℕ → Option Bytes
  pub order : List ℕ
  pub clock : ℕ

-- sort.SliceStable by the number.
unfoldable pub insert_segment : NzbSegment → List NzbSegment → List NzbSegment
insert_segment p [] = p ∷ []
insert_segment p (q ∷ qs) =
    let rest = insert_segment p qs in if ltb_ℤ q.number p.number then q ∷ rest else p ∷ q ∷ qs

unfoldable pub sort_segments : List NzbSegment → List NzbSegment
unfolding insert_segment
sort_segments [] = []
sort_segments (p ∷ ps) = insert_segment p (sort_segments ps)

-- The loop of `NewReader`. A sum of two sizes in int64 is below the first where it is 2^63 or more.
unfoldable pub add_segments : List NzbSegment → ℕ → Result Failure (List Seg × ℕ)
add_segments [] size = ok ([], size)
add_segments (p ∷ ps) size =
    let end = size + pos_part p.bytes in
    let rest = add_segments ps end in
    if not (ltb_ℤ (pos 0) p.bytes) || length p.message_id == 0
    then err invalid_segment
    else if leb (2 ^ 63) end
    then err size_overflow
    else (do
      (segs, total) ← rest
      ok (
        record { message_id = p.message_id; bytes = pos_part p.bytes; start = size; end = end }
            ∷ segs,
        total,
      ))

abbrev pub first_group : List Text → Text
first_group [] = []
first_group (g ∷ gs) = g

unfoldable pub new_reader : NzbFile → Result Failure Reader
unfolding sort_segments add_segments
new_reader file = if length file.segments == 0 then err no_segments else (do
  (segs, size) ← add_segments (sort_segments file.segments) 0
  ok (record {
    group = first_group file.groups;
    segs = segs;
    size = size;
    cache = λ i. none;
    order = [];
    clock = 0;
  }))

-- The servers, by the time, the message and the group, and the prefetches.
pub record Net : Type 0 where
  pub crc32 : Text → ℕ
  pub servers : ℕ → Text → Text → Option Text
  pub prefetched : ℕ → List ℕ

unfoldable pub fetch : Net → ℕ → Text → Seg → Result Failure Bytes
fetch net t group seg = elim (net.servers t seg.message_id group) [
  | none ↦ err fetch_failed
  | some raw ↦ elim (decode net.crc32 raw) [
    | err e ↦ err decode_failed
    | ok d ↦
        if not (length d.content == seg.bytes)
        then err wrong_length
        else if ltb_ℤ (pos 0) d.begin && not (pos_part d.begin - 1 == seg.start)
        then err wrong_begin
        else ok d.content
  ]
]

-- The loop of `store`: the oldest go while there are too many.
unfoldable pub trim : List ℕ → Reader → Reader
trim [] r = record r { order = [] }
trim (old ∷ order) r =
    let rest = trim order (record r { cache = update r.cache old none }) in
    if ltb max_cached_seg (length (old ∷ order)) then rest else record r { order = old ∷ order }

unfoldable pub store : ℕ → Bytes → Reader → Reader
unfolding trim
store i d r = elim (r.cache i) [
  | some c ↦ r
  | none ↦ trim (r.order ++ (i ∷ [])) (record r { cache = update r.cache i (some d) })
]

abbrev pub tick : Reader → Reader
tick r = record r { clock = r.clock + 1 }

unfoldable pub fetch_segment : Net → ℕ → Reader → Reader × Result Failure Bytes
unfolding fetch store
fetch_segment net i r = elim (r.cache i) [
  | some d ↦ (r, ok d)
  | none ↦ elim (fetch net r.clock r.group (get_or r.segs i no_seg)) [
    | err e ↦ (tick r, err e)
    | ok d ↦ (store i d (tick r), ok d)
  ]
]

-- The prefetches that end meanwhile.
unfoldable pub settle : Net → List ℕ → Reader → Reader
unfolding fetch_segment
settle net [] r = r
settle net (i ∷ is) r = settle net is (fetch_segment net i r).0

unfoldable pub get : Net → ℕ → Reader → Reader × Result Failure Bytes
unfolding settle fetch_segment
get net i r = fetch_segment net i (settle net (net.prefetched r.clock) (tick r))

-- sort.Search over ends that increase: the first segment that ends behind the offset.
unfoldable pub search : List Seg → ℕ → ℕ
search [] off = 0
search (s ∷ ss) off = let rest = search ss off in if ltb off s.end then 0 else suc rest

-- A turn of the loop of `ReadAt`, with what `get` gave for the segment that starts there.
unfoldable pub read_turn :
    (ℕ → ℕ → Reader → Reader × Bytes × Option Error)
    → ℕ
    → ℕ
    → ℕ
    → Reader × Result Failure Bytes
    → Reader × Bytes × Option Error
read_turn again start off left (r, err e) = (r, [], some (failed e))
read_turn again start off left (r, ok d) =
    let chunk = take left (drop (off - start) d) in
    let (r', p, e) = again (off + length chunk) (left - length chunk) r in (r', chunk ++ p, e)

-- The loop from segment `idx` on, with so many segments left.
unfoldable pub read_loop : Net → ℕ → ℕ → ℕ → ℕ → Reader → Reader × Bytes × Option Error
unfolding get read_turn
read_loop net n idx off zero r = (r, [], none)
read_loop net zero idx off (suc left) r = (r, [], some eof)
read_loop net (suc n) idx off (suc left) r =
    read_turn (read_loop net n (idx + 1)) (get_or r.segs idx no_seg).start off (suc left)
      (get net idx r)

unfoldable pub read_at : Net → ℕ → ℤ → Reader → Reader × Bytes × Option Error
unfolding search read_loop
read_at net zero off r = (r, [], none)
read_at net (suc len) (negsuc off) r = (r, [], some (failed negative_offset))
read_at net (suc len) (pos off) r = elim (leb r.size off) [
  | true ↦ (r, [], some eof)
  | false ↦
      let first = search r.segs off in read_loop net (length r.segs - first) first off (suc len) r
]
