-- ===== src/Usenet/Lazy/Layout.antt =====
-- Where the segments of a new reader stand in the file, and the search of an offset.
use torrin.Prelude.{
  ℕ, zero, suc, ◌+◌, ◌^◌, ◌≤◌, ◌<◌, ◌≡◌, refl, ap, inl, inr, false, not, ◌||◌, none, List, [], ◌∷◌,
  ◌++◌, ok, Bool-cases, ltb, leb, ◌==◌, length, get_or, length-append, arith,
}
use torrin.Prelude.Int.{pos, ltb_ℤ}
use torrin.Prelude.Parts.{Bytes, whole, offset, part}
use torrin.Usenet.Lazy.Machine.{
  NzbSegment, NzbFile, Seg, no_seg, Reader, sort_segments, add_segments, new_reader, search,
  first_group,
}

-- The segments are those of consecutive parts that are not empty, the first of which begins there.
abbrev pub Fits : ℕ → List Seg → List Bytes → Type 0
Fits base [] [] = Unit
Fits base (s ∷ ss) (p ∷ ps) =
    (s.start ≡ base)
    × (s.end ≡ base + length p)
    × (s.bytes ≡ length p)
    × (0 < length p)
    × Fits (base + length p) ss ps
Fits base [] (p ∷ ps) = ⊥
Fits base (s ∷ ss) [] = ⊥

-- The release names the messages and the sizes of the parts, none of which is empty.
abbrev pub Named : List NzbSegment → List Bytes → Type 0
Named [] [] = Unit
Named (m ∷ ms) (p ∷ ps) =
    (m.bytes ≡ pos (length p)) × (0 < length m.message_id) × (0 < length p) × Named ms ps
Named [] (p ∷ ps) = ⊥
Named (m ∷ ms) [] = ⊥

pub Fits-length :
    (base : ℕ) (ss : List Seg) (ps : List Bytes) → Fits base ss ps → length ss ≡ length ps
Fits-length base [] [] f = refl
Fits-length base (s ∷ ss) (p ∷ ps) f = ap suc (Fits-length (base + length p) ss ps f.4)
Fits-length base [] (p ∷ ps) f = absurd f
Fits-length base (s ∷ ss) [] f = absurd f

pub seg-Fits :
    (base : ℕ) (ss : List Seg) (ps : List Bytes) (i : ℕ)
    → Fits base ss ps
    → i < length ps
    → ((get_or ss i no_seg).start ≡ base + offset ps i)
      × ((get_or ss i no_seg).bytes ≡ length (part ps i))
      × (0 < length (part ps i))
seg-Fits base [] [] i f h = absurd (omega arith)
seg-Fits base [] (p ∷ ps) i f h = absurd f
seg-Fits base (s ∷ ss) [] i f h = absurd f
seg-Fits base (s ∷ ss) (p ∷ ps) zero f h = (omega (arith, f.0), f.2, f.3)
seg-Fits base (s ∷ ss) (p ∷ ps) (suc i) f h =
    let (a, b, c) = seg-Fits (base + length p) ss ps i f.4 (omega arith) in (omega (arith, a), b, c)

pub search-Fits :
    (base : ℕ) (ss : List Seg) (ps : List Bytes) (off : ℕ)
    → Fits base ss ps
    → base ≤ off
    → off < base + length (whole ps)
    → (search ss off < length ps)
      × (base + offset ps (search ss off) ≤ off)
      × (off < base + offset ps (search ss off) + length (part ps (search ss off)))
unfolding search
search-Fits base [] [] off f le lt = absurd (omega arith)
search-Fits base [] (p ∷ ps) off f le lt = absurd f
search-Fits base (s ∷ ss) [] off f le lt = absurd f
search-Fits base (s ∷ ss) (p ∷ ps) off f le lt = elim (Bool-cases (ltb off s.end)) [
  | inl here ↦ rw (here, search) (omega arith, omega arith, ground (arith, here, f.1))
  | inr later ↦
      let (a, b, c) =
        search-Fits (base + length p) ss ps off f.4 (ground (arith, later, f.1))
          (omega (arith, length-append p (whole ps))) in
      rw (later, search) (omega (arith, a), omega (arith, b), omega (arith, c))
]

add_segments-Fits :
    (ms : List NzbSegment) (ps : List Bytes) (size : ℕ)
    → Named ms ps
    → size + length (whole ps) < 2 ^ 63
    → (ss : List Seg) × (add_segments ms size ≡ ok (ss, size + length (whole ps))) × Fits size ss ps
unfolding add_segments
add_segments-Fits [] [] size n small = ([], ap (λ x. ok ([], x)) {x = size} (omega arith), tt)
add_segments-Fits [] (p ∷ ps) size n small = absurd n
add_segments-Fits (m ∷ ms) [] size n small = absurd n
add_segments-Fits (m ∷ ms) (p ∷ ps) size (b, id_given, some_bytes, n) small =
    let w = length-append p (whole ps) in
    let (ss, e, f) = add_segments-Fits ms ps (size + length p) n (omega (arith, small, w)) in
    let s : Seg = record {
      message_id = m.message_id;
      bytes = length p;
      start = size;
      end = size + length p;
    } in
    let good : (not (ltb_ℤ (pos 0) (pos (length p))) || length m.message_id == 0) ≡ false =
      ground (arith, some_bytes, id_given) in
    let fits : leb (2 ^ 63) (size + length p) ≡ false = ground (arith, small, w) in
    let total : size + length p + length (whole ps) ≡ size + length (p ++ whole ps) =
      omega (arith, w) in
    (s ∷ ss, rw (b, good, fits, e, total, add_segments) refl, (refl, refl, refl, some_bytes, f))

Named-some :
    (ms : List NzbSegment) (ps : List Bytes)
    → Named (sort_segments ms) ps
    → 0 < length ps
    → (length ms == 0) ≡ false
unfolding sort_segments
Named-some [] [] n h = absurd (omega arith)
Named-some [] (p ∷ ps) n h = absurd n
Named-some (m ∷ ms) ps n h = ground arith

-- The reader before the first read.
abbrev pub fresh : NzbFile → List Seg → ℕ → Reader
fresh file ss size = record {
  group = first_group file.groups;
  segs = ss;
  size = size;
  cache = λ i. none;
  order = [];
  clock = 0;
}

pub new_reader-Fits :
    (file : NzbFile) (ps : List Bytes)
    → Named (sort_segments file.segments) ps
    → 0 < length ps
    → length (whole ps) < 2 ^ 63
    → (ss : List Seg) × (new_reader file ≡ ok (fresh file ss (length (whole ps)))) × Fits 0 ss ps
unfolding new_reader
new_reader-Fits file ps n ne small =
    let (ss, e, f) =
      add_segments-Fits (sort_segments file.segments) ps 0 n (omega (arith, small)) in
    let z : 0 + length (whole ps) ≡ length (whole ps) = omega arith in
    (ss, rw (Named-some file.segments ps n ne, e, z, new_reader) refl, f)
