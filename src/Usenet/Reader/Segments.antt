-- ===== src/Usenet/Reader/Segments.antt =====
-- With servers that have every article, `seg` gives the parts of the file, and the loop of
-- `segForOffset` finds the part that holds a position.
use torrin.Prelude.{
  ℕ, zero, suc, ◌-◌, ◌<◌, ◌≡◌, refl, ap, inl, inr, some, List, [], ◌∷◌, ◌++◌, Result, ok,
  Bool-cases, Option-cases, length, ltb, arith,
}
use torrin.Jobs.Rows.{All}
use torrin.Usenet.Reader.Machine.{
  SegChunk, Error, article, Net, FileReaderAt, end_of, store, chunk_of, fetch_seg, settle, seg_with,
  seg, ra_cache_max, tick, trim,
}
use torrin.Prelude.Parts.{Bytes, offset, part}

-- The chunk of a part.
abbrev pub true_chunk : List Bytes → ℕ → SegChunk
true_chunk ps i = chunk_of (offset ps i) (part ps i)

-- At any time the servers answer with the parts, and prefetches are of segments that exist.
pub record Serves (net : Net) (ps : List Bytes) : Type 0 where
  pub answers :
      (t i : ℕ)
      → i < length ps
      → (b : ℕ) × (b - 1 ≡ offset ps i) × (net.fetch t i ≡ article b (part ps i))
  pub in_file : (t : ℕ) → All (λ i. i < length ps) (net.prefetched t)

-- What is cached is the file's.
abbrev pub Genuine : List Bytes → FileReaderAt → Type 0
Genuine ps r = (i : ℕ) (c : SegChunk) → i < length ps → r.cache i ≡ some c → c ≡ true_chunk ps i

trim-Genuine :
    (ps : List Bytes) (l : List ℕ) (r : FileReaderAt) → Genuine ps r → Genuine ps (trim l r)
trim-Genuine ps [] r g i c lt h = g i c lt h
trim-Genuine ps (old ∷ l) r g i c lt h = elim (Bool-cases (ltb ra_cache_max (length r.order))) [
  | inl full ↦ g i c lt (ground (arith, h, full))
  | inr free ↦ g i c lt (ground (arith, h, free))
]

store-Genuine :
    (ps : List Bytes) (i : ℕ) (r : FileReaderAt)
    → Genuine ps r
    → Genuine ps (store i (true_chunk ps i) r)
unfolding store
store-Genuine ps i r g =
    trim-Genuine ps (r.order ++ (i ∷ [])) _ (λ j c lt h. ground (arith, h, g j c lt))

fetch-Genuine :
    (net : Net) (ps : List Bytes) (i : ℕ) (r : FileReaderAt)
    → Serves net ps
    → i < length ps
    → Genuine ps r
    → ((fetch_seg net i r).1 ≡ ok (true_chunk ps i)) × Genuine ps (fetch_seg net i r).0
unfolding fetch_seg
fetch-Genuine net ps i r s lt g = elim (Option-cases (r.cache i)) [
  | inr (c, there) ↦ rw (there, fetch_seg) (ap ok (g i c lt there), g)
  | inl absent ↦
      let (b, z, e) = s.answers r.clock i lt in
      rw (absent, e, z, fetch_seg) (refl, store-Genuine ps i (tick r) g)
]

settle-Genuine :
    (net : Net) (ps : List Bytes) (is : List ℕ) (r : FileReaderAt)
    → Serves net ps
    → All (λ i. i < length ps) is
    → Genuine ps r
    → Genuine ps (settle net is r)
unfolding settle
settle-Genuine net ps [] r s a g = g
settle-Genuine net ps (i ∷ is) r s a g =
    settle-Genuine net ps is (fetch_seg net i r).0 s a.1 (fetch-Genuine net ps i r s a.0 g).1

seg_with-Genuine :
    (net : Net) (sizes : List ℕ) (ps : List Bytes) (i : ℕ)
    (before : FileReaderAt → FileReaderAt × Result Error ℕ) (r : FileReaderAt)
    → Serves net ps
    → i < length ps
    → Genuine ps r
    → ((seg_with net sizes i before r).1 ≡ ok (true_chunk ps i))
      × Genuine ps (seg_with net sizes i before r).0
unfolding seg_with
seg_with-Genuine net sizes ps i before r s lt g =
    let q : FileReaderAt = settle net (net.prefetched r.clock) (tick r) in
    let k =
      fetch-Genuine net ps i q s lt
        (settle-Genuine net ps (net.prefetched r.clock) (tick r) s (s.in_file r.clock) g) in
    rw (k.0, seg_with) (refl, k.1)

-- A segment of the file is had, and the cache stays genuine.
pub seg-Genuine :
    (net : Net) (sizes : List ℕ) (ps : List Bytes) (i : ℕ) (r : FileReaderAt)
    → Serves net ps
    → i < length ps
    → Genuine ps r
    → ((seg net sizes i r).1 ≡ ok (true_chunk ps i)) × Genuine ps (seg net sizes i r).0
unfolding seg
seg-Genuine net sizes ps zero r s lt g =
    seg_with-Genuine net sizes ps zero (λ q. (q, ok 0)) r s lt g
seg-Genuine net sizes ps (suc i) r s lt g =
    seg_with-Genuine net sizes ps (suc i) (λ q. end_of (seg net sizes i q)) r s lt g
