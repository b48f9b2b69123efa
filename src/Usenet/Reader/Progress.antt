-- ===== src/Usenet/Reader/Progress.antt =====
-- `ReadAt` ends, whatever the servers answer: each turn of its loop reads a byte or returns.
use torrin.Prelude.{
  ℕ, zero, suc, ◌+◌, ◌-◌, ◌≤◌, ◌<◌, ◌≡◌, refl, ap, ◌⊎◌, inl, inr, Option, none, some, List, ◌++◌,
  Result, ok, Result-cases, Bool-cases, length, take, drop, length-take, length-drop, length-append,
  ltb, leb, ◌==◌, arith,
}
use torrin.Prelude.Parts.{Bytes}
use torrin.Usenet.Reader.Machine.{
  SegChunk, Error, not_found, Net, FileReaderAt, seg, find_seg, seg_for_offset, read_loop, read_at,
}
use torrin.Usenet.Reader.Whole.{AllWhole, seg-WholeOut}

module _ (net : Net) (sizes : List ℕ) where
  -- A chunk that was found for a position has it.
  FoundOut : ℕ → FileReaderAt × Result Error (SegChunk × ℕ) → Type 0
  FoundOut off o =
      AllWhole o.0
      × ((c : SegChunk) (i : ℕ)
          → o.1 ≡ ok (c, i)
          → (c.begin ≤ off) × (off < c.begin + length c.content))

  find-FoundOut :
      (off fuel g : ℕ) (r : FileReaderAt)
      → AllWhole r
      → FoundOut off (find_seg net sizes off fuel g r)
  unfolding find_seg FoundOut
  find-FoundOut off zero g r w = (w, λ c i h. absurd (ground (arith, h)))
  find-FoundOut off (suc fuel) g r w =
      let f = seg-WholeOut net sizes g r w in
      let r1 = (seg net sizes g r).0 in
      elim (Result-cases (seg net sizes g r).1) [
        | inr (e, failed) ↦ rw (failed, find_seg) (f.0, λ c i h. absurd (ground (arith, h)))
        | inl (c, got) ↦ elim (Bool-cases (ltb off c.begin)) [
          | inl left ↦ elim (Bool-cases (g == 0)) [
            | inl first ↦ rw (got, left, first, find_seg) (f.0, λ c i h. absurd (ground (arith, h)))
            | inr later ↦ rw (got, left, later, find_seg) (find-FoundOut off fuel (g - 1) r1 f.0)
          ]
          | inr right ↦ elim (Bool-cases (leb c.end off)) [
            | inl past ↦ elim (Bool-cases (leb (length sizes) (g + 1))) [
              | inl over ↦
                  rw (got, right, past, over, find_seg) (f.0, λ c i h. absurd (ground (arith, h)))
              | inr more ↦
                  rw (got, right, past, more, find_seg) (find-FoundOut off fuel (g + 1) r1 f.0)
            ]
            | inr inside ↦
                let whole_chunk = f.1 c got in
                rw (got, right, inside, find_seg)
                  (f.0, λ d i h. ground (arith, h, right, inside, whole_chunk))
          ]
        ]
      ]

  offset-FoundOut :
      (off : ℕ) (r : FileReaderAt) → AllWhole r → FoundOut off (seg_for_offset net sizes off r)
  unfolding seg_for_offset FoundOut
  offset-FoundOut off r w =
      let n = length sizes in
      elim (Bool-cases (r.typ == 0)) [
        | inr known ↦ rw (known, seg_for_offset) (find-FoundOut off (n + 4) _ r w)
        | inl unknown ↦
            let f = seg-WholeOut net sizes 0 r w in
            let r1 = (seg net sizes 0 r).0 in
            elim (Result-cases (seg net sizes 0 r).1) [
              | inr (e, failed) ↦
                  rw (unknown, failed, seg_for_offset) (f.0, λ c i h. absurd (ground (arith, h)))
              | inl (c, got) ↦
                  rw (unknown, got, seg_for_offset) (find-FoundOut off (n + 4) _ r1 f.0)
            ]
      ]

  -- What a turn reads of a chunk that has the position.
  turn_bytes :
      (off left : ℕ) (c : SegChunk)
      → (c.begin ≤ off) × (off < c.begin + length c.content)
      → let p = take (suc left) (drop (off - c.begin) c.content) in
        (0 < length p) × (length p ≤ suc left)
  turn_bytes off left c h =
      let l = length-take (suc left) (drop (off - c.begin) c.content) in
      let d = length-drop (off - c.begin) c.content in
      (omega (arith, l, d, h.0, h.1), omega (arith, l))

  loop_enough :
      (f1 f2 off left : ℕ) (r : FileReaderAt)
      → AllWhole r
      → left ≤ f1
      → left ≤ f2
      → read_loop net sizes f1 off left r ≡ read_loop net sizes f2 off left r
  unfolding read_loop FoundOut
  loop_enough f1 f2 off zero r w h1 h2 = refl
  loop_enough zero f2 off (suc left) r w h1 h2 = absurd (omega arith)
  loop_enough (suc f1) zero off (suc left) r w h1 h2 = absurd (omega arith)
  loop_enough (suc f1) (suc f2) off (suc left) r w h1 h2 =
      let k = offset-FoundOut off r w in
      let r1 = (seg_for_offset net sizes off r).0 in
      elim (Result-cases (seg_for_offset net sizes off r).1) [
        | inr (e, failed) ↦ rw (failed, read_loop) refl
        | inl ((c, i), found) ↦
            let p : Bytes = take (suc left) (drop (off - c.begin) c.content) in
            let b = turn_bytes off left c (k.1 c i found) in
            let ih =
              loop_enough f1 f2 (off + length p) (suc left - length p) r1 k.0
                (omega (arith, b.0, h1)) (omega (arith, b.0, h2)) in
            rw (found, read_loop) (ap (λ o. (o.0, p ++ o.1, o.2)) ih)
      ]

  -- All that was asked for and no error, or less and an error.
  abbrev pub Filled : ℕ → Bytes → Option Error → Type 0
  Filled len p e = ((e ≡ none) × (length p ≡ len)) ⊎ ((x : Error) × (e ≡ some x) × (length p < len))

  Filled-more :
      (p rest : Bytes) (left : ℕ) (e : Option Error)
      → length p ≤ left
      → Filled (left - length p) rest e
      → Filled left (p ++ rest) e
  Filled-more p rest left e h f = elim f [
    | inl (fine, l) ↦ inl (fine, omega (arith, length-append p rest, l))
    | inr (x, failed, l) ↦ inr (x, failed, omega (arith, length-append p rest, l))
  ]

  loop-Filled :
      (fuel off left : ℕ) (r : FileReaderAt)
      → AllWhole r
      → let (r', p, e) = read_loop net sizes fuel off left r in Filled left p e × AllWhole r'
  unfolding read_loop FoundOut
  loop-Filled fuel off zero r w = (inl (refl, refl), w)
  loop-Filled zero off (suc left) r w = (inr (not_found, refl, omega arith), w)
  loop-Filled (suc fuel) off (suc left) r w =
      let k = offset-FoundOut off r w in
      elim (Result-cases (seg_for_offset net sizes off r).1) [
        | inr (e, failed) ↦ rw (failed, read_loop) (inr (e, refl, omega arith), k.0)
        | inl ((c, i), found) ↦
            let p : Bytes = take (suc left) (drop (off - c.begin) c.content) in
            let b = turn_bytes off left c (k.1 c i found) in
            let r1 = (seg_for_offset net sizes off r).0 in
            let o = read_loop net sizes fuel (off + length p) (suc left - length p) r1 in
            let ih = loop-Filled fuel (off + length p) (suc left - length p) r1 k.0 in
            rw (found, read_loop) (Filled-more p o.1 (suc left) o.2 b.1 ih.0, ih.1)
      ]

  -- Whatever the servers answer: a read ends after one turn for each byte at most, more fuel than that
  -- changes nothing, and it gives all that was asked for without an error, or less with one.
  pub read_at-ends :
      (fuel len off : ℕ) (r : FileReaderAt)
      → AllWhole r
      → len ≤ fuel
      → let (r', p, e) = read_at net sizes len off r in
        (read_loop net sizes fuel off len r ≡ read_at net sizes len off r)
        × Filled len p e
        × AllWhole r'
  unfolding read_at
  read_at-ends fuel len off r w h =
      let f = loop-Filled len off len r w in
      (loop_enough fuel len off len r w h (omega arith), f.0, f.1)
