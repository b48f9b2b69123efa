-- ===== src/Usenet/Reader/Find.antt =====
-- `segForOffset` finds the part that holds a position, from any guess, and sees the end of the file.
use torrin.Prelude.{
  ℕ, zero, suc, ◌+◌, ◌-◌, ◌≤◌, ◌<◌, ◌≡◌, refl, ap, inl, inr, true, false, List, ok, err, Bool-cases,
  length, ltb, leb, ◌==◌, if◌then◌else◌, arith,
}
use torrin.Usenet.Reader.Machine.{
  eof, Net, FileReaderAt, seg, find_seg, seg_for_offset, first_guess,
}
use torrin.Prelude.Parts.{Bytes, whole, offset, part, offset-suc, offset_mono, offset_last, locate}
use torrin.Usenet.Reader.Segments.{true_chunk, Serves, Genuine, seg-Genuine}

-- How far a guess is from the part.
abbrev distance : ℕ → ℕ → ℕ
distance a b = (a - b) + (b - a)

module _ (net : Net) (sizes : List ℕ) (ps : List Bytes) (ls : length sizes ≡ length ps)
    (s : Serves net ps) where
  -- One step of the loop, by where the guessed part stands.
  find_step :
      (off fuel g : ℕ) (r : FileReaderAt)
      → g < length ps
      → Genuine ps r
      → find_seg net sizes off (suc fuel) g r ≡ (
          if ltb off (offset ps g)
          then (if g == 0
              then ((seg net sizes g r).0, err eof)
              else find_seg net sizes off fuel (g - 1) (seg net sizes g r).0)
          else if leb (offset ps g + length (part ps g)) off
          then (if leb (length sizes) (g + 1)
              then ((seg net sizes g r).0, err eof)
              else find_seg net sizes off fuel (g + 1) (seg net sizes g r).0)
          else ((seg net sizes g r).0, ok (true_chunk ps g, g)))
  unfolding find_seg
  find_step off fuel g r lt gen =
      let k = seg-Genuine net sizes ps g r s lt gen in
      elim (Bool-cases (ltb off (offset ps g))) [
        | inl left ↦ elim (Bool-cases (g == 0)) [
          | inl first ↦ rw (k.0, left, first, find_seg) refl
          | inr later ↦ rw (k.0, left, later, find_seg) refl
        ]
        | inr right ↦ elim (Bool-cases (leb (offset ps g + length (part ps g)) off)) [
          | inl past ↦ elim (Bool-cases (leb (length sizes) (g + 1))) [
            | inl over ↦ rw (k.0, right, past, over, find_seg) refl
            | inr more ↦ rw (k.0, right, past, more, find_seg) refl
          ]
          | inr inside ↦ rw (k.0, right, inside, find_seg) refl
        ]
      ]

  -- A position of one part is in front of the parts behind it.
  find_above :
      (off k g : ℕ)
      → off < offset ps k + length (part ps k)
      → g < length ps
      → k < g
      → off < offset ps g
  find_above off k g b ltg d =
      omega
        (arith, offset-suc ps k (omega arith), offset_mono ps (suc k) g (omega arith) (omega arith))

  find-Genuine :
      (off k fuel g : ℕ) (r : FileReaderAt)
      → k < length ps
      → offset ps k ≤ off
      → off < offset ps k + length (part ps k)
      → g < length ps
      → distance g k < fuel
      → Genuine ps r
      → ((find_seg net sizes off fuel g r).1 ≡ ok (true_chunk ps k, k))
        × Genuine ps (find_seg net sizes off fuel g r).0
  find-Genuine off k zero g r lt a b ltg d gen = absurd (omega arith)
  find-Genuine off k (suc fuel) g r lt a b ltg d gen =
      let st = find_step off fuel g r ltg gen in
      let gen' = (seg-Genuine net sizes ps g r s ltg gen).1 in
      let r' = (seg net sizes g r).0 in
      elim (Bool-cases (ltb off (offset ps g))) [
        | inl left ↦
            let below : k < g = elim (Bool-cases (ltb k g)) [
              | inl less ↦ ground arith
              | inr more ↦ ground (arith, offset_mono ps g k (ground arith) (omega arith))
            ] in
            let nz : (g == 0) ≡ false = ground arith in
            rw (st, left, nz)
              (find-Genuine off k fuel (g - 1) r' lt a b (omega arith) (omega arith) gen')
        | inr right ↦ elim (Bool-cases (leb (offset ps g + length (part ps g)) off)) [
          | inl past ↦
              let above : g < k = elim (Bool-cases (ltb g k)) [
                | inl less ↦ ground arith
                | inr more ↦ elim (Bool-cases (g == k)) [
                  | inl same ↦ ground arith
                  | inr other ↦ ground (arith, find_above off k g b ltg (ground arith))
                ]
              ] in
              let more : leb (length sizes) (g + 1) ≡ false = ground (arith, ls) in
              rw (st, right, past, more)
                (find-Genuine off k fuel (g + 1) r' lt a b (omega arith) (omega arith) gen')
          | inr inside ↦
              let same : g ≡ k = elim (Bool-cases (ltb g k)) [
                | inl less ↦ ground (arith, find_above off g k (ground arith) lt (ground arith))
                | inr more ↦ elim (Bool-cases (ltb k g)) [
                  | inl less' ↦ ground (arith, find_above off k g b ltg (ground arith))
                  | inr more' ↦ ground arith
                ]
              ] in
              rw (st, right, inside) (ap (λ j. ok (true_chunk ps j, j)) same, gen')
        ]
      ]

  -- Behind the last byte the loop ends with `io.EOF`.
  find_past :
      (off fuel g : ℕ) (r : FileReaderAt)
      → length (whole ps) ≤ off
      → g < length ps
      → length ps < fuel + g
      → Genuine ps r
      → ((find_seg net sizes off fuel g r).1 ≡ err eof)
        × Genuine ps (find_seg net sizes off fuel g r).0
  find_past off zero g r far lt f gen = absurd (omega arith)
  find_past off (suc fuel) g r far lt f gen =
      let st = find_step off fuel g r lt gen in
      let gen' = (seg-Genuine net sizes ps g r s lt gen).1 in
      let end : offset ps (suc g) ≤ length (whole ps) =
        omega
          (arith, offset_last ps, offset_mono ps (suc g) (length ps) (omega arith) (omega arith)) in
      let right : ltb off (offset ps g) ≡ false = ground (arith, offset-suc ps g lt) in
      let past : leb (offset ps g + length (part ps g)) off ≡ true =
        ground (arith, offset-suc ps g lt) in
      elim (Bool-cases (leb (length sizes) (g + 1))) [
        | inl over ↦ rw (st, right, past, over) (refl, gen')
        | inr more ↦
            rw (st, right, past, more)
              (find_past off fuel (g + 1) (seg net sizes g r).0 far (ground (arith, ls))
                (omega arith) gen')
      ]

  first_guess_lt : (off t : ℕ) → 0 < length ps → first_guess off t (length sizes) < length ps
  first_guess_lt off t ne = ground (arith, ls)

  -- `segForOffset` is its loop, from some guess.
  offset_loop :
      (off : ℕ) (r : FileReaderAt)
      → 0 < length ps
      → Genuine ps r
      → (g : ℕ) × (r' : FileReaderAt) × (g < length ps)
        × Genuine ps r'
        × (seg_for_offset net sizes off r ≡ find_seg net sizes off (length sizes + 4) g r')
  unfolding seg_for_offset
  offset_loop off r ne gen =
      let n = length sizes in
      elim (Bool-cases (r.typ == 0)) [
        | inr known ↦ (
          first_guess off r.typ n,
          r,
          first_guess_lt off r.typ ne,
          gen,
          rw (known, seg_for_offset)
              (ap (λ g. find_seg net sizes off (n + 4) g r) (ground (arith, known))),
        )
        | inl unknown ↦
            let k = seg-Genuine net sizes ps 0 r s ne gen in
            let r' = (seg net sizes 0 r).0 in
            (
              first_guess off r'.typ n,
              r',
              first_guess_lt off r'.typ ne,
              k.1,
              rw (unknown, k.0, seg_for_offset) refl,
            )
      ]

  -- What `segForOffset` gives at a position of the file, and behind it.
  pub offset-Genuine :
      (off : ℕ) (r : FileReaderAt)
      → off < length (whole ps)
      → Genuine ps r
      → (k : ℕ) × (k < length ps)
        × (offset ps k ≤ off)
        × (off < offset ps k + length (part ps k))
        × ((seg_for_offset net sizes off r).1 ≡ ok (true_chunk ps k, k))
        × Genuine ps (seg_for_offset net sizes off r).0
  offset-Genuine off r lt gen =
      let w = locate ps off lt in
      let l = offset_loop off r (omega (arith, w.1)) gen in
      let f =
        find-Genuine off w.0 (length sizes + 4) l.0 l.1 w.1 w.2 w.3 l.2
          (omega (arith, w.1, l.2, ls)) l.3 in
      (w.0, w.1, w.2, w.3, rw l.4 f.0, rw l.4 f.1)

  pub offset_past :
      (off : ℕ) (r : FileReaderAt)
      → 0 < length ps
      → length (whole ps) ≤ off
      → Genuine ps r
      → ((seg_for_offset net sizes off r).1 ≡ err eof)
        × Genuine ps (seg_for_offset net sizes off r).0
  offset_past off r ne far gen =
      let l = offset_loop off r ne gen in
      let f = find_past off (length sizes + 4) l.0 l.1 far l.2 (omega (arith, l.2, ls)) l.3 in
      rw l.4 f
