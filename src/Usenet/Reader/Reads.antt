-- ===== src/Usenet/Reader/Reads.antt =====
-- `ReadAt` and `Size`, against the bytes of the file.
use torrin.Prelude.{
  ℕ, zero, suc, ◌+◌, ◌-◌, ◌≤◌, ◌<◌, ◌≡◌, refl, ap, sym, ◌∙◌, inl, inr, Option, none, some, List, [],
  ◌++◌, ok, Bool-cases, length, ltb, leb, ◌==◌, if◌then◌else◌, min, take, drop, length-take,
  length-drop, arith,
}
use torrin.Prelude.Ranges.{drop_all}
use torrin.Usenet.Reader.Machine.{
  Error, eof, Net, FileReaderAt, seg_for_offset, read_loop, read_at, file_size,
}
use torrin.Prelude.Parts.{
  Bytes, whole, offset, part, offset-suc, offset_mono, offset_last, take-part,
}
use torrin.Usenet.Reader.Segments.{Serves, Genuine, seg-Genuine}
use torrin.Usenet.Reader.Find.{offset-Genuine, offset_past}

-- The error that a read of `len` bytes ends with.
abbrev pub read_error : ℕ → ℕ → ℕ → Option Error
read_error size off len =
    if len == 0 then none else (if leb (off + len) size then none else some eof)

-- The error of what is left once a part of it is read.
read_error-step :
    (size off left n : ℕ)
    → 0 < n
    → n ≤ suc left
    → off + n ≤ size
    → read_error size (off + n) (suc left - n) ≡ read_error size off (suc left)
read_error-step size off left n a b c = ground arith

module _ (net : Net) (sizes : List ℕ) (ps : List Bytes) (ls : length sizes ≡ length ps)
    (s : Serves net ps) where
  loop-Genuine :
      (fuel off left : ℕ) (r : FileReaderAt)
      → 0 < length ps
      → left ≤ fuel
      → Genuine ps r
      → let (r', p, e) = read_loop net sizes fuel off left r in
        (p ≡ take left (drop off (whole ps)))
        × (e ≡ read_error (length (whole ps)) off left)
        × Genuine ps r'
  unfolding read_loop
  loop-Genuine fuel off zero r ne f gen = (refl, ground arith, gen)
  loop-Genuine zero off (suc left) r ne f gen = absurd (omega arith)
  loop-Genuine (suc fuel) off (suc left) r ne f gen =
      elim (Bool-cases (ltb off (length (whole ps)))) [
        | inr far ↦
            let k = offset_past net sizes ps ls s off r ne (ground arith) gen in
            let d : drop off (whole ps) ≡ [] = drop_all off (whole ps) (ground arith) in
            rw (k.0, d, read_loop) (refl, ground (arith, far), k.1)
        | inl near ↦
            let k = offset-Genuine net sizes ps ls s off r (ground arith) gen in
            let p : Bytes = take (suc left) (drop (off - offset ps k.0) (part ps k.0)) in
            let l : length p ≡ min (suc left) (offset ps k.0 + length (part ps k.0) - off) = omega (
              arith,
              length-take (suc left) (drop (off - offset ps k.0) (part ps k.0)),
              length-drop (off - offset ps k.0) (part ps k.0),
              k.2,
              k.3,
            ) in
            let size = length (whole ps) in
            let end : offset ps k.0 + length (part ps k.0) ≤ size = omega (
              arith,
              offset_last ps,
              offset-suc ps k.0 k.1,
              offset_mono ps (suc k.0) (length ps) (omega (arith, k.1)) (omega arith),
            ) in
            let r' = (seg_for_offset net sizes off r).0 in
            let h =
              loop-Genuine fuel (off + length p) (suc left - length p) r' ne (omega (arith, l, k.3))
                k.5 in
            rw (k.4, read_loop)
              (
                ap (p ++◌) h.0 ∙ sym (take-part ps k.0 off (suc left) k.1 k.2 k.3),
                h.1
                    ∙ read_error-step size off left (length p) (omega (arith, l, k.3))
                        (omega (arith, l)) (omega (arith, l, k.3, end)),
                h.2,
              )
      ]

  -- A read gives the bytes of the file from the offset on, all that were asked for or all that are
  -- left, with `io.EOF` exactly when they are fewer; whatever the cache held, the first guess was,
  -- and the prefetches brought meanwhile. The cache stays true to the file.
  pub read_at-Genuine :
      (len off : ℕ) (r : FileReaderAt)
      → 0 < length ps
      → Genuine ps r
      → let (r', p, e) = read_at net sizes len off r in
        (p ≡ take len (drop off (whole ps)))
        × (e ≡ read_error (length (whole ps)) off len)
        × Genuine ps r'
  unfolding read_at
  read_at-Genuine len off r ne gen = loop-Genuine len off len r ne (omega arith) gen

  -- `Size` of a reader that has not been asked gives the length of the file.
  pub file_size-whole :
      (r : FileReaderAt)
      → 0 < length ps
      → r.size ≡ none
      → Genuine ps r
      → (file_size net sizes r).1 ≡ ok (length (whole ps))
  unfolding file_size
  file_size-whole r ne unknown gen =
      let n : length sizes - 1 ≡ length ps - 1 = omega (arith, ls) in
      let k = seg-Genuine net sizes ps (length ps - 1) r s (omega arith) gen in
      let e : offset ps (length ps - 1) + length (part ps (length ps - 1)) ≡ length (whole ps) =
        sym (offset-suc ps (length ps - 1) (omega arith))
        ∙ ap (offset ps) {x = suc (length ps - 1)} (omega arith)
        ∙ offset_last ps in
      rw (unknown, n, k.0, file_size) (ap ok e)
