-- ===== src/Usenet/Lazy/Reads.antt =====
-- `ReadAt` against the parts of the file.
use torrin.Prelude.{
  ℕ, zero, suc, ◌+◌, ◌-◌, ◌^◌, ◌≤◌, ◌<◌, ◌≡◌, refl, ap, sym, ◌∙◌, inl, inr, Option, none, some,
  List, [], ◌∷◌, ◌++◌, Result, ok, err, Bool-cases, min, leb, length, get_or, take, drop,
  length-append, length-take, length-drop, arith,
}
use mathlib.Core.List.{append_assoc}
use torrin.Prelude.Int.{pos}
use torrin.Prelude.Text.{Text}
use mathlib.Core.Path.{subst}
use torrin.Prelude.Ranges.{drop_all}
use torrin.Prelude.Parts.{
  Bytes, whole, offset, part, offset-suc, offset_mono, offset_last, take-part,
}
use torrin.Usenet.Lazy.Machine.{
  NzbFile, sort_segments, new_reader, Failure, Error, eof, failed, Seg, no_seg, Reader, Net, get,
  search, read_turn, read_loop, read_at,
}
use torrin.Usenet.Lazy.Layout.{
  Named, fresh, new_reader-Fits, Fits, Fits-length, seg-Fits, search-Fits,
}
use torrin.Usenet.Lazy.Genuine.{Truthful, Genuine, Got, Read, after, get-Got}

module _ (net : Net) (group : Text) (ss : List Seg) (ps : List Bytes) (fits : Fits 0 ss ps)
    (truthful : Truthful net group ss ps) where
  -- A read that gives a chunk first.
  longer :
      (off left : ℕ) (chunk : Bytes) (o : Reader × Bytes × Option Error)
      → length chunk ≤ left
      → take left (drop off (whole ps))
        ≡ chunk ++ take (left - length chunk) (drop (off + length chunk) (whole ps))
      → Read net group ss ps (off + length chunk) (left - length chunk) o
      → Read net group ss ps off left (let (r, p, e) = o in (r, chunk ++ p, e))
  longer off left chunk (r, p, none) h e (a, b, g) =
      (rw (e, a) refl, omega (arith, length-append chunk p, b, h), g)
  longer off left chunk (r, p, some eof) h e (a, b, g) =
      (rw (e, a) refl, omega (arith, length-append chunk p, b, h), g)
  longer off left chunk (r, p, some (failed x)) h e ((rest, a), f, g) =
      ((rest, append_assoc chunk p rest ∙ ap (chunk ++◌) a ∙ sym e), f, g)

  -- Where the loop stands before segment `idx`.
  abbrev At : ℕ → ℕ → Type 0
  At idx off =
      (offset ps idx ≤ off)
      × (off ≤ length (whole ps))
      × (idx < length ps → off < offset ps idx + length (part ps idx))

  turn-Read :
      (again : ℕ → ℕ → Reader → Reader × Bytes × Option Error) (idx off left : ℕ)
      (o : Reader × Result Failure Bytes)
      → idx < length ps
      → 0 < left
      → At idx off
      → Got net group ss ps idx o
      → ((off' left' : ℕ) (r' : Reader)
          → Genuine net group ss ps r'
          → (0 < left' → At (idx + 1) off')
          → Read net group ss ps off' left' (again off' left' r'))
      → Read net group ss ps off left (read_turn again (offset ps idx) off left o)
  unfolding read_turn
  turn-Read again idx off left (r, err e) lt pos_left at (f, g) ih =
      ((take left (drop off (whole ps)), refl), f, g)
  turn-Read again idx off left (r, ok d) lt pos_left (a, b, c) (d_eq, g) ih =
      let chunk : Bytes = take left (drop (off - offset ps idx) d) in
      let l : length chunk ≡ min left (offset ps idx + length (part ps idx) - off) = omega (
        arith,
        length-take left (drop (off - offset ps idx) d),
        length-drop (off - offset ps idx) d,
        ap length d_eq,
        a,
        c lt,
      ) in
      let next : offset ps (idx + 1) ≡ offset ps idx + length (part ps idx) =
        ap (offset ps) {x = idx + 1} {y = suc idx} (omega arith) ∙ offset-suc ps idx lt in
      let split : take left (drop off (whole ps))
          ≡ chunk ++ take (left - length chunk) (drop (off + length chunk) (whole ps)) =
        rw d_eq (take-part ps idx off left lt a (c lt)) in
      longer off left chunk (again (off + length chunk) (left - length chunk) r) (omega (arith, l))
        split
        (ih (off + length chunk) (left - length chunk) r g (λ more. (
          omega (arith, next, l, more, a, c lt),
          omega (
            arith,
            next,
            l,
            a,
            c lt,
            offset_last ps,
            offset_mono ps (idx + 1) (length ps) (omega (arith, lt)) (omega arith),
          ),
          λ lt'. omega (arith, next, l, more, (seg-Fits 0 ss ps (idx + 1) fits lt').2, a, c lt),
        )))

  loop-Read :
      (n idx off left : ℕ) (r : Reader)
      → n + idx ≡ length ps
      → Genuine net group ss ps r
      → (0 < left → At idx off)
      → Read net group ss ps off left (read_loop net n idx off left r)
  unfolding read_loop
  loop-Read n idx off zero r e g at = (refl, refl, g)
  loop-Read zero idx off (suc left) r e g at =
      let (a, b, c) = at (omega arith) in
      let first : offset ps idx ≡ length (whole ps) =
        ap (offset ps) {x = idx} (omega (arith, e)) ∙ offset_last ps in
      let d : drop off (whole ps) ≡ [] = drop_all off (whole ps) (omega (arith, a, first)) in
      (rw d refl, omega arith, g)
  loop-Read (suc n) idx off (suc left) r e g at =
      let lt : idx < length ps = omega (arith, e) in
      let s : (get_or r.segs idx no_seg).start ≡ offset ps idx =
        rw g.its_segs (omega (arith, (seg-Fits 0 ss ps idx fits lt).0)) in
      rw (s, read_loop)
        (turn-Read (read_loop net n (idx + 1)) idx off (suc left) (get net idx r) lt (omega arith)
          (at (omega arith)) (get-Got net group ss ps fits truthful idx r lt g)
          (λ off' left' r' g' at'. loop-Read n (idx + 1) off' left' r' (omega (arith, e)) g' at'))

  pub read_at-Read :
      (len off : ℕ) (r : Reader)
      → Genuine net group ss ps r
      → Read net group ss ps off len (read_at net len (pos off) r)
  unfolding read_at
  read_at-Read zero off r g = (refl, refl, g)
  read_at-Read (suc len) off r g = elim (Bool-cases (leb r.size off)) [
    | inl behind ↦
        let d : drop off (whole ps) ≡ [] =
          drop_all off (whole ps) (ground (arith, behind, g.its_size)) in
        rw (behind, read_at) (rw d refl, omega arith, g)
    | inr inside ↦
        let lt : off < length (whole ps) = ground (arith, inside, g.its_size) in
        let own : Fits 0 r.segs ps = rw g.its_segs fits in
        let (a, b, c) = search-Fits 0 r.segs ps off own (omega arith) (omega (arith, lt)) in
        let n : length r.segs ≡ length ps = Fits-length 0 r.segs ps own in
        rw (inside, read_at)
          (loop-Read (length r.segs - search r.segs off) (search r.segs off) off (suc len) r
            (omega (arith, n, a)) g
            (λ more. (omega (arith, b), omega (arith, lt), λ k. omega (arith, c))))
  ]

  pub after-Genuine :
      (reads : List (ℕ × ℕ)) (r : Reader)
      → Genuine net group ss ps r
      → Genuine net group ss ps (after net reads r)
  unfolding after
  after-Genuine [] r g = g
  after-Genuine ((len, off) ∷ reads) r g =
      after-Genuine reads (read_at net len (pos off) r).0
        (kept (read_at net len (pos off) r) (read_at-Read len off r g))
    where
      kept :
          (o : Reader × Bytes × Option Error)
          → Read net group ss ps off len o
          → Genuine net group ss ps o.0
      kept (r', p, none) h = h.2
      kept (r', p, some eof) h = h.2
      kept (r', p, some (failed e)) h = h.2

abbrev ok_reader : Reader → Result Failure Reader
ok_reader r = ok r

-- A read of a release's file gives the bytes behind its offset, all that were asked for or all that
-- are left with io.EOF, whatever was read before; or the first of them and an error, and then a
-- fetch of a segment failed. So it is while servers fail or send articles that have another size or
-- place, and whatever the prefetches brought meanwhile.
pub reader_reads :
    (file : NzbFile) (ps : List Bytes) (net : Net) (r : Reader) (reads : List (ℕ × ℕ)) (len off : ℕ)
    → Named (sort_segments file.segments) ps
    → 0 < length ps
    → length (whole ps) < 2 ^ 63
    → new_reader file ≡ ok r
    → Truthful net r.group r.segs ps
    → Read net r.group r.segs ps off len (read_at net len (pos off) (after net reads r))
reader_reads file ps net r reads len off named ne small made truthful =
    let (ss, e, fits) = new_reader-Fits file ps named ne small in
    let it : fresh file ss (length (whole ps)) ≡ r = ok_injective (sym e ∙ made) in
    let its_segs : ss ≡ r.segs = ap (λ x. x.segs) it in
    let its_size : length (whole ps) ≡ r.size = ap (λ x. x.size) it in
    let own : Fits 0 r.segs ps = subst (λ x. Fits 0 x ps) its_segs fits in
    read_at-Read net r.group r.segs ps own truthful len off (after net reads r) (
      after-Genuine net r.group r.segs ps own truthful reads r (record {
        its_group = refl;
        its_segs = refl;
        its_size = sym its_size;
        its_cache = λ i d lt h.
            let empty : none ≡ some d = ap (λ x. x.cache i) it ∙ h in
            absurd (ground (arith, empty));
      }))
  where
    ok_injective : {a b : Reader} → ok_reader a ≡ ok_reader b → a ≡ b
    ok_injective {a} p = ap (λ o. elim o [ ok x ↦ x | err e ↦ a ]) p
