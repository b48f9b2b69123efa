-- ===== src/Stream/Zip/Window.antt =====
-- A range request gets exactly the bytes of its range.
use torrin.Prelude.{
  ℕ, ◌+◌, ◌-◌, ◌≤◌, ◌<◌, ◌≡◌, refl, true, ◌||◌, Option, none, some, List, [], ◌∷◌, ◌++◌, ltb, leb,
  min, max, length, take, drop, Bool-cases, Option-cases, inl, inr, arith,
}
use torrin.Prelude.Ranges.{range, range-append, range_before, range_after, range_clip}
use torrin.Stream.Zip.Layout.{Bytes, ZipSeg, seg_bytes, write_range}

-- The bytes of the files, by index.
abbrev pub Files : Type 0
Files = ℕ → Bytes

-- A store that serves any part of a file.
abbrev pub fetch_from : Files → ℕ → ℕ → ℕ → Option Bytes
fetch_from files idx off n = some (take n (drop off (files idx)))

unfoldable pub seg_content : Files → ZipSeg → Bytes
seg_content files s = elim s.hdr [ some h ↦ h | none ↦ files s.file_idx ]

-- The whole archive.
unfoldable pub archive : Files → List ZipSeg → Bytes
unfolding seg_content
archive files [] = []
archive files (s ∷ segs) = seg_content files s ++ archive files segs

-- The segments follow one another from `off` on, each as long as its bytes.
abbrev pub IsLaidOut : Files → ℕ → List ZipSeg → Type 0
IsLaidOut files off [] = Unit
IsLaidOut files off (s ∷ segs) =
    (s.off ≡ off) × (length (seg_content files s) ≡ s.size) × IsLaidOut files (off + s.size) segs

-- The clamped bounds select the same bytes of a segment.
clamped :
    (off size start last : ℕ) (c : Bytes)
    → length c ≡ size
    → start < off + size
    → off ≤ last
    → take (min last (off + size - 1) + 1 - max start off) (drop (max start off - off) c)
      ≡ range (start - off) (last + 1 - off) c
unfolding range
clamped off size start last c e h k =
    let from : max start off - off ≡ start - off = omega arith in
    let count : min last (off + size - 1) + 1 - max start off
        ≡ min (last + 1 - off) size - (start - off) =
      omega arith in
    rw (from, count)
      (range_clip (start - off) (min (last + 1 - off) size) (last + 1 - off) c (omega arith))

seg_bytes-range :
    (files : Files) (start last : ℕ) (s : ZipSeg)
    → length (seg_content files s) ≡ s.size
    → start < s.off + s.size
    → s.off ≤ last
    → seg_bytes (fetch_from files) start last s
      ≡ some (range (start - s.off) (last + 1 - s.off) (seg_content files s))
unfolding seg_bytes seg_content
seg_bytes-range files start last s e h k = elim (Option-cases s.hdr) [
  | inl file ↦
      let c : length (files s.file_idx) ≡ s.size = ground arith in
      ground (arith, clamped s.off s.size start last (files s.file_idx) c h k)
  | inr (b, stored) ↦
      let c : length b ≡ s.size = ground arith in
      ground (arith, clamped s.off s.size start last b c h k)
]

-- The range of an archive is the range of its first segment, then that of the others.
range-archive :
    (files : Files) (start last off : ℕ) (s : ZipSeg) (segs : List ZipSeg)
    → length (seg_content files s) ≡ s.size
    → range (start - off) (last + 1 - off) (archive files (s ∷ segs))
      ≡ range (start - off) (last + 1 - off) (seg_content files s)
        ++ range (start - (off + s.size)) (last + 1 - (off + s.size)) (archive files segs)
unfolding archive
range-archive files start last off s segs e =
    let a : start - off - length (seg_content files s) ≡ start - (off + s.size) = omega arith in
    let b : last + 1 - off - length (seg_content files s) ≡ last + 1 - (off + s.size) =
      omega arith in
    rw (← a, ← b)
      (range-append (start - off) (last + 1 - off) (seg_content files s) (archive files segs))

range_skipped :
    (off size start last : ℕ) (c : Bytes)
    → length c ≡ size
    → (leb (off + size) start || ltb last off) ≡ true
    → range (start - off) (last + 1 - off) c ≡ []
range_skipped off size start last c e h = elim (Bool-cases (leb (off + size) start)) [
  | inl past ↦ range_before (start - off) (last + 1 - off) c (ground arith)
  | inr open_end ↦ range_after (start - off) (last + 1 - off) c (ground arith)
]

pub archive_nil : (files : Files) → archive files [] ≡ []
unfolding archive
archive_nil files = refl

-- Over segments that are laid out one after the other, with a store that serves every part of
-- every file, `writeRange` succeeds and writes exactly the bytes from `start` to `last` of
-- the archive, both included.
pub write_range-window :
    (files : Files) (start last off : ℕ) (segs : List ZipSeg)
    → IsLaidOut files off segs
    → write_range (fetch_from files) start last segs
      ≡ (range (start - off) (last + 1 - off) (archive files segs), true)
unfolding write_range
write_range-window files start last off [] l =
    ground (arith, archive_nil files, range_before {A = ℕ} (start - off) (last + 1 - off) [])
write_range-window files start last off (s ∷ segs) l =
    let ih = write_range-window files start last (off + s.size) segs l.2 in
    let c = seg_content files s in
    let parts = range-archive files start last off s segs l.1 in
    elim (Bool-cases (leb (s.off + s.size) start || ltb last s.off)) [
      | inl skipped ↦
          let none_here : range (start - off) (last + 1 - off) c ≡ [] =
            range_skipped off s.size start last c l.1 (rw (← l.0) skipped) in
          ground (arith, ih, parts, none_here, skipped)
      | inr taken ↦
          let got : seg_bytes (fetch_from files) start last s
              ≡ some (range (start - off) (last + 1 - off) c) =
            rw (← l.0) (seg_bytes-range files start last s l.1 (ground arith) (ground arith)) in
          ground (arith, ih, parts, got, taken)
    ]
