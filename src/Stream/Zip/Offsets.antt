-- ===== src/Stream/Zip/Offsets.antt =====
-- The layout of an archive: its segments follow one another, the recorded offsets are where the
-- headers stand, and the trailer's fields point at the central directory.
use mathlib.Core.List.{append-nil}
use torrin.Prelude.{
  ℕ, zero, suc, ◌+◌, ◌-◌, ◌^◌, ◌≤◌, ◌<◌, ◌≡◌, refl, sym, ap, ◌∙◌, true, some, List, [], ◌∷◌, ◌++◌,
  length, get_elem?, length-append, arith,
}
use torrin.Prelude.Ranges.{range, range_skip, range_within, range_whole, range_second}
use torrin.Stream.Zip.Headers.{read_offset, read_offset-central_header}
use torrin.Stream.Zip.Window.{
  Files, fetch_from, archive, seg_content, IsLaidOut, write_range-window,
}
use torrin.Stream.Zip.Layout.{
  Bytes, ZipEntry, ZipSeg, local_header, central_header, file_segs, local_offs, files_end,
  central_headers, end_records, le32, build_zip_layout, write_range,
}

-- The stored files are as long as the entries say.
abbrev pub Serves : Files → ℕ → List ZipEntry → Type 0
Serves files i [] = Unit
Serves files i (e ∷ es) = (length (files i) ≡ e.size) × Serves files (i + 1) es

-- The last segment.
abbrev pub trailer : List ZipEntry → Bytes
trailer entries =
    let cd = central_headers entries (local_offs 0 entries) in
    cd ++ end_records (length entries) (length cd) (files_end 0 entries)

trailer_seg : List ZipEntry → ZipSeg
trailer_seg entries = record {
  off = files_end 0 entries;
  size = length (trailer entries);
  hdr = some (trailer entries);
  file_idx = 0;
}

segs_lem :
    (entries : List ZipEntry)
    → (build_zip_layout entries).segs ≡ file_segs 0 0 entries ++ (trailer_seg entries ∷ [])
unfolding build_zip_layout trailer_seg
segs_lem entries = refl

IsLaidOut-files :
    (files : Files) (off i : ℕ) (es : List ZipEntry) (t : ZipSeg)
    → Serves files i es
    → t.off ≡ files_end off es
    → length (seg_content files t) ≡ t.size
    → IsLaidOut files off (file_segs off i es ++ (t ∷ []))
unfolding file_segs files_end seg_content
IsLaidOut-files files off i [] t s e l = (e, l, tt)
IsLaidOut-files files off i (x ∷ es) t s e l = (
  refl,
  refl,
  (refl, s.0, IsLaidOut-files files (off + length (local_header x) + x.size) (i + 1) es t s.1 e l),
)

layout-IsLaidOut :
    (files : Files) (entries : List ZipEntry)
    → Serves files 0 entries
    → IsLaidOut files 0 (build_zip_layout entries).segs
unfolding trailer_seg seg_content
layout-IsLaidOut files entries s =
    rw (segs_lem entries) (IsLaidOut-files files 0 0 entries (trailer_seg entries) s refl refl)

files_length :
    (files : Files) (off i : ℕ) (es : List ZipEntry) (t : ZipSeg)
    → Serves files i es
    → length (archive files (file_segs off i es ++ (t ∷ []))) + off
      ≡ files_end off es + length (seg_content files t)
unfolding file_segs files_end archive seg_content
files_length files off i [] t s = rw (append-nil (seg_content files t)) (omega arith)
files_length files off i (x ∷ es) t s =
    let off' = off + length (local_header x) + x.size in
    omega (
      arith,
      files_length files off' (i + 1) es t s.1,
      s.0,
      length-append (local_header x)
          (files i ++ archive files (file_segs off' (i + 1) es ++ (t ∷ []))),
      length-append (files i) (archive files (file_segs off' (i + 1) es ++ (t ∷ []))),
    )

-- The layout's total is the length of the archive.
pub total-length :
    (files : Files) (entries : List ZipEntry)
    → Serves files 0 entries
    → (build_zip_layout entries).total ≡ length (archive files (build_zip_layout entries).segs)
unfolding trailer_seg seg_content
total-length files entries s =
    let n : (build_zip_layout entries).total ≡ files_end 0 entries + length (trailer entries) =
      unfold build_zip_layout in refl in
    rw (segs_lem entries) (omega (arith, n, files_length files 0 0 entries (trailer_seg entries) s))

append_positive : (xs ys : Bytes) → 0 < length ys → 0 < length (xs ++ ys)
append_positive xs ys h = omega (arith, h, length-append xs ys)

four_positive : (v : ℕ) (ys : Bytes) → 0 < length (le32 v ++ ys)
unfolding le32
four_positive v ys = omega arith

end_records_positive :
    (entries cd_size cd_off : ℕ) → 0 < length (end_records entries cd_size cd_off)
unfolding end_records
end_records_positive entries cd_size cd_off = search (append_positive, four_positive)

-- No archive is empty.
pub total_positive : (entries : List ZipEntry) → 0 < (build_zip_layout entries).total
unfolding build_zip_layout
total_positive entries =
    let cd = central_headers entries (local_offs 0 entries) in
    let ends = end_records (length entries) (length cd) (files_end 0 entries) in
    omega (
      arith,
      length-append cd ends,
      end_records_positive (length entries) (length cd) (files_end 0 entries),
    )

-- For entries whose sizes are those of the stored files, a request for the bytes from `start` to
-- `last` of the archive is answered with exactly these bytes, both included; and the total that
-- the server announces is the length of the archive.
pub zip_range :
    (files : Files) (entries : List ZipEntry) (start last : ℕ)
    → Serves files 0 entries
    → let l = build_zip_layout entries in
      (write_range (fetch_from files) start last l.segs
        ≡ (range start (last + 1) (archive files l.segs), true))
      × (l.total ≡ length (archive files l.segs))
zip_range files entries start last s =
    let l = build_zip_layout entries in
    (
      write_range-window files start last 0 l.segs (layout-IsLaidOut files entries s)
          ∙ ap (λ k. (range k (last + 1 - 0) (archive files l.segs), true)) {x = start - 0}
              {y = start} (omega arith)
          ∙ ap (λ k. (range start k (archive files l.segs), true)) {x = last + 1 - 0} {y = last + 1}
              (omega arith),
      total-length files entries s,
    )

-- What stands at an offset: the local header of an entry, and behind it the file's content.
abbrev pub StandsAt : Bytes → ZipEntry → Bytes → ℕ → Type 0
StandsAt bytes e content o =
    let n = length (local_header e) in
    (range o (o + n) bytes ≡ local_header e) × (range (o + n) (o + n + e.size) bytes ≡ content)

stands_here :
    (e : ZipEntry) (content rest : Bytes)
    → length content ≡ e.size
    → StandsAt (local_header e ++ (content ++ rest)) e content 0
stands_here e content rest h =
    let n = length (local_header e) in
    let z : 0 + n ≡ n = omega arith in
    rw z (
      range_within 0 n (local_header e) (content ++ rest) (omega arith)
          ∙ range_whole n (local_header e) (omega arith),
      ap (λ k. range n (n + k) (local_header e ++ (content ++ rest))) (sym h)
          ∙ range_second (local_header e) content rest,
    )

stands_later :
    (h content rest : Bytes) (e : ZipEntry) (c : Bytes) (o p : ℕ)
    → o ≡ length h + length content + p
    → StandsAt rest e c p
    → StandsAt (h ++ (content ++ rest)) e c o
stands_later h content rest e c o p eo st =
    let n = length (local_header e) in
    (
      skip o (o + n) p (p + n) (omega arith) (omega arith) ∙ st.0,
      skip (o + n) (o + n + e.size) (p + n) (p + n + e.size) (omega arith) (omega arith) ∙ st.1,
    )
  where
    skip :
        (a b a' b' : ℕ)
        → a ≡ length h + length content + a'
        → b ≡ length h + length content + b'
        → range a b (h ++ (content ++ rest)) ≡ range a' b' rest
    skip a b a' b' ea eb =
        let ha : a - length h - length content ≡ a' = omega arith in
        let hb : b - length h - length content ≡ b' = omega arith in
        range_skip a b h (content ++ rest) (omega arith)
        ∙ range_skip (a - length h) (b - length h) content rest (omega arith)
        ∙ rw (ha, hb) refl

offs_ge :
    (off : ℕ) (es : List ZipEntry) (k o : ℕ) → get_elem? (local_offs off es) k ≡ some o → off ≤ o
unfolding local_offs
offs_ge off [] k o h = absurd (ground arith)
offs_ge off (x ∷ es) zero o h = ground arith
offs_ge off (x ∷ es) (suc k) o h =
    omega (arith, offs_ge (off + length (local_header x) + x.size) es k o h)

local_at :
    (files : Files) (off i : ℕ) (es : List ZipEntry) (t : ZipSeg)
    → Serves files i es
    → (k : ℕ) (e : ZipEntry) (o : ℕ) → get_elem? es k ≡ some e
    → get_elem? (local_offs off es) k ≡ some o
    → StandsAt (archive files (file_segs off i es ++ (t ∷ []))) e (files (i + k)) (o - off)
unfolding file_segs local_offs archive seg_content
local_at files off i [] t s k e o he ho = absurd (ground arith)
local_at files off i (x ∷ es) t s zero e o he ho =
    let ex : x ≡ e = ground arith in
    let eo : o - off ≡ 0 = ground arith in
    let ei : i + 0 ≡ i = omega arith in rw (eo, ei, ← ex) (stands_here x (files i) _ s.0)
local_at files off i (x ∷ es) t s (suc k) e o he ho =
    let off' = off + length (local_header x) + x.size in
    let ei : i + suc k ≡ i + 1 + k = omega arith in
    rw ei (
      stands_later (local_header x) (files i)
        (archive files (file_segs off' (i + 1) es ++ (t ∷ []))) e (files (i + 1 + k)) (o - off)
        (o - off') (omega (arith, s.0, offs_ge off' es k o ho))
        (local_at files off' (i + 1) es t s.1 k e o he ho))

-- A reader that takes the offset from the central header of entry `k` finds at that place of the
-- archive the local header of the entry, and right behind it the bytes of the file.
pub central_points_home :
    (files : Files) (entries : List ZipEntry) (k : ℕ) (e : ZipEntry) (o : ℕ)
    → Serves files 0 entries
    → get_elem? entries k ≡ some e
    → get_elem? (local_offs 0 entries) k ≡ some o
    → o < 2 ^ 64
    → StandsAt
        (archive files (build_zip_layout entries).segs)
        e
        (files k)
        (read_offset (central_header e o))
central_points_home files entries k e o s he ho h =
    let z : o - 0 ≡ o = omega arith in
    let i : 0 + k ≡ k = omega arith in
    let st = local_at files 0 0 entries (trailer_seg entries) s k e o he ho in
    rw (read_offset-central_header e o h, segs_lem entries) (rw (z, i) at st)
