-- ===== src/Stream/ByteRange.antt =====
-- stream/internal/server/zip.go, parseByteRange: the Range header of a request.
use torrin.Prelude.{
  ℕ, ◌+◌, ◌-◌, ◌≤◌, ◌<◌, ◌≡◌, refl, ap, sym, ◌∙◌, Bool, true, false, ◌||◌, not, Option, none, some,
  List, [], ◌∷◌, if◌then◌else◌, ltb, leb, ◌==◌, length, drop, arith, Option-cases, Bool-cases, inl,
  inr,
}
use torrin.Prelude.Int.{ℤ, pos, negsuc}
use torrin.Prelude.Text.{Text, bytes, has_prefix}
use torrin.Prelude.Parse.{parse_int, contains_byte, cut_byte}
use torrin.Prelude.Ranges.{range, take_all, length-range}
use torrin.Stream.Zip.Window.{Files, fetch_from, archive}
use torrin.Stream.Zip.Offsets.{Serves, zip_range, total-length, total_positive}
use torrin.Stream.Zip.Layout.{Bytes, ZipEntry, ZipSeg, build_zip_layout, write_range}

-- `bytes=-n`: the last `n` bytes.
suffix_range : Option ℤ → ℕ → Option (ℕ × ℕ)
suffix_range none size = none
suffix_range (some (negsuc n)) size = none
suffix_range (some (pos n)) size =
    if n == 0 then none else let m = if ltb size n then size else n in some (size - m, size - 1)

-- The end of a range that begins at `start`; none is the last byte.
range_end : ℕ → Text → ℕ → Option (ℕ × ℕ)
range_end start [] size = some (start, size - 1)
range_end start (c ∷ s) size = elim (parse_int (c ∷ s)) [
  | none ↦ none
  | some (negsuc n) ↦ none
  | some (pos last) ↦
      if ltb last start then none else some (start, if leb size last then size - 1 else last)
]

start_range : Option ℤ → Text → ℕ → Option (ℕ × ℕ)
unfolding range_end
start_range none s size = none
start_range (some (negsuc n)) s size = none
start_range (some (pos start)) s size = if leb size start then none else range_end start s size

-- What stands on the two sides of the dash.
split_range : Text → Text → ℕ → Option (ℕ × ℕ)
unfolding suffix_range start_range
split_range [] last size = suffix_range (parse_int last) size
split_range (c ∷ s) last size = start_range (parse_int (c ∷ s)) last size

-- `h[len(p):]` is read only where the prefix is there.
unfoldable pub parse_byte_range : Text → ℕ → Option (ℕ × ℕ)
unfolding split_range
parse_byte_range h size =
    let spec = drop 6 h in
    if not (has_prefix h (bytes "bytes=")) || size == 0
    then none
    else if contains_byte b',' spec
    then none
    else elim (cut_byte b'-' spec) [
      | none ↦ none
      | some (start, last) ↦ split_range start last size
    ]

-- An accepted range lies in the archive and is not empty.
pub parse_byte_range_bounds :
    (h : Text) (size a b : ℕ) → parse_byte_range h size ≡ some (a, b) → (a ≤ b) × (b < size)
unfolding parse_byte_range
parse_byte_range_bounds h size a b e = elim (Option-cases (cut_byte b'-' (drop 6 h))) [
  | inl no_dash ↦ absurd (ground arith)
  | inr ((start, last), dash) ↦ split_bounds start last size a b (ground arith) (ground arith)
]
  where
    split_bounds :
        (start last : Text) (size a b : ℕ)
        → (size == 0) ≡ false
        → split_range start last size ≡ some (a, b)
        → (a ≤ b) × (b < size)
    split_bounds [] last size a b n e = ground arith
    split_bounds (c ∷ s) [] size a b n e = ground arith
    split_bounds (c ∷ s) (d ∷ t) size a b n e = ground arith

-- What the client gets for an archive that can be sought: the refusals, the headers alone, or these
-- and the bytes. A range stands with the total, as in Content-Range; then the announced length.
pub data Response : Type 0 where
  bad_range : ℕ → Response
  too_many : Response
  headers : ℕ → Option (ℕ × ℕ × ℕ) → ℕ → Response
  content : ℕ → Option (ℕ × ℕ × ℕ) → ℕ → Bytes × Bool → Response

-- `isHead`, the guard of the downloads, and the bytes from `start` to `last`. `end-start+1` is
-- written `last + 1 - start`.
unfoldable pub send_range :
    (ℕ → ℕ → ℕ → Option Bytes)
    → Bool
    → Bool
    → List ZipSeg
    → ℕ
    → ℕ
    → ℕ
    → Option (ℕ × ℕ × ℕ)
    → Response
send_range fetch is_head free segs start last status stated =
    let n = last + 1 - start in
    if is_head
    then headers status stated n
    else if not free
    then too_many
    else content status stated n (write_range fetch start last segs)

-- The handler behind the check of the entries. `free` is whether the guard has room for the user; a
-- request with a range does not ask it. The `total-1` of an empty archive does not arise.
unfoldable pub zip_response :
    (ℕ → ℕ → ℕ → Option Bytes) → Bool → Bool → Text → List ZipEntry → Response
unfolding send_range
zip_response fetch is_head free range_hdr entries =
    let layout = build_zip_layout entries in
    if length range_hdr == 0
    then send_range fetch is_head free layout.segs 0 (layout.total - 1) 200 none
    else (elim (parse_byte_range range_hdr layout.total) [
      | none ↦ bad_range layout.total
      | some (start, last) ↦
          send_range fetch is_head true layout.segs start last 206
            (some (start, last, layout.total))
    ])

-- The bytes that a response is about: all of the archive, or those of its range.
abbrev pub stated_bytes : Bytes → Option (ℕ × ℕ × ℕ) → Bytes
stated_bytes all none = all
stated_bytes all (some (start, last, total)) = range start (last + 1) all

-- Whether status and Content-Range are those of a whole archive or of a range in it that the header
-- names.
abbrev pub Stated : Bytes → Text → ℕ → Option (ℕ × ℕ × ℕ) → Type 0
Stated all range_hdr status none = (status ≡ 200) × (length range_hdr ≡ 0)
Stated all range_hdr status (some (start, last, total)) =
    (status ≡ 206)
    × (parse_byte_range range_hdr (length all) ≡ some (start, last))
    × (start ≤ last)
    × (last < length all)
    × (total ≡ length all)

-- What a response to a request may be, for an archive.
abbrev pub Answers : Bytes → Bool → Bool → Text → Response → Type 0
Answers all is_head free range_hdr (bad_range total) =
    (0 < length range_hdr) × (total ≡ length all) × (parse_byte_range range_hdr (length all) ≡ none)
Answers all is_head free range_hdr too_many =
    (length range_hdr ≡ 0) × (is_head ≡ false) × (free ≡ false)
Answers all is_head free range_hdr (headers status stated n) =
    (is_head ≡ true) × Stated all range_hdr status stated × (n ≡ length (stated_bytes all stated))
Answers all is_head free range_hdr (content status stated n out) =
    (is_head ≡ false)
    × Stated all range_hdr status stated
    × (n ≡ length (stated_bytes all stated))
    × (out ≡ (stated_bytes all stated, true))

send_range-whole :
    (files : Files) (entries : List ZipEntry) (is_head free : Bool) (h : Text)
    → Serves files 0 entries
    → length h ≡ 0
    → 0 < (build_zip_layout entries).total
    → let l = build_zip_layout entries in
      Answers
        (archive files l.segs)
        is_head
        free
        h
        (send_range (fetch_from files) is_head free l.segs 0 (l.total - 1) 200 none)
unfolding send_range range
send_range-whole files entries is_head free h s z filled =
    let l = build_zip_layout entries in
    let all = archive files l.segs in
    let (written, total) = zip_range files entries 0 (l.total - 1) s in
    let n : l.total - 1 + 1 - 0 ≡ length all = omega (arith, total, filled) in
    let every : range 0 (l.total - 1 + 1) all ≡ all =
      take_all (l.total - 1 + 1 - 0) all (omega (arith, n)) in
    elim (Bool-cases is_head) [
      | inl head ↦ rw head (refl, (refl, z), n)
      | inr get ↦ elim (Bool-cases free) [
        | inr full ↦ rw (get, full) (z, refl, refl)
        | inl room ↦ rw (get, room) (refl, (refl, z), n, written ∙ ap (λ b. (b, true)) every)
      ]
    ]

send_range-part :
    (files : Files) (entries : List ZipEntry) (is_head free : Bool) (h : Text) (a b : ℕ)
    → Serves files 0 entries
    → let l = build_zip_layout entries in
      parse_byte_range h l.total ≡ some (a, b)
      → Answers
          (archive files l.segs)
          is_head
          free
          h
          (send_range (fetch_from files) is_head true l.segs a b 206 (some (a, b, l.total)))
unfolding send_range
send_range-part files entries is_head free h a b s e =
    let l = build_zip_layout entries in
    let all = archive files l.segs in
    let (written, total) = zip_range files entries a b s in
    let (le, lt) = parse_byte_range_bounds h l.total a b e in
    let n : b + 1 - a ≡ length (range a (b + 1) all) =
      omega (arith, total, lt, length-range a (b + 1) all) in
    let stated : Stated all h 206 (some (a, b, l.total)) =
      (refl, ap (parse_byte_range h) (sym total) ∙ e, le, omega (arith, lt, total), total) in
    elim (Bool-cases is_head) [
      | inl head ↦ rw head (refl, stated, n)
      | inr get ↦ rw get (refl, stated, n, written)
    ]

-- For entries whose sizes are those of the stored files, and any Range header: a header that is not
-- accepted is refused with the total. Any other request gets the whole archive with status 200 if it
-- has no such header, or with status 206 exactly the bytes of the range, which lies in the archive and
-- is the one stated; the announced length is that of these bytes. Only a HEAD request gets the headers
-- alone, and only a request for the whole archive is turned away, where the guard has no room.
pub zip_response-Answers :
    (files : Files) (entries : List ZipEntry) (is_head free : Bool) (h : Text)
    → Serves files 0 entries
    → Answers
        (archive files (build_zip_layout entries).segs)
        is_head
        free
        h
        (zip_response (fetch_from files) is_head free h entries)
unfolding zip_response
zip_response-Answers files entries is_head free h s =
    let l = build_zip_layout entries in
    let total = total-length files entries s in
    elim (Bool-cases (length h == 0)) [
      | inl bare ↦
          rw (bare, zip_response)
            (send_range-whole files entries is_head free h s (ground (arith, bare))
              (total_positive entries))
      | inr ranged ↦ elim (Option-cases (parse_byte_range h l.total)) [
        | inl refused ↦
            rw (ranged, refused, zip_response)
              (ground (arith, ranged), total, ap (parse_byte_range h) (sym total) ∙ refused)
        | inr ((a, b), accepted) ↦
            rw (ranged, accepted, zip_response)
              (send_range-part files entries is_head free h a b s accepted)
      ]
    ]
