-- ===== src/Stream/Zip/Tests.antt =====
-- A small archive, and the theorems at it.
use torrin.Prelude.{zero, suc, get_elem?, ◌+◌, ◌≡◌, refl, true, false, some, List, [], ◌∷◌, length}
use torrin.Prelude.Text.{bytes, has_prefix}
use torrin.Prelude.Parse.{parse_int, contains_byte, cut_byte}
use torrin.Stream.Zip.Layout.{
  ZipEntry, build_zip_layout, write_range, local_header, central_header, central_extra,
  central_headers, end_records, le16, le32, le64, file_segs, local_offs, files_end, seg_bytes,
}
use torrin.Prelude.Ranges.{range}
use torrin.Stream.Zip.Window.{Files, fetch_from, archive}
use torrin.Stream.Zip.Offsets.{Serves, zip_range}
use torrin.Stream.ByteRange.{parse_byte_range, Answers, zip_response, zip_response-Answers}

abbrev notes : ZipEntry
notes = record { name = bytes "a.txt"; size = 3; crc = 7 }

abbrev cover : ZipEntry
cover = record { name = bytes "b"; size = 2; crc = 9 }

abbrev entries : List ZipEntry
entries = notes ∷ cover ∷ []

abbrev files : Files
files zero = 1 ∷ 2 ∷ 3 ∷ []
files (suc _) = 8 ∷ 9 ∷ []

files_served : Serves files 0 entries
files_served = (refl, (refl, tt))

-- The local header of the first entry takes 35 bytes; its content comes next.
middle : write_range (fetch_from files) 35 36 (build_zip_layout entries).segs ≡ (1 ∷ 2 ∷ [], true)
unfolding build_zip_layout file_segs files_end central_headers local_offs local_header
    central_header central_extra end_records le16 le32 le64 write_range seg_bytes
middle = refl

from_two : parse_byte_range (bytes "bytes=2-") 10 ≡ some (2, 9)
unfolding parse_byte_range has_prefix contains_byte cut_byte parse_int
from_two = refl

cover_offset : get_elem? (local_offs 0 entries) 1 ≡ some 38
unfolding local_offs local_header le16 le32 le64
cover_offset = refl

zip_range_example :
    let l = build_zip_layout entries in
    (write_range (fetch_from files) 35 36 l.segs ≡ (range 35 (36 + 1) (archive files l.segs), true))
    × (l.total ≡ length (archive files l.segs))
zip_range_example = zip_range files entries 35 36 files_served

two_bytes_asked :
    parse_byte_range (bytes "bytes=35-36") (build_zip_layout entries).total ≡ some (35, 36)
unfolding parse_byte_range has_prefix contains_byte cut_byte parse_int build_zip_layout file_segs
    files_end central_headers local_offs local_header central_header central_extra end_records le16
    le32 le64
two_bytes_asked = refl

zip_response-Answers_example :
    Answers
      (archive files (build_zip_layout entries).segs)
      false
      true
      (bytes "bytes=35-36")
      (zip_response (fetch_from files) false true (bytes "bytes=35-36") entries)
zip_response-Answers_example =
    zip_response-Answers files entries false true (bytes "bytes=35-36") files_served
