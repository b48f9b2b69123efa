-- ===== src/Usenet/Lazy/Tests.antt =====
-- A file of two segments from a server that fails once and sends a wrong article once.
use torrin.Prelude.{
  ℕ, zero, suc, ◌<◌, ◌≡◌, refl, ap, sym, ◌∙◌, inl, inr, false, Option, none, some, List, [], ◌∷◌,
  ◌++◌, Result, ok, err, length, get_or, ◌-◌, ◌&&◌, not, if◌then◌else◌, ◌==◌, Bool-cases, arith,
}
use torrin.Prelude.Int.{pos, pos_part, ltb_ℤ}
use torrin.Prelude.Parse.{cut_byte, parse_digits}
use torrin.Prelude.Parts.{Bytes, part, offset}
use torrin.Prelude.Text.{Text, bytes, has_prefix, same, to_lower, trim_space}
use torrin.Prelude.Ranges.{range}
use torrin.Usenet.Yenc.Lines.{normalize, split_lines}
use torrin.Usenet.Yenc.Decode.{
  Error, YencResult, decode, scan, finish, verify_checksum, decode_line, wanted, parse_yenc_header,
  parse_ypart_header, extract_value, int_value, yend_checksums, checksums_of, fields_from,
  parse_hex32, single_part,
}
use torrin.Usenet.Lazy.Machine.{
  no_seg, NzbFile, Reader, Net, sort_segments, new_reader, read_at, failed, fetch_failed,
}
use torrin.Usenet.Lazy.Layout.{Named, fresh}
use torrin.Usenet.Lazy.Genuine.{Truthful, Read, after}
use torrin.Usenet.Lazy.Reads.{reader_reads}

program : Unit {0}
unfolding wanted parse_yenc_header parse_ypart_header extract_value int_value has_prefix same
    cut_byte trim_space parse_digits parse_hex32 yend_checksums checksums_of fields_from to_lower
    single_part decode scan finish verify_checksum decode_line normalize split_lines range
program = tt

abbrev first_text : Text
first_text =
    bytes "=ybegin part=1 line=128 size=5 name=a\n=ypart begin=1 end=3\n"
    ++ (43 ∷ 44 ∷ 45 ∷ 10 ∷ [])
    ++ bytes "=yend size=3\n"

abbrev second_text : Text
second_text =
    bytes "=ybegin part=2 line=128 size=5 name=a\n=ypart begin=4 end=5\n"
    ++ (46 ∷ 47 ∷ 10 ∷ [])
    ++ bytes "=yend size=2\n"

abbrev count_of : Text → ℕ
count_of t = length t

abbrev content_of : Result Error YencResult → Bytes
content_of (ok d) = d.content
content_of (err e) = []

first_content : content_of (decode count_of first_text) ≡ 1 ∷ 2 ∷ 3 ∷ []
unfolding program
first_content = refl

second_content : content_of (decode count_of second_text) ≡ 4 ∷ 5 ∷ []
unfolding program
second_content = refl

abbrev file : NzbFile
file = record {
  groups = bytes "alt.binaries" ∷ [];
  segments =
      record { message_id = bytes "b"; number = pos 2; bytes = pos 2 }
      ∷ record { message_id = bytes "a"; number = pos 1; bytes = pos 3 }
      ∷ [];
}

abbrev parts : List Bytes
parts = (1 ∷ 2 ∷ 3 ∷ []) ∷ (4 ∷ 5 ∷ []) ∷ []

abbrev servers : ℕ → Text → Text → Option Text
servers t [] group = none
servers t (c ∷ id) group =
    if c == b'a'
    then (if t == 1 then none else some first_text)
    else (if t == 5 then some first_text else some second_text)

abbrev net : Net
net = record { crc32 = count_of; servers = servers; prefetched = λ t. [] }

abbrev reader : Reader
reader =
    fresh file
      (record { message_id = bytes "a"; bytes = 3; start = 0; end = 3 }
        ∷ record { message_id = bytes "b"; bytes = 2; start = 3; end = 5 }
        ∷ [])
      5

reader_made : new_reader file ≡ ok reader
unfolding new_reader
reader_made = refl

file-Named : Named (sort_segments file.segments) parts
unfolding sort_segments
file-Named = (refl, omega arith, omega arith, (refl, omega arith, omega arith, tt))

abbrev or_nothing : Option Text → Text
or_nothing none = []
or_nothing (some x) = x

from_text :
    (raw text : Text) (d : YencResult)
    → text ≡ raw
    → decode count_of raw ≡ ok d
    → content_of (decode count_of text) ≡ d.content
from_text raw text d e h = ap (λ x. content_of (decode count_of x)) e ∙ ap content_of h

net-Truthful : Truthful net reader.group reader.segs parts
net-Truthful = record { same_article = article_lem; in_file = λ t. tt }
  where
    article_lem :
        (t i : ℕ) (raw : Text) (d : YencResult)
        → i < 2
        → servers t (get_or reader.segs i no_seg).message_id reader.group ≡ some raw
        → decode count_of raw ≡ ok d
        → length d.content ≡ length (part parts i)
        → (ltb_ℤ (pos 0) d.begin && not (pos_part d.begin - 1 == offset parts i)) ≡ false
        → d.content ≡ part parts i
    article_lem t zero raw d lt sent decoded l b = elim (Bool-cases (t == 1)) [
      | inl down ↦ let no : none ≡ some raw = rw down at sent in absurd (ground (arith, no))
      | inr up ↦
          let it : some first_text ≡ some raw = rw up at sent in
          sym (from_text raw first_text d (ap or_nothing it) decoded) ∙ first_content
    ]
    article_lem t (suc zero) raw d lt sent decoded l b = elim (Bool-cases (t == 5)) [
      | inl wrong ↦
          let it : some first_text ≡ some raw = rw wrong at sent in
          let c : d.content ≡ 1 ∷ 2 ∷ 3 ∷ [] =
            sym (from_text raw first_text d (ap or_nothing it) decoded) ∙ first_content in
          absurd (omega (arith, l, ap length c))
      | inr right ↦
          let it : some second_text ≡ some raw = rw right at sent in
          sym (from_text raw second_text d (ap or_nothing it) decoded) ∙ second_content
    ]
    article_lem t (suc (suc i)) raw d lt sent decoded l b = absurd (omega (arith, lt))

-- The first read meets the failure, the second the wrong article, and the third succeeds.
failed_once : (read_at net 4 (pos 1) reader).2 ≡ some (failed fetch_failed)
unfolding read_at program
failed_once = refl

reader_reads_example :
    Read net reader.group reader.segs parts 1 4
      (read_at net 4 (pos 1) (after net ((4, 1) ∷ (2, 0) ∷ []) reader))
reader_reads_example =
    reader_reads file parts net reader ((4, 1) ∷ (2, 0) ∷ []) 4 1 file-Named (omega arith)
      (omega arith) reader_made net-Truthful
