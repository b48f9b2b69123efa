-- ===== src/Stream/Zip/Layout.antt =====
-- The headers and the layout. Bytes are numbers below 256; sizes and offsets are int64 values that
-- are not negative.
use torrin.Prelude.{
  ℕ, zero, suc, ◌+◌, ◌-◌, ◌/◌, ◌%◌, Bool, true, false, ◌||◌, Option, none, some, List, [], ◌∷◌,
  ◌++◌, if◌then◌else◌, ltb, leb, min, max, length, take, drop,
}

abbrev pub Bytes : Type 0
Bytes = List ℕ

abbrev zip_local_sig : ℕ
zip_local_sig = 0x04034b50

abbrev zip_central_sig : ℕ
zip_central_sig = 0x02014b50

abbrev zip64_eocd_sig : ℕ
zip64_eocd_sig = 0x06064b50

abbrev zip64_loc_sig : ℕ
zip64_loc_sig = 0x07064b50

abbrev zip_eocd_sig : ℕ
zip_eocd_sig = 0x06054b50

abbrev zip_utf8_flag : ℕ
zip_utf8_flag = 0x0800

abbrev zip64_id : ℕ
zip64_id = 0x0001

abbrev pub zip64_marker : ℕ
zip64_marker = 0xffff_ffff

abbrev dos_epoch_date : ℕ
dos_epoch_date = 0x0021

pub record ZipEntry : Type 0 where
  pub name : Bytes
  pub size : ℕ
  pub crc : ℕ

-- A header that is stored (`some`), or the file with an index.
pub record ZipSeg : Type 0 where
  pub off : ℕ
  pub size : ℕ
  pub hdr : Option Bytes
  pub file_idx : ℕ

pub record ZipLayout : Type 0 where
  pub segs : List ZipSeg
  pub total : ℕ

-- The low `n` bytes of a number, the lowest first.
abbrev pub le_bytes : ℕ → ℕ → Bytes
le_bytes zero v = []
le_bytes (suc n) v = v % 256 ∷ le_bytes n (v / 256)

unfoldable pub le16 : ℕ → Bytes
le16 v = le_bytes 2 v

unfoldable pub le32 : ℕ → Bytes
le32 v = le_bytes 4 v

unfoldable pub le64 : ℕ → Bytes
le64 v = le_bytes 8 v

unfoldable pub local_header : ZipEntry → Bytes
local_header e =
    let z64 = leb zip64_marker e.size in
    let size32 = if z64 then zip64_marker else e.size in
    le32 zip_local_sig
    ++ (le16 (if z64 then 45 else 20)
        ++ (le16 zip_utf8_flag
            ++ (le16 0
                ++ (le16 0
                    ++ (le16 dos_epoch_date
                        ++ (le32 e.crc
                            ++ (le32 size32
                                ++ (le32 size32
                                    ++ (le16 (length e.name)
                                        ++ (le16 (if z64 then 20 else 0)
                                            ++ (e.name
                                                ++ (if z64
                                                    then le16 zip64_id
                                                      ++ (le16 16 ++ (le64 e.size ++ le64 e.size))
                                                    else []))))))))))))

-- The zip64 record of a central header.
unfoldable pub central_extra : ZipEntry → ℕ → Bytes
central_extra e local_off =
    let z64size = leb zip64_marker e.size in
    let z64off = leb zip64_marker local_off in
    let body =
      (if z64size then le64 e.size ++ le64 e.size else [])
      ++ (if z64off then le64 local_off else []) in
    if z64size || z64off then le16 zip64_id ++ (le16 (length body) ++ body) else []

unfoldable pub central_header : ZipEntry → ℕ → Bytes
central_header e local_off =
    let z64size = leb zip64_marker e.size in
    let z64off = leb zip64_marker local_off in
    let size32 = if z64size then zip64_marker else e.size in
    le32 zip_central_sig
    ++ (le16 45
        ++ (le16 (if z64size || z64off then 45 else 20)
            ++ (le16 zip_utf8_flag
                ++ (le16 0
                    ++ (le16 0
                        ++ (le16 dos_epoch_date
                            ++ (le32 e.crc
                                ++ (le32 size32
                                    ++ (le32 size32
                                        ++ (le16 (length e.name)
                                            ++ (le16 (length (central_extra e local_off))
                                                ++ (le16 0
                                                    ++ (le16 0
                                                        ++ (le16 0
                                                            ++ (le32 0
                                                            ++ (le32 (
                                                            if z64off
                                                            then zip64_marker
                                                            else local_off)
                                                            ++ (e.name
                                                            ++ central_extra e
                                                            local_off)))))))))))))))))

unfoldable pub end_records : ℕ → ℕ → ℕ → Bytes
end_records entries cd_size cd_off =
    let z64 = leb zip64_marker cd_off || leb zip64_marker cd_size in
    let cnt = if leb 0xffff entries then 0xffff else entries in
    (if z64
      then le32 zip64_eocd_sig
        ++ (le64 44
            ++ (le16 45
                ++ (le16 45
                    ++ (le32 0
                        ++ (le32 0
                            ++ (le64 entries
                                ++ (le64 entries
                                    ++ (le64 cd_size
                                        ++ (le64 cd_off
                                            ++ (le32 zip64_loc_sig
                                                ++ (le32 0
                                                    ++ (le64 (cd_off + cd_size)
                                                        ++ le32 1))))))))))))
      else [])
    ++ (le32 zip_eocd_sig
        ++ (le16 0
            ++ (le16 0
                ++ (le16 cnt
                    ++ (le16 cnt
                        ++ (le32 (if z64 then zip64_marker else cd_size)
                            ++ (le32 (if z64 then zip64_marker else cd_off) ++ le16 0)))))))

-- The loop over the entries: a segment for each local header and one for each file.
unfoldable pub file_segs : ℕ → ℕ → List ZipEntry → List ZipSeg
file_segs off i [] = []
file_segs off i (e ∷ es) =
    let h = local_header e in
    let data_off = off + length h in
    record { off = off; size = length h; hdr = some h; file_idx = 0 }
    ∷ record { off = data_off; size = e.size; hdr = none; file_idx = i }
    ∷ file_segs (data_off + e.size) (i + 1) es

-- `localOffs`, and the offset after the loop.
unfoldable pub local_offs : ℕ → List ZipEntry → List ℕ
local_offs off [] = []
local_offs off (e ∷ es) = off ∷ local_offs (off + length (local_header e) + e.size) es

unfoldable pub files_end : ℕ → List ZipEntry → ℕ
files_end off [] = off
files_end off (e ∷ es) = files_end (off + length (local_header e) + e.size) es

-- The second loop.
unfoldable pub central_headers : List ZipEntry → List ℕ → Bytes
central_headers (e ∷ es) (o ∷ os) = central_header e o ++ central_headers es os
central_headers _ _ = []

unfoldable pub build_zip_layout : List ZipEntry → ZipLayout
build_zip_layout entries =
    let cd_off = files_end 0 entries in
    let cd = central_headers entries (local_offs 0 entries) in
    let trailer = cd ++ end_records (length entries) (length cd) cd_off in
    record {
      segs =
          file_segs 0 0 entries
          ++ (record { off = cd_off; size = length trailer; hdr = some trailer; file_idx = 0 }
              ∷ []);
      total = cd_off + length trailer;
    }

-- The bytes of a segment that go out; `none` if the fetch of a file fails. `fetch idx off n` is
-- what the store gives for `n` bytes of a file.
unfoldable pub seg_bytes : (ℕ → ℕ → ℕ → Option Bytes) → ℕ → ℕ → ZipSeg → Option Bytes
seg_bytes fetch start last s =
    let seg_end = s.off + s.size - 1 in
    let a = max start s.off in
    let b = min last seg_end in
    elim s.hdr [
      | some h ↦ some (take (b + 1 - a) (drop (a - s.off) h))
      | none ↦ fetch s.file_idx (a - s.off) (b + 1 - a)
    ]

-- `segEnd < start` is written `s.off + s.size ≤ start`. The result is what the client got, and
-- whether the whole range was written.
unfoldable pub write_range : (ℕ → ℕ → ℕ → Option Bytes) → ℕ → ℕ → List ZipSeg → Bytes × Bool
write_range fetch start last [] = ([], true)
write_range fetch start last (s ∷ segs) =
    let (rest, done) = write_range fetch start last segs in
    if leb (s.off + s.size) start || ltb last s.off
    then (rest, done)
    else elim (seg_bytes fetch start last s) [ none ↦ ([], false) | some p ↦ (p ++ rest, done) ]
