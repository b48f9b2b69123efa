-- ===== src/Usenet/Yenc/Decode.antt =====
-- `Decode` and what it calls. The CRC-32 of the bytes is the argument `crc32`.
use torrin.Prelude.{
  ℕ, ◌+◌, ◌-◌, ◌*◌, ◌^◌, ◌%◌, min, Bool, true, false, not, ◌&&◌, ◌||◌, Option, none, some, List, [],
  ◌∷◌, ◌++◌, Result, ok, err, if◌then◌else◌, ltb, leb, ◌==◌, length, drop,
}
use torrin.Prelude.Int.{ℤ, pos, ltb_ℤ}
use torrin.Prelude.Parse.{parse_digits, negate, cut_byte}
use torrin.Prelude.Ranges.{range}
use torrin.Prelude.Text.{Text, bytes, same, has_prefix, trim_space, to_lower, is_space}
use torrin.Usenet.Yenc.Lines.{normalize, split_lines}

pub data Error : Type 0 where
  no_yenc_data checksum_mismatch : Error

pub record YencResult : Type 0 where
  pub content : Text
  pub filename : Text
  pub part : ℤ
  pub total : ℤ
  pub size : ℤ
  pub begin : ℤ
  pub end : ℤ

abbrev pub empty_result : YencResult
empty_result = record {
  content = [];
  filename = [];
  part = pos 0;
  total = pos 0;
  size = pos 0;
  begin = pos 0;
  end = pos 0;
}

-- The value of strconv.ParseInt, its error left aside: 0 for no number, else the nearest int64.
unfoldable pub int_value : Text → ℤ
int_value [] = pos 0
int_value (c ∷ s) =
    if c == b'-'
    then (elim (parse_digits s) [ none ↦ pos 0 | some n ↦ negate (min n (2 ^ 63)) ])
    else (elim (parse_digits (if c == b'+' then s else c ∷ s)) [
      | none ↦ pos 0
      | some n ↦ pos (min n (2 ^ 63 - 1))
    ])

-- What stands behind the first place of a text.
abbrev behind : Text → Text → Option Text
behind p [] = if length p == 0 then some [] else none
behind p (c ∷ s) =
    let rest = behind p s in if has_prefix (c ∷ s) p then some (drop (length p) (c ∷ s)) else rest

unfoldable pub extract_value : Text → Text → Text
extract_value line key = elim (behind (key ++ bytes "=") line) [
  | none ↦ []
  | some v ↦
      if same key (bytes "name")
      then trim_space v
      else (elim (cut_byte b' ' v) [ none ↦ trim_space v | some (value, rest) ↦ value ])
]

-- `if v := extractValue(line, key); v != ""`
abbrev with_value : Text → Text → (Text → YencResult → YencResult) → YencResult → YencResult
with_value line key store r =
    let v = extract_value line key in if length v == 0 then r else store v r

unfoldable pub parse_yenc_header : Text → YencResult → YencResult
parse_yenc_header line r =
    with_value line (bytes "total") (λ v r. record r { total = int_value v })
      (with_value line (bytes "part") (λ v r. record r { part = int_value v })
        (with_value line (bytes "size") (λ v r. record r { size = int_value v })
          (with_value line (bytes "name") (λ v r. record r { filename = v }) r)))

unfoldable pub parse_ypart_header : Text → YencResult → YencResult
parse_ypart_header line r =
    with_value line (bytes "end") (λ v r. record r { end = int_value v })
      (with_value line (bytes "begin") (λ v r. record r { begin = int_value v }) r)

unfoldable pub decode_line : Text → Text
decode_line [] = []
decode_line (b ∷ []) = (b + 214) % 256 ∷ []
decode_line (b ∷ c ∷ line) = elim (b == b'=') [
  | true ↦ ((c + 192) % 256 + 214) % 256 ∷ decode_line line
  | false ↦ (b + 214) % 256 ∷ decode_line (c ∷ line)
]

abbrev pub decode_lines : List Text → Text
decode_lines [] = []
decode_lines (l ∷ ls) = decode_line l ++ decode_lines ls

-- strings.Fields
unfoldable pub fields_from : Text → Text → List Text
fields_from word [] = if length word == 0 then [] else word ∷ []
fields_from word (c ∷ s) =
    let next = fields_from [] s in
    let longer = fields_from (word ++ (c ∷ [])) s in
    if is_space c then (if length word == 0 then next else word ∷ next) else longer

unfoldable pub checksums_of : List Text → Text × Text → Text × Text
checksums_of [] sums = sums
checksums_of (tok ∷ toks) (pcrc, crc) = elim (cut_byte b'=' tok) [
  | none ↦ checksums_of toks (pcrc, crc)
  | some (k, v) ↦ elim (same (to_lower k) (bytes "pcrc32")) [
    | true ↦ checksums_of toks (v, crc)
    | false ↦ elim (same (to_lower k) (bytes "crc32")) [
      | true ↦ checksums_of toks (pcrc, v)
      | false ↦ checksums_of toks (pcrc, crc)
    ]
  ]
]

unfoldable pub yend_checksums : Text → Text × Text
yend_checksums line = checksums_of (fields_from [] line) ([], [])

unfoldable pub single_part : YencResult → Bool
single_part r =
    let is_zero = not (ltb_ℤ (pos 0) r.part) && not (ltb_ℤ r.part (pos 0)) in
    let is_one = not (ltb_ℤ (pos 1) r.part) && not (ltb_ℤ r.part (pos 1)) in
    is_zero || (is_one && not (ltb_ℤ (pos 1) r.total))

-- strconv.ParseUint of a number of base 16 and 32 bits
unfoldable pub hex_digit : ℕ → Option ℕ
hex_digit c =
    if leb b'0' c && leb c b'9'
    then some (c - b'0')
    else if leb b'a' c && leb c b'f'
    then some (c - 87)
    else if leb b'A' c && leb c b'F'
    then some (c - 55)
    else none

abbrev hex_from : ℕ → Text → Option ℕ
hex_from acc [] = some acc
hex_from acc (c ∷ s) = elim (hex_digit c) [ none ↦ none | some d ↦ hex_from (acc * 16 + d) s ]

unfoldable pub parse_hex32 : Text → Option ℕ
parse_hex32 [] = none
parse_hex32 (c ∷ s) = elim (hex_from 0 (c ∷ s)) [
  | none ↦ none
  | some n ↦ if ltb n (2 ^ 32) then some n else none
]

-- The checksum that the trailer has for the decoded bytes, if it has one.
unfoldable pub wanted : Text → YencResult → Option ℕ
wanted yend r =
    if length yend == 0
    then none
    else (let (pcrc, crc) = yend_checksums yend in
        let want = if length pcrc == 0 then (if single_part r then crc else []) else pcrc in
        parse_hex32 want)

unfoldable pub verify_checksum : (Text → ℕ) → Text → YencResult → Result Error YencResult
verify_checksum crc32 yend r = elim (wanted yend r) [
  | none ↦ ok r
  | some sum ↦ if crc32 r.content == sum then ok r else err checksum_mismatch
]

pub record Scan : Type 0 where
  pub result : YencResult
  pub data_start : ℕ
  pub data_end : ℕ
  pub yend : Text
  pub found_begin : Bool

abbrev pub scan_start : Scan
scan_start = record {
  result = empty_result;
  data_start = 0;
  data_end = 0;
  yend = [];
  found_begin = false;
}

-- The loop over the lines, from line `i`.
unfoldable pub scan : ℕ → List Text → Scan → Scan
scan i [] s = s
scan i (l ∷ ls) s = elim (has_prefix l (bytes "=ybegin ")) [
  | true ↦
      scan (i + 1) ls
        (record s { result = parse_yenc_header l s.result; data_start = i + 1; found_begin = true })
  | false ↦ elim (has_prefix l (bytes "=ypart ")) [
    | true ↦
        scan (i + 1) ls (record s { result = parse_ypart_header l s.result; data_start = i + 1 })
    | false ↦ elim (has_prefix l (bytes "=yend ")) [
      | true ↦ record s { yend = l; data_end = i }
      | false ↦ scan (i + 1) ls s
    ]
  ]
]

-- What `Decode` does behind the loop.
unfoldable pub finish : (Text → ℕ) → List Text → Scan → Result Error YencResult
unfolding decode_line
finish crc32 lines s =
    if not s.found_begin
    then err no_yenc_data
    else (let data_end = if s.data_end == 0 then length lines else s.data_end in
        let content =
          if leb data_end s.data_start
          then []
          else decode_lines (range s.data_start data_end lines) in
        verify_checksum crc32 s.yend (record s.result { content = content }))

unfoldable pub decode : (Text → ℕ) → Text → Result Error YencResult
decode crc32 raw =
    let lines = split_lines (normalize raw) in finish crc32 lines (scan 0 lines scan_start)
