-- ===== src/Usenet/Yenc/RoundTrip.antt =====
-- Articles as a poster's encoder writes them, decoded.
use torrin.Prelude.{
  ℕ, suc, ◌+◌, ◌-◌, ◌%◌, ◌<◌, ◌≡◌, ◌≢◌, refl, ap, sym, ◌∙◌, ◌⊎◌, inl, inr, true, false, Option,
  none, some, List, [], ◌∷◌, ◌++◌, Result, ok, err, leb, ◌==◌, length, take, All, Bool-cases, arith,
}
use mathlib.Core.List.{append-nil, append_assoc}
use torrin.Prelude.Parts.{whole}
use torrin.Prelude.Ranges.{range, take_all, take-append}
use torrin.Prelude.Text.{Text, bytes, has_prefix}
use torrin.Usenet.Yenc.Lines.{sent, Unbroken, split-normalize-sent}
use torrin.Usenet.Yenc.Decode.{
  Error, checksum_mismatch, YencResult, empty_result, parse_yenc_header, parse_ypart_header,
  decode_line, decode_lines, wanted, verify_checksum, Scan, scan_start, scan, finish, decode,
}

-- A byte that may stand in a line.
abbrev pub InLine : ℕ → Type 0
InLine c = (c == 10 ≡ false) × (c == 13 ≡ false)

-- A line and its bytes: each is written 42 up, or behind `=` another 64 up. An encoder escapes what
-- would end a line or read as `=`; it has no reason to escape the byte that would be written `=y`.
pub data Encodes : Text → Text → Type 0 where
  done : Encodes [] []
  plain :
      {l d : Text} (b : ℕ)
      → b < 256
      → InLine ((b + 42) % 256)
      → (b + 42) % 256 == b'=' ≡ false
      → Encodes l d
      → Encodes ((b + 42) % 256 ∷ l) (b ∷ d)
  escaped :
      {l d : Text} (b : ℕ)
      → b < 256
      → InLine ((b + 106) % 256)
      → (b + 106) % 256 == b'y' ≡ false
      → Encodes l d
      → Encodes (b'=' ∷ (b + 106) % 256 ∷ l) (b ∷ d)

abbrev pub Encoded : List Text → List Text → Type 0
Encoded [] [] = Unit
Encoded (l ∷ ls) (d ∷ ds) = Encodes l d × Encoded ls ds
Encoded [] (d ∷ ds) = ⊥
Encoded (l ∷ ls) [] = ⊥

decode_line-plain :
    (b : ℕ) (l : Text) → b == b'=' ≡ false → decode_line (b ∷ l) ≡ (b + 214) % 256 ∷ decode_line l
unfolding decode_line
decode_line-plain b [] h = refl
decode_line-plain b (c ∷ l) h = rw (h, decode_line) refl

decode_line-Encodes : (l d : Text) → Encodes l d → decode_line l ≡ d
unfolding decode_line
decode_line-Encodes _ _ done = refl
decode_line-Encodes _ _ (plain {l} {d} b lt s e k) =
    let v : ((b + 42) % 256 + 214) % 256 ≡ b = omega arith in
    decode_line-plain ((b + 42) % 256) l e ∙ rw (v, decode_line-Encodes l d k) refl
decode_line-Encodes _ _ (escaped {l} {d} b lt s y k) =
    let v : (((b + 106) % 256 + 192) % 256 + 214) % 256 ≡ b = omega arith in
    rw (v, decode_line-Encodes l d k) refl

decode_lines-Encoded : (ls ds : List Text) → Encoded ls ds → decode_lines ls ≡ whole ds
decode_lines-Encoded [] [] e = refl
decode_lines-Encoded (l ∷ ls) (d ∷ ds) e =
    rw (decode_line-Encodes l d e.0, decode_lines-Encoded ls ds e.1) refl
decode_lines-Encoded [] (d ∷ ds) e = elim e [ ]
decode_lines-Encoded (l ∷ ls) [] e = elim e [ ]

Encodes-Unbroken : (l d : Text) → Encodes l d → Unbroken l
Encodes-Unbroken _ _ done = tt
Encodes-Unbroken _ _ (plain {l} {d} b lt s e k) = (s, Encodes-Unbroken l d k)
Encodes-Unbroken _ _ (escaped {l} {d} b lt s y k) = ((refl, refl), (s, Encodes-Unbroken l d k))

-- No line of data reads as a header or the trailer.
abbrev NoKeyword : Text → Type 0
NoKeyword l =
    (has_prefix l (bytes "=ybegin ") ≡ false)
    × (has_prefix l (bytes "=ypart ") ≡ false)
    × (has_prefix l (bytes "=yend ") ≡ false)

Encodes-NoKeyword : (l d : Text) → Encodes l d → NoKeyword l
unfolding has_prefix
Encodes-NoKeyword _ _ done = (refl, refl, refl)
Encodes-NoKeyword _ _ (plain {l} {d} b lt s e k) =
    let other : (b'=' == (b + 42) % 256) ≡ false = ground (arith, e) in rw other (refl, refl, refl)
Encodes-NoKeyword _ _ (escaped {l} {d} b lt s y k) =
    let other : (b'y' == (b + 106) % 256) ≡ false = ground (arith, y) in rw other (refl, refl, refl)

-- The loop over lines of data goes to the trailer.
scan-body :
    (i : ℕ) (ls ds rest : List Text) (t : Text) (s : Scan)
    → Encoded ls ds
    → scan i (ls ++ ((bytes "=yend " ++ t) ∷ rest)) s
      ≡ record s { yend = bytes "=yend " ++ t; data_end = i + length ls }
unfolding scan has_prefix
scan-body i [] [] rest t s e = let z : i + 0 ≡ i = omega arith in rw z refl
scan-body i (l ∷ ls) (d ∷ ds) rest t s e =
    let k = Encodes-NoKeyword l d e.0 in
    let z : i + suc (length ls) ≡ i + 1 + length ls = omega arith in
    rw (z, k.0, k.1, k.2, scan) (scan-body (i + 1) ls ds rest t s e.1)
scan-body i [] (d ∷ ds) rest t s e = elim e [ ]
scan-body i (l ∷ ls) [] rest t s e = elim e [ ]

take-first : (ls rest : List Text) → take (length ls) (ls ++ rest) ≡ ls
take-first ls rest =
    let z : length ls - length ls ≡ 0 = omega arith in
    take-append (length ls) ls rest ∙ rw (z, take_all (length ls) ls (omega arith)) (append-nil ls)

All-append {ℓ} :
    {A : Type ℓ} (P : A → Type 0) (xs ys : List A) → All P xs → All P ys → All P (xs ++ ys)
All-append P [] ys a b = b
All-append P (x ∷ xs) ys a b = (a.0, All-append P xs ys a.1 b)

Encoded-Unbroken : (ls ds : List Text) → Encoded ls ds → All Unbroken ls
Encoded-Unbroken [] [] e = tt
Encoded-Unbroken (l ∷ ls) (d ∷ ds) e = (Encodes-Unbroken l d e.0, Encoded-Unbroken ls ds e.1)
Encoded-Unbroken [] (d ∷ ds) e = tt
Encoded-Unbroken (l ∷ ls) [] e = elim e [ ]

no_lines : (ls : List Text) → length ls ≡ 0 → decode_lines ls ≡ []
no_lines [] h = refl
no_lines (l ∷ ls) h = absurd (omega (arith, h))

-- The keyword line of a part, which an article of a whole file may lack.
abbrev pub part_lines : Option Text → List Text
part_lines none = []
part_lines (some p) = (bytes "=ypart " ++ p) ∷ []

-- An article: its header, that of its part if it has one, the lines of its data, and the trailer.
abbrev pub article : Text → Option Text → List Text → Text → List Text
article h p ls t = (bytes "=ybegin " ++ h) ∷ (part_lines p ++ (ls ++ ((bytes "=yend " ++ t) ∷ [])))

abbrev pub headers : Text → Option Text → YencResult
headers h none = parse_yenc_header (bytes "=ybegin " ++ h) empty_result
headers h (some p) =
    parse_ypart_header (bytes "=ypart " ++ p)
      (parse_yenc_header (bytes "=ybegin " ++ h) empty_result)

abbrev pub PartUnbroken : Option Text → Type 0
PartUnbroken none = Unit
PartUnbroken (some p) = Unbroken p

module _ (crc32 : Text → ℕ) (h t : Text) (ls ds : List Text) (uh : Unbroken h) (ut : Unbroken t)
    (e : Encoded ls ds) where
  body-Unbroken : All Unbroken (ls ++ ((bytes "=yend " ++ t) ∷ []))
  body-Unbroken =
      let u : InLine 0 = (refl, refl) in
      All-append Unbroken ls ((bytes "=yend " ++ t) ∷ []) (Encoded-Unbroken ls ds e)
        (All-append InLine (bytes "=yend ") t (u, (u, (u, (u, (u, (u, tt)))))) ut, tt)

  article-Unbroken : (p : Option Text) → PartUnbroken p → All Unbroken (article h p ls t)
  article-Unbroken p up =
      let u : InLine 0 = (refl, refl) in
      (
        All-append InLine (bytes "=ybegin ") h (u, (u, (u, (u, (u, (u, (u, (u, tt)))))))) uh,
        with_part p up,
      )
    where
      with_part :
          (p : Option Text)
          → PartUnbroken p
          → All Unbroken (part_lines p ++ (ls ++ ((bytes "=yend " ++ t) ∷ [])))
      with_part none up = body-Unbroken
      with_part (some p) up =
          let u : InLine 0 = (refl, refl) in
          (
            All-append InLine (bytes "=ypart ") p (u, (u, (u, (u, (u, (u, (u, tt))))))) up,
            body-Unbroken,
          )

  -- What the loop finds in the article.
  abbrev found : Option Text → Scan
  found p = record scan_start {
    result = headers h p;
    data_start = 1 + length (part_lines p);
    found_begin = true;
    yend = bytes "=yend " ++ t;
    data_end = 1 + length (part_lines p) + length ls;
  }

  scan-article : (p : Option Text) → scan 0 (article h p ls t ++ ([] ∷ [])) scan_start ≡ found p
  unfolding scan has_prefix
  scan-article none = rw (append_assoc ls ((bytes "=yend " ++ t) ∷ []) ([] ∷ [])) (
      scan-body 1 ls ds ([] ∷ []) t
        (record scan_start { result = headers h none; data_start = 1; found_begin = true }) e)
  scan-article (some p) = rw (append_assoc ls ((bytes "=yend " ++ t) ∷ []) ([] ∷ [])) (
      scan-body 2 ls ds ([] ∷ []) t
        (record scan_start { result = headers h (some p); data_start = 2; found_begin = true }) e)

  result_with : Option Text → Text → Result Error YencResult
  result_with p d =
      verify_checksum crc32 (bytes "=yend " ++ t) (record (headers h p) { content = d })

  range-part :
      (p : Option Text) (rest : List Text)
      → let k = 1 + length (part_lines p) in
        range k (k + length ls) ((bytes "=ybegin " ++ h) ∷ (part_lines p ++ (ls ++ rest))) ≡ ls
  unfolding range
  range-part none rest =
      let m : 1 + length ls - 1 ≡ length ls = omega arith in rw m (take-first ls rest)
  range-part (some p) rest =
      let m : 2 + length ls - 2 ≡ length ls = omega arith in rw m (take-first ls rest)

  finish-article :
      (p : Option Text) (rest : List Text)
      → finish crc32 ((bytes "=ybegin " ++ h) ∷ (part_lines p ++ (ls ++ rest))) (found p)
        ≡ result_with p (whole ds)
  unfolding finish result_with
  finish-article p rest =
      let k = 1 + length (part_lines p) in
      let some_end : (k + length ls == 0) ≡ false = ground arith in
      elim (Bool-cases (leb (k + length ls) k)) [
        | inl empty ↦
            let z : [] ≡ whole ds =
              sym (no_lines ls (ground (arith, empty))) ∙ decode_lines-Encoded ls ds e in
            rw (some_end, empty) (ap (result_with p) z)
        | inr lines ↦
            rw (some_end, lines, range-part p rest)
              (ap (result_with p) (decode_lines-Encoded ls ds e))
      ]

  lines-article :
      (p : Option Text)
      → article h p ls t ++ ([] ∷ [])
        ≡ (bytes "=ybegin " ++ h) ∷ (part_lines p ++ (ls ++ ((bytes "=yend " ++ t) ∷ ([] ∷ []))))
  lines-article none = rw (append_assoc ls ((bytes "=yend " ++ t) ∷ []) ([] ∷ [])) refl
  lines-article (some p) = rw (append_assoc ls ((bytes "=yend " ++ t) ∷ []) ([] ∷ [])) refl

  decode-article :
      (p : Option Text)
      → PartUnbroken p
      → decode crc32 (sent (article h p ls t))
        ≡ verify_checksum crc32 (bytes "=yend " ++ t) (record (headers h p) { content = whole ds })
  unfolding decode result_with
  decode-article p up =
      rw
        (
          split-normalize-sent (article h p ls t) (article-Unbroken p up),
          scan-article p,
          lines-article p,
        )
        (finish-article p ((bytes "=yend " ++ t) ∷ ([] ∷ [])))

  -- An article that any encoder wrote, of a part or of a whole file, decodes to its bytes, with what
  -- its headers say, if the trailer has no checksum for them or has theirs.
  pub decode-sent :
      (p : Option Text)
      → PartUnbroken p
      → (wanted (bytes "=yend " ++ t) (record (headers h p) { content = whole ds }) ≡ none)
        ⊎ (wanted (bytes "=yend " ++ t) (record (headers h p) { content = whole ds })
            ≡ some (crc32 (whole ds)))
      → decode crc32 (sent (article h p ls t)) ≡ ok (record (headers h p) { content = whole ds })
  unfolding verify_checksum
  decode-sent p up (inl without) = rw (decode-article p up, without, verify_checksum) refl
  decode-sent p up (inr with_sum) =
      let same_sum : (crc32 (whole ds) == crc32 (whole ds)) ≡ true = ground arith in
      rw (decode-article p up, with_sum, same_sum, verify_checksum) refl

  -- An article whose trailer has the checksum of other bytes is refused, whatever was damaged.
  pub decode-damaged :
      (p : Option Text) (sum : ℕ)
      → PartUnbroken p
      → wanted (bytes "=yend " ++ t) (record (headers h p) { content = whole ds }) ≡ some sum
      → crc32 (whole ds) ≢ sum
      → decode crc32 (sent (article h p ls t)) ≡ err checksum_mismatch
  unfolding verify_checksum
  decode-damaged p sum up with_sum differs =
      let n : (crc32 (whole ds) == sum) ≡ false = ground (arith, differs) in
      rw (decode-article p up, with_sum, n, verify_checksum) refl
