-- ===== src/Usenet/Yenc/Tests.antt =====
-- An article of two lines, one with an escaped byte, as it was sent and with the checksum of other bytes.
use torrin.Prelude.{ℕ, ◌+◌, ◌≡◌, refl, inr, some, List, [], ◌∷◌, ◌++◌, ok, arith}
use torrin.Prelude.Parts.{whole}
use torrin.Prelude.Text.{Text, bytes, is_space, same, to_lower}
use torrin.Prelude.Parse.{cut_byte}
use torrin.Usenet.Yenc.Lines.{sent, Unbroken}
use torrin.Usenet.Yenc.Decode.{
  wanted, parse_hex32, yend_checksums, checksums_of, fields_from, hex_digit, decode,
}
use torrin.Usenet.Yenc.RoundTrip.{
  InLine, done, plain, escaped, Encoded, article, headers, decode-sent,
}

abbrev begin_line : Text
begin_line = bytes "line=128 size=4 name=a.bin"

abbrev part_line : Text
part_line = bytes "begin=1 end=4"

abbrev trailer : Text
trailer = bytes "size=4 pcrc32=0000002b"

abbrev lines : List Text
lines = (43 ∷ b'=' ∷ 125 ∷ []) ∷ (0 ∷ 49 ∷ []) ∷ []

abbrev pieces : List Text
pieces = (1 ∷ 19 ∷ []) ∷ (214 ∷ 7 ∷ []) ∷ []

lines-Encoded : Encoded lines pieces
lines-Encoded =
    let u : InLine 0 = (refl, refl) in
    (
      plain 1 (omega arith) u refl (escaped 19 (omega arith) u refl done),
      (plain 214 (omega arith) u refl (plain 7 (omega arith) u refl done), tt),
    )

-- In place of the checksum: 39 more than the number of the bytes.
abbrev sum : Text → ℕ
sum [] = 39
sum (b ∷ s) = sum s + 1

trailer_sum :
    wanted
      (bytes "=yend " ++ trailer)
      (record (headers begin_line (some part_line)) { content = whole pieces })
    ≡ some 43
unfolding wanted parse_hex32 yend_checksums checksums_of fields_from is_space cut_byte same to_lower
    hex_digit
trailer_sum = refl

begin_line-Unbroken : Unbroken begin_line
begin_line-Unbroken =
    let u : InLine 0 = (refl, refl) in
    (
      u,
      (
        u,
        (
          u,
          (
            u,
            (
              u,
              (
                u,
                (
                  u,
                  (
                    u,
                    (
                      u,
                      (
                        u,
                        (
                          u,
                          (
                            u,
                            (
                              u,
                              (u, (u, (u, (u, (u, (u, (u, (u, (u, (u, (u, (u, (u, tt))))))))))))),
                            ),
                          ),
                        ),
                      ),
                    ),
                  ),
                ),
              ),
            ),
          ),
        ),
      ),
    )

part_line-Unbroken : Unbroken part_line
part_line-Unbroken =
    let u : InLine 0 = (refl, refl) in
    (u, (u, (u, (u, (u, (u, (u, (u, (u, (u, (u, (u, (u, tt)))))))))))))

trailer-Unbroken : Unbroken trailer
trailer-Unbroken =
    let u : InLine 0 = (refl, refl) in
    (
      u,
      (
        u,
        (
          u,
          (
            u,
            (
              u,
              (
                u,
                (u, (u, (u, (u, (u, (u, (u, (u, (u, (u, (u, (u, (u, (u, (u, (u, tt)))))))))))))))),
              ),
            ),
          ),
        ),
      ),
    )

decode-sent_example :
    decode sum (sent (article begin_line (some part_line) lines trailer))
    ≡ ok (record (headers begin_line (some part_line)) { content = whole pieces })
decode-sent_example =
    decode-sent sum begin_line trailer lines pieces begin_line-Unbroken trailer-Unbroken
      lines-Encoded (some part_line) part_line-Unbroken (inr trailer_sum)
