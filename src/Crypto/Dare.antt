-- ===== src/Crypto/Dare.antt =====
-- shared/crypto/stream.go: the part of an encrypted file that a read needs, and its decryption. The
-- encryption itself (minio/sio, its DARE format) is a parameter: what the code calls of it, and what
-- it promises of the packages of a stored file.
use torrin.Prelude.{
  ℕ, ◌+◌, ◌-◌, ◌*◌, ◌/◌, ◌%◌, ◌^◌, ◌≤◌, ◌<◌, ◌≡◌, not, ◌||◌, Option, none, some, List, [], ◌∷◌,
  Result, ok, err, ◌>>=◌, if◌then◌else◌, ltb, length, take, drop,
}
use torrin.Prelude.Int.{ℤ, ◌+ℤ◌, pos, pos_part, ltb_ℤ}
use torrin.Prelude.Ranges.{range}
use torrin.Prelude.Parts.{Bytes, whole, part}

abbrev pub dare_plain_pkg : ℕ
dare_plain_pkg = 65536

-- The functions of sio that a stream calls, at its key. The decrypting reader is the plain bytes that
-- it gives; `none` where it cannot be made.
pub record Sio : Type 0 where
  pub encrypted_size : ℕ → Option ℕ
  pub decrypt_reader : ℕ → Bytes → Option Bytes

pub data Error : Type 0 where
  bad_range too_large bad_stream unexpected_eof : Error

pub record Stream : Type 0 where
  pub enc_pkg : ℕ

pub record Range : Type 0 where
  pub enc_start : ℕ
  pub enc_end : ℕ
  pub seq : ℕ
  pub skip : ℕ
  pub len : ℕ

abbrev pub or_error : {A : Type 0} → Option A → Error → Result Error A
or_error none e = err e
or_error (some a) e = ok a

-- The end of `NewStream`, behind its checks of the key.
unfoldable pub new_stream : Sio → Result Error Stream
new_stream sio = do
  n ← or_error (sio.encrypted_size dare_plain_pkg) too_large
  ok (record { enc_pkg = n })

-- Behind the guard the three positions are not negative.
unfoldable pub plan_range : Sio → Stream → ℤ → ℤ → ℤ → Result Error Range
plan_range sio s start end plain_total =
    if ltb_ℤ start (pos 0) || ltb_ℤ plain_total end || not (ltb_ℤ start end)
    then err bad_range
    else (let start = pos_part start in
        let end = pos_part end in
        let plain_total = pos_part plain_total in
        let first_pkg = start / dare_plain_pkg in
        let last_pkg = (end - 1) / dare_plain_pkg in
        let all = (last_pkg + 1) * dare_plain_pkg in
        let enc_end_plain = if ltb plain_total all then plain_total else all in
        or_error (sio.encrypted_size enc_end_plain) too_large >>= λ enc_end. ok (record {
          enc_start = first_pkg * s.enc_pkg;
          enc_end = enc_end;
          seq = first_pkg % 2 ^ 32;
          skip = start - first_pkg * dare_plain_pkg;
          len = end - start;
        }))

-- What is written, and the error. `io.CopyN` fails where the reader gives too few bytes.
unfoldable pub decrypt_range : Sio → Bytes → Range → Bytes × Option Error
decrypt_range sio enc r = elim (sio.decrypt_reader r.seq enc) [
  | none ↦ ([], some bad_stream)
  | some plain ↦
      if ltb (length plain) r.skip
      then ([], some unexpected_eof)
      else (let rest = drop r.skip plain in
          (take r.len rest, if ltb (length rest) r.len then some unexpected_eof else none))
]

-- The end of `serveEncrypted`, for a range with `end` in it: the planned part of the stored file is
-- fetched (its answer has just the range that was asked for) and decrypted.
unfoldable pub serve_range : Sio → Stream → Bytes → ℤ → ℤ → ℤ → Result Error (Bytes × Option Error)
serve_range sio s stored start end plain_total =
    plan_range sio s start (end +ℤ pos 1) plain_total >>= λ plan.
    ok (decrypt_range sio (range plan.enc_start plan.enc_end stored) plan)

-- Package `i` of a stored file as `seal` makes it of its bytes, with its number and its place in the file.
abbrev pub packages : (ℕ → Bytes → Bytes) → ℕ → List Bytes → List Bytes
packages seal n [] = []
packages seal n (p ∷ ps) = seal n p ∷ packages seal (n + 1) ps

-- A stored file, by the blocks of its bytes: every package has 32 bytes more than its block, all
-- blocks but the last are full, and consecutive packages are decrypted from the first one's number.
pub record Stored (sio : Sio) (seal : ℕ → Bytes → Bytes) (ps : List Bytes) : Type 0 where
  pub full : (i : ℕ) → i + 1 < length ps → length (part ps i) ≡ dare_plain_pkg
  pub not_over : (i : ℕ) → i < length ps → length (part ps i) ≤ dare_plain_pkg
  pub overhead : (i : ℕ) (p : Bytes) → length (seal i p) ≡ length p + 32
  pub size :
      (n : ℕ)
      → n ≤ 2 ^ 48
      → sio.encrypted_size n ≡ some (n + 32 * ((n + (dare_plain_pkg - 1)) / dare_plain_pkg))
  pub opens :
      (i j : ℕ)
      → i ≤ j
      → j ≤ length ps
      → sio.decrypt_reader i (whole (drop i (take j (packages seal 0 ps))))
        ≡ some (whole (drop i (take j ps)))
