-- ===== src/Crypto/Cipher.antt =====
-- shared/crypto/crypto.go: texts that are stored encrypted behind a marker. AES-GCM, base64 and the
-- random bytes are parameters.
use mathlib.Core.List.{append-nil}
use torrin.Prelude.{
  ◌-◌, ℕ, ◌≡◌, refl, ◌∙◌, Bool, true, false, not, ◌||◌, Option, none, some, ◌++◌, if◌then◌else◌,
  ltb, length, take, drop, Bool-cases, Option-cases, inl, inr, length-append, ◌==◌, arith,
}
use torrin.Prelude.Text.{Text, bytes, has_prefix}
use torrin.Prelude.Ranges.{take_all, drop_all, take-append, drop-append}

abbrev pub marker : Text
marker = bytes "enc:v1:"

-- `cipher.AEAD` at its key, and base64.RawStdEncoding.
pub record Cipher : Type 0 where
  pub nonce_size : ℕ
  pub seal : Text → Text → Text
  pub open_sealed : Text → Text → Option Text
  pub encode : Text → Text
  pub decode : Text → Option Text

-- The nonce is what `rand.Reader` gave.
unfoldable pub encrypt : Option Cipher → Option Text → Text → Text
encrypt none random plaintext = plaintext
encrypt (some c) random plaintext =
    if length plaintext == 0 || has_prefix plaintext marker
    then plaintext
    else (elim random [ none ↦ plaintext | some n ↦ marker ++ c.encode (n ++ c.seal n plaintext) ])

unfoldable pub decrypt : Option Cipher → Text → Text
decrypt none stored = stored
decrypt (some c) stored =
    if not (has_prefix stored marker)
    then stored
    else (elim (c.decode (drop (length marker) stored)) [
      | none ↦ stored
      | some raw ↦
          if ltb (length raw) c.nonce_size
          then stored
          else (elim (c.open_sealed (take c.nonce_size raw) (drop c.nonce_size raw)) [
            | none ↦ stored
            | some pt ↦ pt
          ])
    ])

-- What AES-GCM and base64 promise.
pub record Sound (c : Cipher) : Type 0 where
  pub opens : (n p : Text) → length n ≡ c.nonce_size → c.open_sealed n (c.seal n p) ≡ some p
  pub decodes : (b : Text) → c.decode (c.encode b) ≡ some b

-- A marked text has the mark.
marked : (s : Text) → has_prefix (marker ++ s) marker ≡ true
unfolding has_prefix
marked s = refl

pub first_part : (n xs : Text) (k : ℕ) → length n ≡ k → take k (n ++ xs) ≡ n
first_part n xs k h =
    let z : k - length n ≡ 0 = omega arith in
    take-append k n xs ∙ rw (z, take_all k n (omega arith)) (append-nil n)

second_part : (n xs : Text) (k : ℕ) → length n ≡ k → drop k (n ++ xs) ≡ xs
second_part n xs k h =
    let z : k - length n ≡ 0 = omega arith in
    drop-append k n xs ∙ rw (z, drop_all k n (omega arith)) refl

decrypt_marked :
    (c : Cipher) (n p : Text)
    → Sound c
    → length n ≡ c.nonce_size
    → decrypt (some c) (marker ++ c.encode (n ++ c.seal n p)) ≡ p
unfolding decrypt
decrypt_marked c n p s ln =
    let l : ltb (length (n ++ c.seal n p)) c.nonce_size ≡ false =
      ground (arith, length-append n (c.seal n p), ln) in
    rw
      (
        marked (c.encode (n ++ c.seal n p)),
        s.decodes (n ++ c.seal n p),
        l,
        first_part n (c.seal n p) c.nonce_size ln,
        second_part n (c.seal n p) c.nonce_size ln,
        s.opens n p ln,
      )
      refl

decrypt_unmarked : (c : Cipher) (p : Text) → has_prefix p marker ≡ false → decrypt (some c) p ≡ p
unfolding decrypt
decrypt_unmarked c p h = rw h refl

-- A text that does not begin with the mark is read back as it was written, also if it is empty or no
-- random bytes were had.
pub decrypt-encrypt :
    (c : Cipher) (random : Option Text) (p : Text)
    → Sound c
    → ((n : Text) → random ≡ some n → length n ≡ c.nonce_size)
    → has_prefix p marker ≡ false
    → decrypt (some c) (encrypt (some c) random p) ≡ p
unfolding encrypt
decrypt-encrypt c random p s ln h = elim (Bool-cases (length p == 0)) [
  | inl empty ↦ rw (empty, encrypt) (decrypt_unmarked c p h)
  | inr full ↦ elim (Option-cases random) [
    | inl failed ↦ rw (full, h, failed, encrypt) (decrypt_unmarked c p h)
    | inr (n, got) ↦ rw (full, h, got, encrypt) (decrypt_marked c n p s (ln n got))
  ]
]

abbrev left_alone : Text → Bool
left_alone p = length p == 0 || has_prefix p marker

encrypt_alone :
    (c : Cipher) (random : Option Text) (p : Text)
    → left_alone p ≡ true
    → encrypt (some c) random p ≡ p
unfolding encrypt
encrypt_alone c random p h = rw (h, encrypt) refl

encrypt_done : (c : Cipher) (n p : Text) → left_alone (encrypt (some c) (some n) p) ≡ true
unfolding encrypt
encrypt_done c n p = elim (Bool-cases (left_alone p)) [
  | inl alone ↦ rw (encrypt_alone c (some n) p alone) alone
  | inr plain ↦ rw (plain, encrypt, marked (c.encode (n ++ c.seal n p))) (ground arith)
]

-- What was encrypted is not encrypted again.
pub encrypt_idem :
    (c : Cipher) (again : Option Text) (n p : Text)
    → encrypt (some c) again (encrypt (some c) (some n) p) ≡ encrypt (some c) (some n) p
encrypt_idem c again n p = encrypt_alone c again (encrypt (some c) (some n) p) (encrypt_done c n p)
