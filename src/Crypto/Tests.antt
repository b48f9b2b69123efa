-- ===== src/Crypto/Tests.antt =====
-- A stored file of two packages, and a stored text.
use mathlib.Core.List.{append-nil}
use torrin.Prelude.{
  ℕ, zero, suc, ◌+◌, ◌-◌, ◌*◌, ◌/◌, ◌≤◌, ◌<◌, ◌≡◌, refl, ap, ◌∙◌, false, none, some, List, [], ◌∷◌,
  ◌++◌, ok, length, take, drop, replicate, length-replicate, length-append, arith,
}
use torrin.Prelude.Text.{bytes, has_prefix}
use torrin.Prelude.Int.{pos}
use torrin.Prelude.Ranges.{range, take_all, drop_all, take-append, drop-append}
use torrin.Prelude.Parts.{Bytes, whole, part}
use torrin.Crypto.Dare.{dare_plain_pkg, Sio, new_stream, serve_range, packages, Stored}
use torrin.Crypto.Ranges.{serve_range-decrypts}
use torrin.Crypto.Cipher.{Cipher, Sound, marker, first_part}

big : Bytes
big = replicate 65536 7

length-big : length big ≡ dare_plain_pkg
unfolding big
length-big = length-replicate {A = ℕ} 65536 7

abbrev blocks : List Bytes
blocks = big ∷ (1 ∷ 2 ∷ 3 ∷ []) ∷ []

-- A format with 32 bytes in front of every block, and a reader that takes them off.
abbrev frame : ℕ → Bytes → Bytes
frame n p = replicate 32 n ++ p

unfoldable unframe : ℕ → Bytes → Bytes
unframe zero xs = []
unframe (suc fuel) xs =
    take dare_plain_pkg (drop 32 xs) ++ unframe fuel (drop (dare_plain_pkg + 32) xs)

abbrev framed : Sio
framed = record {
  encrypted_size = λ n. some (n + 32 * ((n + (dare_plain_pkg - 1)) / dare_plain_pkg));
  decrypt_reader = λ n xs. some (unframe 2 xs);
}

unframe_step :
    (fuel n : ℕ) (p rest : Bytes)
    → take dare_plain_pkg (p ++ rest) ≡ p
    → drop dare_plain_pkg (p ++ rest) ≡ rest
    → unframe (suc fuel) (frame n p ++ rest) ≡ p ++ unframe fuel rest
unfolding unframe
unframe_step fuel n p rest t d = rw (t, d) refl

unframe_full :
    (fuel n : ℕ) (p rest : Bytes)
    → length p ≡ dare_plain_pkg
    → unframe (suc fuel) (frame n p ++ rest) ≡ p ++ unframe fuel rest
unframe_full fuel n p rest l =
    let z : dare_plain_pkg - length p ≡ 0 = omega (arith, l) in
    unframe_step fuel n p rest
      (take-append dare_plain_pkg p rest
        ∙ rw (z, take_all dare_plain_pkg p (omega (arith, l))) (append-nil p))
      (drop-append dare_plain_pkg p rest
        ∙ rw (z, drop_all dare_plain_pkg p (omega (arith, l))) refl)

unframe_last :
    (fuel n : ℕ) (p : Bytes)
    → length p ≤ dare_plain_pkg
    → unframe (suc fuel) (frame n p ++ []) ≡ p ++ unframe fuel []
unframe_last fuel n p l =
    unframe_step fuel n p [] (rw (append-nil p) (take_all dare_plain_pkg p l))
      (rw (append-nil p) (drop_all dare_plain_pkg p l))

unframe_nil : (fuel : ℕ) → unframe fuel [] ≡ []
unfolding unframe
unframe_nil zero = refl
unframe_nil (suc fuel) = unframe_nil fuel

module _ (b c : Bytes) (lb : length b ≡ dare_plain_pkg) (lc : length c ≤ dare_plain_pkg) where
  abbrev two : List Bytes
  two = b ∷ c ∷ []

  two_full : (i : ℕ) → i + 1 < length two → length (part two i) ≡ dare_plain_pkg
  two_full zero h = lb
  two_full (suc i) h = absurd (omega (arith, h))

  two_not_over : (i : ℕ) → i < length two → length (part two i) ≤ dare_plain_pkg
  two_not_over zero h = omega (arith, lb)
  two_not_over (suc zero) h = lc
  two_not_over (suc (suc i)) h = absurd (omega (arith, h))

  both : unframe 2 (frame 0 b ++ (frame 1 c ++ [])) ≡ b ++ (c ++ [])
  both = unframe_full 1 0 b (frame 1 c ++ []) lb ∙ rw (unframe_last 0 1 c lc, unframe_nil 0) refl

  two_opens :
      (i j : ℕ)
      → i ≤ j
      → j ≤ length two
      → framed.decrypt_reader i (whole (drop i (take j (packages frame 0 two))))
        ≡ some (whole (drop i (take j two)))
  two_opens zero zero h k = ap some (unframe_nil 2)
  two_opens zero (suc zero) h k =
      ap some (unframe_last 1 0 b (omega (arith, lb)) ∙ rw (unframe_nil 1) refl)
  two_opens zero (suc (suc zero)) h k = ap some both
  two_opens (suc zero) (suc zero) h k = ap some (unframe_nil 2)
  two_opens (suc zero) (suc (suc zero)) h k =
      ap some (unframe_last 1 1 c lc ∙ rw (unframe_nil 1) refl)
  two_opens (suc (suc zero)) (suc (suc zero)) h k = ap some (unframe_nil 2)
  two_opens (suc i) zero h k = absurd (omega (arith, h))
  two_opens (suc (suc i)) (suc zero) h k = absurd (omega (arith, h))
  two_opens (suc (suc (suc i))) (suc (suc zero)) h k = absurd (omega (arith, h))
  two_opens i (suc (suc (suc j))) h k = absurd (omega (arith, k))

  framed-Stored : Stored framed frame two
  framed-Stored = record {
    full = two_full;
    not_over = two_not_over;
    overhead = λ n p. omega arith;
    size = λ n h. refl;
    opens = two_opens;
  }

length-blocks : length (whole blocks) ≡ 65539
length-blocks = omega (arith, length-append big (1 ∷ 2 ∷ 3 ∷ []), length-big)

made : new_stream framed ≡ ok (record { enc_pkg = 65568 })
unfolding new_stream
made = refl

serve_range-decrypts_example :
    serve_range framed
      (record { enc_pkg = 65568 })
      (whole (packages frame 0 blocks))
      (pos 65534)
      (pos 65537)
      (pos (length (whole blocks)))
    ≡ ok (range 65534 65538 (whole blocks), none)
serve_range-decrypts_example =
    serve_range-decrypts framed frame blocks
      (framed-Stored big (1 ∷ 2 ∷ 3 ∷ []) length-big (omega arith)) (record { enc_pkg = 65568 })
      65534 65537 made (omega (arith, length-blocks)) (omega arith) (omega (arith, length-blocks))

abbrev text_cipher : Cipher
text_cipher = record {
  nonce_size = 2;
  seal = λ n p. p ++ n;
  open_sealed = λ n xs. some (take (length xs - length n) xs);
  encode = λ b. b;
  decode = λ b. some b;
}

text_cipher-Sound : Sound text_cipher
text_cipher-Sound = record {
  opens = λ n p h.
      ap some (first_part p n (length (p ++ n) - length n) (omega (arith, length-append p n)));
  decodes = λ b. refl;
}

unmarked : has_prefix (bytes "token") marker ≡ false
unfolding has_prefix
unmarked = refl
