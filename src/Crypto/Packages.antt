-- ===== src/Crypto/Packages.antt =====
-- Where the packages of a stored file stand.
use torrin.Prelude.{
  ℕ, min, Bool-cases, inl, inr, ltb, ◌==◌, zero, suc, ◌+◌, ◌-◌, ◌*◌, ◌≤◌, ◌<◌, ◌≡◌, refl, ap, ◌∙◌,
  List, [], ◌∷◌, length, arith,
}
use torrin.Prelude.Parts.{Bytes, whole, offset, offset-suc, offset_mono, offset_last}
use torrin.Crypto.Dare.{dare_plain_pkg, Sio, Stored, packages}

pub offset-packages :
    (seal : ℕ → Bytes → Bytes) (n : ℕ) (ps : List Bytes) (i : ℕ)
    → ((k : ℕ) (p : Bytes) → length (seal k p) ≡ length p + 32)
    → i ≤ length ps
    → offset (packages seal n ps) i ≡ offset ps i + 32 * i
offset-packages seal n ps zero o h = omega arith
offset-packages seal n [] (suc i) o h = absurd (omega arith)
offset-packages seal n (p ∷ ps) (suc i) o h =
    omega (arith, o n p, offset-packages seal (n + 1) ps i o (omega arith))

module _ (sio : Sio) (seal : ℕ → Bytes → Bytes) (ps : List Bytes) (s : Stored sio seal ps) where
  pub offset_full : (i : ℕ) → i < length ps → offset ps i ≡ i * dare_plain_pkg
  offset_full zero h = omega arith
  offset_full (suc i) h =
      omega
        (arith, offset-suc ps i (omega arith), offset_full i (omega arith), s.full i (omega arith))

  -- The end of a block.
  pub offset_end :
      (i : ℕ) → i < length ps → offset ps (suc i) ≡ min (suc i * dare_plain_pkg) (length (whole ps))
  offset_end i h = elim (Bool-cases (ltb (suc i) (length ps))) [
    | inl more ↦ omega (
      arith,
      offset_full (suc i) (ground arith),
      offset_last ps,
      offset_mono ps (suc i) (length ps) (omega arith) (omega arith),
    )
    | inr last ↦
        let e : suc i ≡ length ps = ground arith in
        omega (
          arith,
          ap (offset ps) e ∙ offset_last ps,
          offset-suc ps i h,
          offset_full i h,
          s.not_over i h,
        )
  ]

  pub whole_le : length (whole ps) ≤ length ps * dare_plain_pkg
  whole_le = elim (Bool-cases (length ps == 0)) [
    | inl empty ↦
        let e : length ps ≡ 0 = ground arith in
        omega (arith, e, ap (offset ps) e ∙ refl, offset_last ps)
    | inr some_block ↦
        let e : suc (length ps - 1) ≡ length ps = ground arith in
        omega (arith, e, offset_end (length ps - 1) (omega arith), ap (offset ps) e, offset_last ps)
  ]
