-- ===== src/Crypto/Ranges.antt =====
-- A range of a stored file, planned, fetched and decrypted.
use torrin.Prelude.{
  ℕ, not, ◌||◌, false, suc, ◌+◌, ◌-◌, ◌*◌, ◌/◌, ◌%◌, ◌^◌, ◌≤◌, ◌<◌, ◌≡◌, refl, sym, none, List, ok,
  length, take, drop, ltb, if◌then◌else◌, length-drop, arith,
}
use torrin.Prelude.Int.{pos, ◌+ℤ◌}
use torrin.Prelude.Ranges.{range, range-range, length-range}
use torrin.Prelude.Parts.{Bytes, whole, offset, range_of_parts}
use torrin.Crypto.Dare.{
  dare_plain_pkg, Sio, Stream, new_stream, plan_range, decrypt_range, serve_range, packages, Stored,
}
use torrin.Crypto.Packages.{offset-packages, offset_full, offset_end, whole_le}

add_pos : (a b : ℕ) → pos a +ℤ pos b ≡ pos (a + b)
unfolding ◌+ℤ◌
add_pos a b = ground arith

module _ (sio : Sio) (seal : ℕ → Bytes → Bytes) (ps : List Bytes) (s : Stored sio seal ps) where
  pub new_stream_lem : (st : Stream) → new_stream sio ≡ ok st → st.enc_pkg ≡ dare_plain_pkg + 32
  unfolding new_stream
  new_stream_lem st made = let e = s.size dare_plain_pkg (omega arith) in ground (arith, made, e)

  -- The block of a position.
  block_lt : (k : ℕ) → k < length (whole ps) → k / dare_plain_pkg < length ps
  block_lt k h = omega (arith, whole_le sio seal ps s)

  -- The plain bytes up to the end of the block of a position.
  enc_end_plain :
      (k : ℕ)
      → k < length (whole ps)
      → let all = (k / dare_plain_pkg + 1) * dare_plain_pkg in
        (if ltb (length (whole ps)) all then length (whole ps) else all)
        ≡ offset ps (suc (k / dare_plain_pkg))
  enc_end_plain k h = ground (arith, offset_end sio seal ps s (k / dare_plain_pkg) (block_lt k h))

  -- The plan by the packages: from the first block's to the last one's, of all their bytes.
  plan_lem :
      (st : Stream) (start end : ℕ)
      → new_stream sio ≡ ok st
      → length (whole ps) ≤ 2 ^ 48
      → start < end
      → end ≤ length (whole ps)
      → plan_range sio st (pos start) (pos end) (pos (length (whole ps))) ≡ (
          let first = start / dare_plain_pkg in
          let last = (end - 1) / dare_plain_pkg in
          ok (record {
            enc_start = offset (packages seal 0 ps) first;
            enc_end = offset (packages seal 0 ps) (suc last);
            seq = first;
            skip = start - offset ps first;
            len = end - start;
          }))
  unfolding plan_range
  plan_lem st start end made small lt le =
      let first = start / dare_plain_pkg in
      let last = (end - 1) / dare_plain_pkg in
      let lf : first < length ps = block_lt start (omega arith) in
      let ll : last < length ps = block_lt (end - 1) (omega arith) in
      let guard : (ltb (start + 0) 0
            || ltb (length (whole ps) + 0) (end + 0)
            || not (ltb (start + 0) (end + 0)))
          ≡ false =
        ground arith in
      let full : offset ps first ≡ first * dare_plain_pkg = offset_full sio seal ps s first lf in
      let oe = offset_end sio seal ps s last ll in
      let es : offset (packages seal 0 ps) first ≡ first * st.enc_pkg = ground (
        arith,
        full,
        new_stream_lem st made,
        offset-packages seal 0 ps first s.overhead (omega (arith, lf)),
      ) in
      let ee : offset ps (suc last)
            + 32 * ((offset ps (suc last) + (dare_plain_pkg - 1)) / dare_plain_pkg)
          ≡ offset (packages seal 0 ps) (suc last) =
        omega (arith, oe, offset-packages seal 0 ps (suc last) s.overhead (omega (arith, ll))) in
      let sq : first % 2 ^ 32 ≡ first = omega arith in
      rw
        (
          guard,
          enc_end_plain (end - 1) (omega arith),
          s.size (offset ps (suc last)) (omega (arith, oe)),
          ee,
          sq,
          es,
          full,
        )
        refl

  -- A valid range of a stored file is answered with exactly those of its bytes, without an error.
  pub serve_range-decrypts :
      (st : Stream) (start end : ℕ)
      → new_stream sio ≡ ok st
      → length (whole ps) ≤ 2 ^ 48
      → start ≤ end
      → end < length (whole ps)
      → serve_range sio st
          (whole (packages seal 0 ps))
          (pos start)
          (pos end)
          (pos (length (whole ps)))
        ≡ ok (range start (end + 1) (whole ps), none)
  unfolding serve_range decrypt_range
  serve_range-decrypts st start end made small le lt =
      let first = start / dare_plain_pkg in
      let last = (end + 1 - 1) / dare_plain_pkg in
      let size = length (whole ps) in
      let ll : last < length ps = block_lt (end + 1 - 1) (omega arith) in
      let lf : first ≤ suc last = omega arith in
      let full : offset ps first ≡ first * dare_plain_pkg =
        offset_full sio seal ps s first (block_lt start (omega arith)) in
      let oe = offset_end sio seal ps s last ll in
      let a : offset ps first ≤ start = omega (arith, full) in
      let b : end + 1 ≤ offset ps (suc last) = omega (arith, oe) in
      let got = range (offset ps first) (offset ps (suc last)) (whole ps) in
      let n : length got ≡ offset ps (suc last) - offset ps first =
        length-range (offset ps first) (offset ps (suc last)) (whole ps) (omega (arith, oe)) in
      let blocks : whole (drop first (take (suc last) ps)) ≡ got =
        sym (range_of_parts ps first (suc last) lf) in
      let c : ltb (length got) (start - offset ps first) ≡ false = ground (arith, n, a, b) in
      let d : ltb (length (drop (start - offset ps first) got)) (end + 1 - start) ≡ false =
        ground (arith, length-drop (start - offset ps first) got, n, a, b) in
      rw
        (
          add_pos end 1,
          plan_lem st start (end + 1) made small (omega arith) (omega arith),
          range_of_parts (packages seal 0 ps) first (suc last) lf,
          s.opens first (suc last) lf ll,
          blocks,
          c,
          d,
          range-range start (end + 1) (offset ps first) (offset ps (suc last)) (whole ps) a
              (omega arith) b,
          decrypt_range,
        )
        refl
