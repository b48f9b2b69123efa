-- ===== src/Usenet/Archive/Reads.antt =====
-- `ReadAt` of an entry, against the bytes that its fragments hold.
use torrin.Prelude.{
  ℕ, zero, suc, ◌+◌, ◌-◌, ◌≤◌, ◌<◌, ◌≡◌, refl, ap, sym, ◌∙◌, min, false, Option, none, some, List,
  [], ◌∷◌, ◌++◌, if◌then◌else◌, ltb, leb, ◌==◌, length, take, drop, length-take, length-drop,
  length-append, Bool-cases, inl, inr, arith,
}
use torrin.Prelude.Parts.{
  Bytes, whole, offset, part, take-part, offset-suc, offset_mono, offset_last,
}
use torrin.Prelude.Ranges.{drop_all, take_clip}
use torrin.Usenet.Archive.Entry.{Error, eof, Frag, find_frag, is_failure, read_turn, read_entry}

module _ (vols : ℕ → ℕ → ℕ → Bytes × Option Error) where
  -- The volume gives the bytes of the fragment, wherever a read in it begins.
  abbrev pub Backs : Frag → Bytes → Type 0
  Backs f d =
      (f.len ≡ length d)
      × ((n o : ℕ)
          → o + n ≤ length d
          → ((vols f.vol n (f.off + o)).0 ≡ take n (drop o d))
            × (is_failure (vols f.vol n (f.off + o)).1 ≡ false))

  abbrev pub Backed : List Frag → List Bytes → Type 0
  Backed [] [] = Unit
  Backed (f ∷ fs) (d ∷ ds) = Backs f d × Backed fs ds
  Backed [] (d ∷ ds) = ⊥
  Backed (f ∷ fs) [] = ⊥

  find_frag-Backed :
      (fs : List Frag) (ds : List Bytes) (base o : ℕ)
      → Backed fs ds
      → base ≤ o
      → o < base + length (whole ds)
      → (k : ℕ) × (f : Frag) × (k < length ds)
        × Backs f (part ds k)
        × (base + offset ds k ≤ o)
        × (o < base + offset ds k + length (part ds k))
        × (find_frag fs base o ≡ some (f, base + offset ds k))
  unfolding find_frag
  find_frag-Backed [] [] base o b le lt = absurd (omega arith)
  find_frag-Backed [] (d ∷ ds) base o b le lt = elim b [ ]
  find_frag-Backed (f ∷ fs) [] base o b le lt = elim b [ ]
  find_frag-Backed (f ∷ fs) (d ∷ ds) base o b le lt = elim (Bool-cases (ltb o (base + f.len))) [
    | inl here ↦
        let z : base + 0 ≡ base = omega arith in
        (0, f, omega arith, b.0, omega arith, ground (arith, b.0.0), rw (here, z, find_frag) refl)
    | inr later ↦
        let r =
          find_frag-Backed fs ds (base + f.len) o b.1 (ground arith)
            (omega (arith, length-append d (whole ds), b.0.0)) in
        let z : base + (length d + offset ds r.0) ≡ base + f.len + offset ds r.0 =
          omega (arith, b.0.0) in
        (
          suc r.0,
          r.1,
          omega (arith, r.2),
          r.3,
          omega (arith, r.4, z),
          omega (arith, r.5, z),
          rw (later, z, find_frag) r.6,
        )
  ]

  find_frag_past :
      (fs : List Frag) (ds : List Bytes) (base o : ℕ)
      → Backed fs ds
      → base + length (whole ds) ≤ o
      → find_frag fs base o ≡ none
  unfolding find_frag
  find_frag_past [] [] base o b le = refl
  find_frag_past [] (d ∷ ds) base o b le = refl
  find_frag_past (f ∷ fs) [] base o b le = elim b [ ]
  find_frag_past (f ∷ fs) (d ∷ ds) base o b le =
      let past : ltb o (base + f.len) ≡ false = ground (arith, length-append d (whole ds), b.0.0) in
      rw (past, find_frag)
        (find_frag_past fs ds (base + f.len) o b.1
          (omega (arith, length-append d (whole ds), b.0.0)))

  abbrev pub end_error : ℕ → ℕ → ℕ → Option Error
  end_error size off left =
      if left == 0 then none else (if leb (off + left) size then none else some eof)

  end_error-step :
      (size off left n : ℕ)
      → 0 < n
      → n ≤ suc left
      → off + n ≤ size
      → end_error size (off + n) (suc left - n) ≡ end_error size off (suc left)
  end_error-step size off left n a b c = ground arith

  read_turn_lem :
      (fs : List Frag) (again : ℕ → ℕ → Option (Bytes × Option Error)) (off left : ℕ) (f : Frag)
      (base : ℕ) (p rest : Bytes) (e : Option Error)
      → let got = vols f.vol (min (base + f.len - off) left) (f.off + (off - base)) in
        find_frag fs 0 off ≡ some (f, base)
        → is_failure got.1 ≡ false
        → got.0 ≡ p
        → again (off + length p) (left - length p) ≡ some (rest, e)
        → read_turn vols fs again off left ≡ some (p ++ rest, e)
  unfolding read_turn
  read_turn_lem fs again off left f base p rest e found fine same_bytes ih =
      let got : Bytes = (vols f.vol (min (base + f.len - off) left) (f.off + (off - base))).0 in
      let ih' : again (off + length got) (left - length got) ≡ some (rest, e) = rw same_bytes ih in
      rw (found, fine, ih', read_turn) (ap (λ q. some (q ++ rest, e)) same_bytes)

  entry_step :
      (fs : List Frag) (fuel off left : ℕ) (f : Frag) (base : ℕ) (p rest : Bytes) (e : Option Error)
      → let got = vols f.vol (min (base + f.len - off) (suc left)) (f.off + (off - base)) in
        find_frag fs 0 off ≡ some (f, base)
        → is_failure got.1 ≡ false
        → got.0 ≡ p
        → read_entry vols fs fuel (off + length p) (suc left - length p) ≡ some (rest, e)
        → read_entry vols fs (suc fuel) off (suc left) ≡ some (p ++ rest, e)
  unfolding read_entry
  entry_step fs fuel off left f base p rest e found fine same_bytes ih =
      read_turn_lem fs (read_entry vols fs fuel) off (suc left) f base p rest e found fine
        same_bytes ih

  -- A read that begins in fragment `k`, where the rest of it is read.
  entry-near :
      (fs : List Frag) (ds : List Bytes) (fuel off left k : ℕ) (f : Frag)
      → k < length ds
      → Backs f (part ds k)
      → 0 + offset ds k ≤ off
      → off < 0 + offset ds k + length (part ds k)
      → find_frag fs 0 off ≡ some (f, 0 + offset ds k)
      → ((n : ℕ)
          → 0 < n
          → n ≤ suc left
          → read_entry vols fs fuel (off + n) (suc left - n)
            ≡ some (
              take (suc left - n) (drop (off + n) (whole ds)),
              end_error (length (whole ds)) (off + n) (suc left - n),
            ))
      → read_entry vols fs (suc fuel) off (suc left)
        ≡ some (take (suc left) (drop off (whole ds)), end_error (length (whole ds)) off (suc left))
  entry-near fs ds fuel off left k f lt backs a c found ih =
      let d = part ds k in
      let z : 0 + offset ds k ≡ offset ds k = omega arith in
      let o : ℕ = off - offset ds k in
      let want : ℕ = min (offset ds k + f.len - off) (suc left) in
      let got = backs.1 want o (omega (arith, backs.0, a, c)) in
      let p : Bytes = take (suc left) (drop o d) in
      let same_bytes : take want (drop o d) ≡ p =
        take_clip want (suc left) (drop o d) (omega (arith, length-drop o d, backs.0, a, c)) in
      let n : length p ≡ want =
        omega (arith, length-take (suc left) (drop o d), length-drop o d, backs.0, a, c) in
      let end : offset ds k + length d ≤ length (whole ds) = omega (
        arith,
        offset_last ds,
        offset-suc ds k lt,
        offset_mono ds (suc k) (length ds) (omega (arith, lt)) (omega arith),
      ) in
      let some_bytes : 0 < length p = omega (arith, n, backs.0, a, c) in
      let not_more : length p ≤ suc left = omega (arith, n) in
      let e =
        end_error-step (length (whole ds)) off left (length p) some_bytes not_more
          (omega (arith, n, backs.0, a, c, end)) in
      let step =
        entry_step fs fuel off left f (offset ds k) p
          (take (suc left - length p) (drop (off + length p) (whole ds)))
          (end_error (length (whole ds)) (off + length p) (suc left - length p)) (rw (sym z) found)
          got.1 (got.0 ∙ same_bytes) (ih (length p) some_bytes not_more) in
      step ∙ rw (e, take-part ds k off (suc left) lt (omega (arith, a)) (omega (arith, c))) refl

  -- A read of an entry whose volumes are whole gives the bytes of its fragments from the offset on, in
  -- one piece across the volumes, and `io.EOF` exactly when they are fewer than asked; the loop ends.
  pub read_entry-Backed :
      (fs : List Frag) (ds : List Bytes) (fuel off left : ℕ)
      → Backed fs ds
      → left ≤ fuel
      → read_entry vols fs fuel off left
        ≡ some (take left (drop off (whole ds)), end_error (length (whole ds)) off left)
  unfolding read_entry read_turn
  read_entry-Backed fs ds fuel off zero b h = ground arith
  read_entry-Backed fs ds zero off (suc left) b h = absurd (omega arith)
  read_entry-Backed fs ds (suc fuel) off (suc left) b h =
      elim (Bool-cases (ltb off (length (whole ds)))) [
        | inr far ↦
            let none_there = find_frag_past fs ds 0 off b (ground arith) in
            let d : drop off (whole ds) ≡ [] = drop_all off (whole ds) (ground arith) in
            rw (none_there, d, read_turn) (ap (λ e. some ([], e)) (ground (arith, far)))
        | inl near ↦
            let (k, f, lt, backs, a, c, found) =
              find_frag-Backed fs ds 0 off b (omega arith) (ground (arith, near)) in
            entry-near fs ds fuel off left k f lt backs a c found
              (λ n pos small. read_entry-Backed fs ds fuel (off + n) (suc left - n) b (omega arith))
      ]

  turn_stuck :
      (fs : List Frag) (again : ℕ → ℕ → Option (Bytes × Option Error)) (off left : ℕ) (f : Frag)
      (base : ℕ)
      → let got = vols f.vol (min (base + f.len - off) left) (f.off + (off - base)) in
        find_frag fs 0 off ≡ some (f, base)
        → got.0 ≡ []
        → is_failure got.1 ≡ false
        → again (off + 0) (left - 0) ≡ none
        → read_turn vols fs again off left ≡ none
  unfolding read_turn
  turn_stuck fs again off left f base found empty fine ih =
      let got : Bytes = (vols f.vol (min (base + f.len - off) left) (f.off + (off - base))).0 in
      let ih' : again (off + length got) (left - length got) ≡ none = rw empty ih in
      rw (found, fine, ih', read_turn) refl

  -- Where a volume ends before the fragment does, a read in the missing bytes never returns: the volume
  -- gives no bytes and `io.EOF`, which the loop passes over, however many turns it takes.
  pub read_entry-stuck :
      (fs : List Frag) (fuel off left : ℕ) (f : Frag) (base : ℕ)
      → find_frag fs 0 off ≡ some (f, base)
      → 0 < left
      → (vols f.vol (min (base + f.len - off) left) (f.off + (off - base))).0 ≡ []
      → (vols f.vol (min (base + f.len - off) left) (f.off + (off - base))).1 ≡ some eof
      → read_entry vols fs fuel off left ≡ none
  unfolding read_entry
  read_entry-stuck fs fuel off zero f base found h empty at_end = absurd (omega arith)
  read_entry-stuck fs zero off (suc left) f base found h empty at_end = refl
  read_entry-stuck fs (suc fuel) off (suc left) f base found h empty at_end =
      let z : off + 0 ≡ off = omega arith in
      let z' : suc left - 0 ≡ suc left = omega arith in
      turn_stuck fs (read_entry vols fs fuel) off (suc left) f base found empty
        (ap is_failure at_end)
        (rw (z, z') (read_entry-stuck fs fuel off (suc left) f base found h empty at_end))
