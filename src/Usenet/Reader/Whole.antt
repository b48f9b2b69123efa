-- ===== src/Usenet/Reader/Whole.antt =====
-- Whatever the servers answer, a chunk ends where its bytes do.
use torrin.Prelude.{
  ℕ, zero, suc, ◌+◌, ◌-◌, ◌≡◌, refl, ap, sym, ◌∙◌, ◌⊎◌, inl, inr, true, ◌||◌, some, List, [], ◌∷◌,
  ◌++◌, Result, ok, err, Result-cases, Bool-cases, Option-cases, length, get_or, replicate,
  length-replicate, ltb, ◌==◌, if◌then◌else◌, arith,
}
use torrin.Prelude.Parts.{Bytes}
use torrin.Usenet.Reader.Machine.{
  SegChunk, Error, Answer, article, no_article, no_answer, article_missing, fetch_failed,
  too_many_holes, eof, not_found, Net, FileReaderAt, max_pad_run, max_pad_total, ra_cache_max, trim,
  store, tick, chunk_of, fetch_seg, settle, hole_chunk, seg_with, end_of, seg,
}

-- A chunk ends where its bytes do.
abbrev pub IsWhole : SegChunk → Type 0
IsWhole c = c.end ≡ c.begin + length c.content

abbrev pub AllWhole : FileReaderAt → Type 0
AllWhole r = (i : ℕ) (c : SegChunk) → r.cache i ≡ some c → IsWhole c

-- The same of what a method returns.
abbrev pub WholeOut : FileReaderAt × Result Error SegChunk → Type 0
WholeOut o = AllWhole o.0 × ((c : SegChunk) → o.1 ≡ ok c → IsWhole c)

trim-AllWhole : (l : List ℕ) (r : FileReaderAt) → AllWhole r → AllWhole (trim l r)
trim-AllWhole [] r g i c h = g i c h
trim-AllWhole (old ∷ l) r g i c h = elim (Bool-cases (ltb ra_cache_max (length r.order))) [
  | inl full ↦ g i c (ground (arith, h, full))
  | inr free ↦ g i c (ground (arith, h, free))
]

store-AllWhole :
    (i : ℕ) (c : SegChunk) (r : FileReaderAt) → IsWhole c → AllWhole r → AllWhole (store i c r)
unfolding store
store-AllWhole i c r w g =
    trim-AllWhole (r.order ++ (i ∷ [])) _ (λ j d h. ground (arith, h, w, g j d))

Answer-cases :
    (a : Answer)
    → ((b : ℕ) × (d : Bytes) × (a ≡ article b d)) ⊎ ((a ≡ no_article) ⊎ (a ≡ no_answer))
Answer-cases (article b d) = inl (b, d, refl)
Answer-cases no_article = inr (inl refl)
Answer-cases no_answer = inr (inr refl)

module _ (net : Net) where
  fetch-WholeOut : (i : ℕ) (r : FileReaderAt) → AllWhole r → WholeOut (fetch_seg net i r)
  unfolding fetch_seg
  fetch-WholeOut i r g = elim (Option-cases (r.cache i)) [
    | inr (c, there) ↦ rw (there, fetch_seg) (g, λ d h. ground (arith, h, there, g i c there))
    | inl absent ↦ elim (Answer-cases (net.fetch r.clock i)) [
      | inl (b, d, e) ↦
          rw (absent, e, fetch_seg)
            (store-AllWhole i (chunk_of (b - 1) d) (tick r) refl g, λ c h. ground (arith, h))
      | inr (inl e) ↦ rw (absent, e, fetch_seg) (g, λ c h. absurd (ground (arith, h)))
      | inr (inr e) ↦ rw (absent, e, fetch_seg) (g, λ c h. absurd (ground (arith, h)))
    ]
  ]

  settle-AllWhole : (is : List ℕ) (r : FileReaderAt) → AllWhole r → AllWhole (settle net is r)
  unfolding settle
  settle-AllWhole [] r g = g
  settle-AllWhole (i ∷ is) r g = settle-AllWhole is (fetch_seg net i r).0 (fetch-WholeOut i r g).0

  module _ (sizes : List ℕ) where
    hole-WholeOut :
        (i : ℕ) (before : FileReaderAt → FileReaderAt × Result Error ℕ) (r : FileReaderAt)
        → ((q : FileReaderAt) → AllWhole q → AllWhole (before q).0)
        → AllWhole r
        → WholeOut (hole_chunk sizes i before r)
    unfolding hole_chunk
    hole-WholeOut i before r keeps g =
        let r1 = (before r).0 in
        let run = if i == r1.after_hole then r1.cur_run + 1 else 1 in
        let size = if r.typ == 0 then get_or sizes i 0 else r.typ in
        elim (Result-cases (before r).1) [
          | inr (e, failed) ↦ rw (failed, hole_chunk) (keeps r g, λ c h. absurd (ground (arith, h)))
          | inl (begin, known) ↦
              elim (Bool-cases (ltb max_pad_run run || ltb max_pad_total (r1.pad_total + 1))) [
                | inl too_many ↦
                    rw (known, too_many, hole_chunk) (keeps r g, λ c h. absurd (ground (arith, h)))
                | inr few ↦
                    let c : SegChunk = record {
                      begin = begin;
                      end = begin + size;
                      content = replicate size 0;
                      hole = true;
                    } in
                    let w : IsWhole c = ap (begin +◌) (sym (length-replicate {A = ℕ} size 0)) in
                    rw (known, few, hole_chunk)
                      (
                        store-AllWhole i c
                            (record r1 {
                              cur_run = run;
                              after_hole = i + 1;
                              pad_total = r1.pad_total + 1;
                            })
                            w (keeps r g),
                        λ d h. ground (arith, h, w),
                      )
              ]
        ]

    -- Where the fetch failed: only a missing article makes a hole.
    failed-WholeOut :
        (e : Error) (i : ℕ) (before : FileReaderAt → FileReaderAt × Result Error ℕ)
        (r : FileReaderAt)
        → ((q : FileReaderAt) → AllWhole q → AllWhole (before q).0)
        → (let o = fetch_seg net i (settle net (net.prefetched r.clock) (tick r)) in
            (o.1 ≡ err e) × AllWhole o.0)
        → WholeOut (seg_with net sizes i before r)
    unfolding seg_with
    failed-WholeOut article_missing i before r keeps h =
        rw (h.0, seg_with)
          (hole-WholeOut i before (fetch_seg net i (settle net (net.prefetched r.clock) (tick r))).0
            keeps h.1)
    failed-WholeOut fetch_failed i before r keeps h =
        rw (h.0, seg_with) (h.1, λ c k. absurd (ground (arith, k)))
    failed-WholeOut too_many_holes i before r keeps h =
        rw (h.0, seg_with) (h.1, λ c k. absurd (ground (arith, k)))
    failed-WholeOut eof i before r keeps h =
        rw (h.0, seg_with) (h.1, λ c k. absurd (ground (arith, k)))
    failed-WholeOut not_found i before r keeps h =
        rw (h.0, seg_with) (h.1, λ c k. absurd (ground (arith, k)))

    seg_with-WholeOut :
        (i : ℕ) (before : FileReaderAt → FileReaderAt × Result Error ℕ) (r : FileReaderAt)
        → ((q : FileReaderAt) → AllWhole q → AllWhole (before q).0)
        → AllWhole r
        → WholeOut (seg_with net sizes i before r)
    unfolding seg_with
    seg_with-WholeOut i before r keeps g =
        let q : FileReaderAt = settle net (net.prefetched r.clock) (tick r) in
        let f = fetch-WholeOut i q (settle-AllWhole (net.prefetched r.clock) (tick r) g) in
        elim (Result-cases (fetch_seg net i q).1) [
          | inl (c, got) ↦ rw (got, seg_with) (f.0, λ d k. f.1 d (got ∙ k))
          | inr (e, failed) ↦ failed-WholeOut e i before r keeps (failed, f.0)
        ]

    end-AllWhole : (o : FileReaderAt × Result Error SegChunk) → AllWhole o.0 → AllWhole (end_of o).0
    end-AllWhole (r, ok c) g = g
    end-AllWhole (r, err e) g = g

    pub seg-WholeOut : (i : ℕ) (r : FileReaderAt) → AllWhole r → WholeOut (seg net sizes i r)
    unfolding seg
    seg-WholeOut zero r g = seg_with-WholeOut zero (λ q. (q, ok 0)) r (λ q k. k) g
    seg-WholeOut (suc i) r g =
        seg_with-WholeOut (suc i) (λ q. end_of (seg net sizes i q)) r
          (λ q k. end-AllWhole (seg net sizes i q) (seg-WholeOut i q k).0) g
