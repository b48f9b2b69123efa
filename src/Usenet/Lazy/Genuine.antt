-- ===== src/Usenet/Lazy/Genuine.antt =====
-- What a fetch gives a reader of `Reader`, while servers fail or send the wrong article.
use torrin.Prelude.{
  ℕ, ◌-◌, ◌<◌, ◌≡◌, inl, inr, false, not, ◌&&◌, Option, none, some, List, [], ◌∷◌, ◌++◌, Result, ok,
  err, Result-cases, Bool-cases, Option-cases, All, ltb, ◌==◌, length, get_or, take, drop, arith,
}
use torrin.Prelude.Int.{pos, pos_part, ltb_ℤ}
use torrin.Prelude.Text.{Text}
use torrin.Prelude.Family.{update}
use torrin.Prelude.Parts.{Bytes, whole, offset, part}
use torrin.Usenet.Yenc.Decode.{YencResult, decode}
use torrin.Usenet.Lazy.Machine.{
  Failure, Error, eof, failed, Seg, no_seg, Reader, Net, fetch, trim, store, tick, fetch_segment,
  settle, get, read_at, max_cached_seg,
}
use torrin.Usenet.Lazy.Layout.{Fits, seg-Fits}

-- An article that decodes to as many bytes as a part has, and names the place of the part or none,
-- is the part; others may be anything. Prefetches are of segments that exist.
pub record Truthful (net : Net) (group : Text) (ss : List Seg) (ps : List Bytes) : Type 0 where
  pub same_article :
      (t i : ℕ) (raw : Text) (d : YencResult)
      → i < length ps
      → net.servers t (get_or ss i no_seg).message_id group ≡ some raw
      → decode net.crc32 raw ≡ ok d
      → length d.content ≡ length (part ps i)
      → (ltb_ℤ (pos 0) d.begin && not (pos_part d.begin - 1 == offset ps i)) ≡ false
      → d.content ≡ part ps i
  pub in_file : (t : ℕ) → All (λ i. i < length ps) (net.prefetched t)

-- A reader after some reads, each of so many bytes at an offset.
unfoldable pub after : Net → List (ℕ × ℕ) → Reader → Reader
unfolding read_at
after net [] r = r
after net ((len, off) ∷ reads) r = after net reads (read_at net len (pos off) r).0

module _ (net : Net) (group : Text) (ss : List Seg) (ps : List Bytes) where
  -- What a reader of the file has: its cache is the file's.
  pub record Genuine (r : Reader) : Type 0 where
    pub its_group : r.group ≡ group
    pub its_segs : r.segs ≡ ss
    pub its_size : r.size ≡ length (whole ps)
    pub its_cache : (i : ℕ) (d : Bytes) → i < length ps → r.cache i ≡ some d → d ≡ part ps i

  -- A fetch of a segment that failed, at some time.
  abbrev pub Failed : Failure → Type 0
  Failed e = (t : ℕ) × (i : ℕ) × (i < length ps) × (fetch net t group (get_or ss i no_seg) ≡ err e)

  -- What a fetch gives: the part, or an error because a fetch failed.
  abbrev pub Got : ℕ → Reader × Result Failure Bytes → Type 0
  Got i (r, ok d) = (d ≡ part ps i) × Genuine r
  Got i (r, err e) = Failed e × Genuine r

  -- What a read of `left` bytes behind `off` gives: those bytes, or all that there are with io.EOF, or
  -- the first of them with the error of a fetch.
  abbrev pub Read : ℕ → ℕ → Reader × Bytes × Option Error → Type 0
  Read off left (r, p, none) = (p ≡ take left (drop off (whole ps))) × (length p ≡ left) × Genuine r
  Read off left (r, p, some eof) =
      (p ≡ take left (drop off (whole ps))) × (length p < left) × Genuine r
  Read off left (r, p, some (failed e)) =
      ((rest : Bytes) × (p ++ rest ≡ take left (drop off (whole ps)))) × Failed e × Genuine r

module _ (net : Net) (group : Text) (ss : List Seg) (ps : List Bytes) (fits : Fits 0 ss ps)
    (truthful : Truthful net group ss ps) where
  abbrev IsPart : ℕ → Result Failure Bytes → Type 0
  IsPart i (ok d) = d ≡ part ps i
  IsPart i (err e) = Unit

  fetch-IsPart : (t i : ℕ) → i < length ps → IsPart i (fetch net t group (get_or ss i no_seg))
  unfolding fetch
  fetch-IsPart t i lt =
      let s = get_or ss i no_seg in
      let (start, size, some_bytes) = seg-Fits 0 ss ps i fits lt in
      elim (Option-cases (net.servers t s.message_id group)) [
        | inl refuses ↦ rw (refuses, fetch) tt
        | inr (raw, sent) ↦ elim (Result-cases (decode net.crc32 raw)) [
          | inr (e, damaged) ↦ rw (sent, damaged, fetch) tt
          | inl (d, decoded) ↦ elim (Bool-cases (length d.content == s.bytes)) [
            | inr other ↦ rw (sent, decoded, other, fetch) tt
            | inl whole_part ↦
                elim (Bool-cases (ltb_ℤ (pos 0) d.begin && not (pos_part d.begin - 1 == s.start))) [
                  | inl elsewhere ↦ rw (sent, decoded, whole_part, elsewhere, fetch) tt
                  | inr there ↦
                      let z : s.start ≡ offset ps i = omega (arith, start) in
                      rw (sent, decoded, whole_part, there, fetch)
                        (truthful.same_article t i raw d lt sent decoded
                          (ground (arith, whole_part, size)) (rw (← z) there))
                ]
          ]
        ]
      ]

  trim-Genuine :
      (l : List ℕ) (r : Reader) → Genuine net group ss ps r → Genuine net group ss ps (trim l r)
  unfolding trim
  trim-Genuine [] r g = record {
    its_group = g.its_group;
    its_segs = g.its_segs;
    its_size = g.its_size;
    its_cache = g.its_cache;
  }
  trim-Genuine (old ∷ l) r g = elim (Bool-cases (ltb max_cached_seg (length (old ∷ l)))) [
    | inr room ↦
        rw (room, trim)
          (record {
            its_group = g.its_group;
            its_segs = g.its_segs;
            its_size = g.its_size;
            its_cache = g.its_cache;
          })
    | inl full ↦
        rw (full, trim)
          (trim-Genuine l (record r { cache = update r.cache old none })
            (record {
              its_group = g.its_group;
              its_segs = g.its_segs;
              its_size = g.its_size;
              its_cache = λ i d lt h. ground (arith, h, g.its_cache i d lt);
            }))
  ]

  store-Genuine :
      (i : ℕ) (d : Bytes) (r : Reader)
      → d ≡ part ps i
      → Genuine net group ss ps r
      → Genuine net group ss ps (store i d r)
  unfolding store
  store-Genuine i d r e g = elim (Option-cases (r.cache i)) [
    | inr (c, there) ↦ rw (there, store) g
    | inl absent ↦
        rw (absent, store)
          (trim-Genuine (r.order ++ (i ∷ [])) (record r { cache = update r.cache i (some d) })
            (record {
              its_group = g.its_group;
              its_segs = g.its_segs;
              its_size = g.its_size;
              its_cache = λ j c lt h. ground (arith, h, e, g.its_cache j c lt);
            }))
  ]

  fetch_segment-Got :
      (i : ℕ) (r : Reader)
      → i < length ps
      → Genuine net group ss ps r
      → Got net group ss ps i (fetch_segment net i r)
  unfolding fetch_segment
  fetch_segment-Got i r lt g = elim (Option-cases (r.cache i)) [
    | inr (d, there) ↦ rw (there, fetch_segment) (g.its_cache i d lt there, g)
    | inl absent ↦ elim (Result-cases (fetch net r.clock group (get_or ss i no_seg))) [
      | inr (e, lost) ↦
          let lost' : fetch net r.clock r.group (get_or r.segs i no_seg) ≡ err e =
            rw (g.its_group, g.its_segs) lost in
          rw (absent, lost', fetch_segment) ((r.clock, i, lt, lost), ticked)
      | inl (d, found) ↦
          let e : d ≡ part ps i = rw found at (fetch-IsPart r.clock i lt) in
          let found' : fetch net r.clock r.group (get_or r.segs i no_seg) ≡ ok d =
            rw (g.its_group, g.its_segs) found in
          rw (absent, found', fetch_segment) (e, store-Genuine i d (tick r) e ticked)
    ]
  ]
    where
      ticked : Genuine net group ss ps (tick r)
      ticked = record {
        its_group = g.its_group;
        its_segs = g.its_segs;
        its_size = g.its_size;
        its_cache = g.its_cache;
      }

  settle-Genuine :
      (is : List ℕ) (r : Reader)
      → All (λ i. i < length ps) is
      → Genuine net group ss ps r
      → Genuine net group ss ps (settle net is r)
  unfolding settle
  settle-Genuine [] r a g = g
  settle-Genuine (i ∷ is) r a g =
      settle-Genuine is (fetch_segment net i r).0 a.1
        (kept (fetch_segment net i r) (fetch_segment-Got i r a.0 g))
    where
      kept :
          (o : Reader × Result Failure Bytes)
          → Got net group ss ps i o
          → Genuine net group ss ps o.0
      kept (r', ok d) h = h.1
      kept (r', err e) h = h.1

  pub get-Got :
      (i : ℕ) (r : Reader)
      → i < length ps
      → Genuine net group ss ps r
      → Got net group ss ps i (get net i r)
  unfolding get
  get-Got i r lt g = fetch_segment-Got i (settle net (net.prefetched r.clock) (tick r)) lt (
      settle-Genuine (net.prefetched r.clock) (tick r) (truthful.in_file r.clock) (record {
        its_group = g.its_group;
        its_segs = g.its_segs;
        its_size = g.its_size;
        its_cache = g.its_cache;
      }))
