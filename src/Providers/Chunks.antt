-- ===== src/Providers/Chunks.antt =====
-- What a connection of the parallel download writes of its chunk.
use torrin.Prelude.{
  ℕ, zero, suc, ◌+◌, ◌≤◌, ◌<◌, ◌≡◌, refl, sym, ap, ◌∙◌, inl, inr, Bool, true, false, Option, none,
  some, List, [], ◌∷◌, ◌++◌, length, take, drop, leb, ltb, ◌==◌, take-append-drop, Bool-cases,
  Option-cases, All, arith,
}
use mathlib.Core.List.{append_assoc}
use torrin.Prelude.Parts.{Bytes}
use torrin.Providers.Body.{
  Error, refused, bad_status, Turn, cancelled, breaks, reads, Write, copy_chunk_at,
}
use torrin.Providers.Download.{Response}
use torrin.Providers.Served.{Prefix, body_bytes}
use torrin.Providers.Parallel.{
  Line, or_short, with_writes, after_chunk, chunk_loop, fetch_chunk, chunk_start, chunk_stop,
  connection,
}
use torrin.Providers.Writes.{GoodWrite, Hit}

-- An answer with partial content is of the file, from the byte on that was asked for; it may break
-- off early.
abbrev pub HonestLine : Bytes → Line → Type 0
HonestLine D line =
    (k p : ℕ) (r : Response)
    → line.answer k p ≡ some r
    → r.status ≡ 206
    → Prefix (body_bytes r.body) (drop p D)

abbrev pub Covers : List Write → ℕ → ℕ → Type 0
Covers ws a b = (j : ℕ) → a ≤ j → j < b → Hit j ws

Hit-left : (j : ℕ) (ws vs : List Write) → Hit j ws → Hit j (ws ++ vs)
Hit-left j [] vs h = absurd h
Hit-left j (w ∷ ws) vs (inl here) = inl here
Hit-left j (w ∷ ws) vs (inr later) = inr (Hit-left j ws vs later)

Hit-right : (j : ℕ) (ws vs : List Write) → Hit j vs → Hit j (ws ++ vs)
Hit-right j [] vs h = h
Hit-right j (w ∷ ws) vs h = inr (Hit-right j ws vs h)

All-append :
    (D : Bytes) (ws vs : List Write)
    → All (GoodWrite D) ws
    → All (GoodWrite D) vs
    → All (GoodWrite D) (ws ++ vs)
All-append D [] vs a b = b
All-append D (w ∷ ws) vs a b = (a.0, All-append D ws vs a.1 b)

drop_behind : (xs ys : Bytes) → drop (length xs) (xs ++ ys) ≡ ys
drop_behind [] ys = refl
drop_behind (x ∷ xs) ys = drop_behind xs ys

drop_more : (m : ℕ) (D xs ys : Bytes) → xs ++ ys ≡ drop m D → drop (m + length xs) D ≡ ys
drop_more zero D xs ys e =
    let z : 0 + length xs ≡ length xs = omega arith in rw (z, ← e) (drop_behind xs ys)
drop_more (suc m) [] [] ys e = let z : suc m + 0 ≡ suc m = omega arith in rw z (sym e)
drop_more (suc m) [] (x ∷ xs) ys e = absurd (ground (arith, ap length e))
drop_more (suc m) (d ∷ D) xs ys e =
    let z : suc m + length xs ≡ suc (m + length xs) = omega arith in rw z (drop_more m D xs ys e)

-- What a copy writes is the file's, and covers what it counts.
abbrev Wrote : Bytes → ℕ → ℕ → List Write × ℕ × Option Error → Type 0
Wrote D p w (ws, n, e) = All (GoodWrite D) ws × Covers ws (p + w) (p + n)

copy_chunk_at-Wrote :
    (D : Bytes) (ts : List Turn) (p w : ℕ)
    → Prefix (body_bytes ts) (drop (p + w) D)
    → Wrote D p w (copy_chunk_at ts p w)
unfolding copy_chunk_at
copy_chunk_at-Wrote D [] p w pre = (tt, λ j a b. absurd (omega arith))
copy_chunk_at-Wrote D (cancelled ∷ ts) p w pre = (tt, λ j a b. absurd (omega arith))
copy_chunk_at-Wrote D (breaks ∷ ts) p w pre = (tt, λ j a b. absurd (omega arith))
copy_chunk_at-Wrote D (reads [] fails wait_fails ∷ ts) p w pre = copy_chunk_at-Wrote D ts p w pre
copy_chunk_at-Wrote D (reads (b ∷ bs) (some k) wait_fails ∷ ts) p w (rest, e) =
    let good : GoodWrite D (p + w, take k (b ∷ bs)) = (
      drop k (b ∷ bs) ++ (body_bytes ts ++ rest),
      sym (append_assoc (take k (b ∷ bs)) (drop k (b ∷ bs)) (body_bytes ts ++ rest))
          ∙ ap (◌++ (body_bytes ts ++ rest)) (take-append-drop k (b ∷ bs))
          ∙ sym (append_assoc (b ∷ bs) (body_bytes ts) rest)
          ∙ e,
    ) in
    ((good, tt), λ j a c. absurd (omega arith))
copy_chunk_at-Wrote D (reads (b ∷ bs) none true ∷ ts) p w (rest, e) =
    let good : GoodWrite D (p + w, b ∷ bs) =
      (body_bytes ts ++ rest, sym (append_assoc (b ∷ bs) (body_bytes ts) rest) ∙ e) in
    ((good, tt), λ j a c. inl (a, omega (arith, c)))
copy_chunk_at-Wrote D (reads (b ∷ bs) none false ∷ ts) p w (rest, e) =
    let behind : (b ∷ bs) ++ (body_bytes ts ++ rest) ≡ drop (p + w) D =
      sym (append_assoc (b ∷ bs) (body_bytes ts) rest) ∙ e in
    let z : p + (w + length (b ∷ bs)) ≡ p + w + length (b ∷ bs) = omega arith in
    let more : drop (p + (w + length (b ∷ bs))) D ≡ body_bytes ts ++ rest =
      rw z (drop_more (p + w) D (b ∷ bs) (body_bytes ts ++ rest) behind) in
    let (goods, covers) = copy_chunk_at-Wrote D ts p (w + length (b ∷ bs)) (rest, sym more) in
    (
      ((body_bytes ts ++ rest, behind), goods),
      λ j a c. elim (Bool-cases (ltb j (p + w + length (b ∷ bs)))) [
        | inl now ↦ inl (a, ground (arith, now))
        | inr later ↦ inr (covers j (ground (arith, later)) c)
      ],
    )

-- What a connection wrote of its chunk: all of it unless there is an error.
abbrev pub Done : Bytes → ℕ → ℕ → List Write × Option Error → Type 0
Done D p stop (ws, e) = All (GoodWrite D) ws × (e ≡ none → Covers ws p stop)

abbrev Again : Type 0
Again = ℕ → Option Error → List Write × Option Error

with_writes-Done :
    (D : Bytes) (ws : List Write) (p q stop : ℕ) (r : List Write × Option Error)
    → All (GoodWrite D) ws
    → Covers ws p q
    → Done D q stop r
    → Done D p stop (with_writes ws r)
unfolding with_writes
with_writes-Done D ws p q stop (rest, e) goods covers (goods', all) = (
  All-append D ws rest goods goods',
  λ z j a c. elim (Bool-cases (ltb j q)) [
    | inl now ↦ Hit-left j ws rest (covers j a (ground (arith, now)))
    | inr later ↦ Hit-right j ws rest (all z j (ground (arith, later)) c)
  ],
)

after_chunk-Done :
    (D : Bytes) (again : Again) (stop p : ℕ) (over : Bool) (c : List Write × ℕ × Option Error)
    → ((q : ℕ) (e : Error) → Done D q stop (again q (some e)))
    → Wrote D p 0 c
    → Done D p stop (after_chunk again stop p over c)
unfolding after_chunk
after_chunk-Done D again stop p over (ws, n, e) ih (goods, covers) =
    elim (Bool-cases (leb stop (p + n))) [
      | inl full ↦
          rw (full, after_chunk)
            (goods, λ z j a c. covers j (omega (arith, a)) (ground (arith, c, full)))
      | inr short ↦ elim (Bool-cases over) [
        | inl stopped ↦ rw (short, stopped, after_chunk) (goods, λ z. ground (arith, z))
        | inr on ↦
            rw (short, on, after_chunk)
              (with_writes-Done D ws p (p + n) stop (again (p + n) (some (or_short e))) goods
                (λ j a c. covers j (omega (arith, a)) c) (ih (p + n) (or_short e)))
      ]
    ]

chunk_turn-Done :
    (D : Bytes) (line : Line) (stop n k p : ℕ) (last : Option Error)
    → HonestLine D line
    → ((q : ℕ) (e : Error) → Done D q stop (chunk_loop line stop n (k + 1) q (some e)))
    → Done D p stop (chunk_loop line stop (suc n) k p last)
unfolding chunk_loop
chunk_turn-Done D line stop n k p last honest ih = elim (Bool-cases (line.cancelled k)) [
  | inl over ↦ rw (over, chunk_loop) (tt, λ z. ground (arith, z))
  | inr on ↦ elim (Bool-cases (leb stop p)) [
    | inl all ↦ rw (on, all, chunk_loop) (tt, λ z j a c. absurd (ground (arith, all, a, c)))
    | inr some_left ↦ elim (Option-cases (line.answer k p)) [
      | inl refuses ↦ rw (on, some_left, refuses, chunk_loop) (ih p refused)
      | inr (r, got) ↦ elim (Bool-cases (r.status == 206)) [
        | inr other ↦ rw (on, some_left, got, other, chunk_loop) (ih p bad_status)
        | inl partly ↦
            let z : p + 0 ≡ p = omega arith in
            rw (on, some_left, got, partly, chunk_loop)
              (after_chunk-Done D (chunk_loop line stop n (k + 1)) stop p (line.cancelled_after k)
                (copy_chunk_at r.body p 0) ih
                (copy_chunk_at-Wrote D r.body p 0
                  (rw z (honest k p r got (ground (arith, partly))))))
      ]
    ]
  ]
]

chunk_loop-Done :
    (D : Bytes) (line : Line) (stop n k p : ℕ) (e : Error)
    → HonestLine D line
    → Done D p stop (chunk_loop line stop n k p (some e))
unfolding chunk_loop
chunk_loop-Done D line stop zero k p e honest = (tt, λ z. ground (arith, z))
chunk_loop-Done D line stop (suc n) k p e honest =
    chunk_turn-Done D line stop n k p (some e) honest
      (λ q e'. chunk_loop-Done D line stop n (k + 1) q e' honest)

pub connection-Done :
    (D : Bytes) (lines : ℕ → Line) (conns i : ℕ)
    → HonestLine D (lines i)
    → Done D
        (chunk_start (length D) conns i)
        (chunk_stop (length D) conns i)
        (connection lines (length D) conns i)
unfolding connection fetch_chunk
connection-Done D lines conns i honest =
    let start = chunk_start (length D) conns i in
    let stop = chunk_stop (length D) conns i in
    elim (Bool-cases (leb stop start)) [
      | inl nothing ↦
          rw (nothing, connection) (tt, λ z j a c. absurd (ground (arith, nothing, a, c)))
      | inr some_left ↦
          rw (some_left, connection)
            (chunk_turn-Done D (lines i) stop 5 0 start none honest
              (λ q e. chunk_loop-Done D (lines i) stop 5 1 q e honest))
    ]
