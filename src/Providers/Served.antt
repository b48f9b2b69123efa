-- ===== src/Providers/Served.antt =====
-- What a server that has a file answers with, and what the copy of a body leaves in a file.
use torrin.Prelude.{
  ℕ, ◌+◌, ◌<◌, ◌≡◌, refl, sym, ap, ◌∙◌, ◌⊎◌, Bool, true, false, Option, none, some, List, [], ◌∷◌,
  ◌++◌, length, take, drop, length-append, take-append-drop, arith,
}
use mathlib.Core.List.{append-nil, append_assoc}
use torrin.Prelude.Parts.{Bytes}
use torrin.Providers.Body.{Error, Turn, cancelled, breaks, reads, write_at, copy_body}
use torrin.Providers.Download.{Response, Server, total_from_content_range}

abbrev pub Prefix : Bytes → Bytes → Type 0
Prefix f D = (rest : Bytes) × (f ++ rest ≡ D)

-- All bytes that a body gives.
abbrev pub body_bytes : List Turn → Bytes
body_bytes [] = []
body_bytes (cancelled ∷ ts) = []
body_bytes (breaks ∷ ts) = []
body_bytes (reads got fails wait_fails ∷ ts) = got ++ body_bytes ts

-- The body does not break off.
abbrev pub Unbroken : List Turn → Type 0
Unbroken [] = Unit
Unbroken (cancelled ∷ ts) = ⊥
Unbroken (breaks ∷ ts) = ⊥
Unbroken (reads got fails wait_fails ∷ ts) = Unbroken ts

-- The announced size is the file's; where none is announced, a body that ends without an error is
-- all that was asked for, which a transfer in chunks promises.
abbrev pub Sized : Bytes → ℕ → List Turn → Bytes → Type 0
Sized D sz body asked = (sz ≡ length D) ⊎ ((sz ≡ 0) × (Unbroken body → body_bytes body ≡ asked))

-- The answers are of the file `D`: a part of it behind an offset in it, or the whole; but any
-- body may break off early.
pub record Honest (D : Bytes) (server : Server) : Type 0 where
  pub partial_content :
      (k off : ℕ) (r : Response)
      → server k off ≡ some r
      → r.status ≡ 206
      → (off < length D)
        × Prefix (body_bytes r.body) (drop off D)
        × Sized D (total_from_content_range r.content_range) r.body (drop off D)
  pub whole_content :
      (k off : ℕ) (r : Response)
      → server k off ≡ some r
      → r.status ≡ 200
      → Prefix (body_bytes r.body) D × Sized D r.content_length r.body D

pub write_at-end : (bs f : Bytes) → write_at (length f) bs f ≡ f ++ bs
unfolding write_at
write_at-end [] f = sym (append-nil f)
write_at-end (b ∷ bs) [] = refl
write_at-end (b ∷ bs) (x ∷ f) = ap (◌∷◌ x) (write_at-end (b ∷ bs) f)

-- Bytes of the body stand behind what was there: all of them where the copy ends without an error.
abbrev pub Copied : List Turn → Bytes → Bytes × ℕ × Option Error × Bool → Type 0
Copied ts f (f', n, e, fatal) =
    (p : Bytes) × (Prefix p (body_bytes ts))
    × (f' ≡ f ++ p)
    × (fatal ≡ false → n ≡ length f')
    × (e ≡ none → (p ≡ body_bytes ts) × Unbroken ts × (fatal ≡ false))

pub copy_body-Copied :
    (ts : List Turn) (f : Bytes) (w : ℕ) → w ≡ length f → Copied ts f (copy_body ts f w)
unfolding copy_body
copy_body-Copied [] f w h = ([], ([], refl), sym (append-nil f), λ z. h, λ z. (refl, tt, refl))
copy_body-Copied (cancelled ∷ ts) f w h =
    ([], ([], refl), sym (append-nil f), λ z. h, λ z. ground (arith, z))
copy_body-Copied (breaks ∷ ts) f w h =
    ([], ([], refl), sym (append-nil f), λ z. h, λ z. ground (arith, z))
copy_body-Copied (reads [] fails wait_fails ∷ ts) f w h = copy_body-Copied ts f w h
copy_body-Copied (reads (b ∷ bs) (some k) wait_fails ∷ ts) f w h = (
  take k (b ∷ bs),
  (
    drop k (b ∷ bs) ++ body_bytes ts,
    sym (append_assoc (take k (b ∷ bs)) (drop k (b ∷ bs)) (body_bytes ts))
        ∙ ap (◌++ body_bytes ts) (take-append-drop k (b ∷ bs)),
  ),
  rw h (write_at-end (take k (b ∷ bs)) f),
  λ z. ground (arith, z),
  λ z. ground (arith, z),
)
copy_body-Copied (reads (b ∷ bs) none true ∷ ts) f w h = (
  b ∷ bs,
  (body_bytes ts, refl),
  rw h (write_at-end (b ∷ bs) f),
  λ z. ground (arith, z),
  λ z. ground (arith, z),
)
copy_body-Copied (reads (b ∷ bs) none false ∷ ts) f w h =
    let at : write_at w (b ∷ bs) f ≡ f ++ (b ∷ bs) = rw h (write_at-end (b ∷ bs) f) in
    let (p, (rest, fits), file, counted, all) =
      copy_body-Copied ts (write_at w (b ∷ bs) f) (w + length (b ∷ bs))
        (omega (arith, ap length at, length-append f (b ∷ bs), h)) in
    (
      (b ∷ bs) ++ p,
      (rest, append_assoc (b ∷ bs) p rest ∙ ap ((b ∷ bs) ++◌) fits),
      file ∙ ap (◌++ p) at ∙ append_assoc f (b ∷ bs) p,
      counted,
      λ z. (ap ((b ∷ bs) ++◌) (all z).0, (all z).1, (all z).2),
    )
