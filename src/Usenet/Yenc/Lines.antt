-- ===== src/Usenet/Yenc/Lines.antt =====
-- The lines of an article: `bytes.ReplaceAll` of CR LF by LF, and `bytes.Split` at LF.
use torrin.Prelude.{
  ℕ, ◌≡◌, refl, ap, ◌∙◌, true, false, ◌&&◌, List, [], ◌∷◌, ◌++◌, ◌==◌, if◌then◌else◌, All,
}
use torrin.Prelude.Text.{Text}

unfoldable pub normalize : Text → Text
normalize [] = []
normalize (c ∷ []) = c ∷ []
normalize (c ∷ d ∷ s) = elim (c == 13 && d == 10) [
  | true ↦ 10 ∷ normalize s
  | false ↦ c ∷ normalize (d ∷ s)
]

-- The first line, and the lines behind it.
unfoldable pub cut_line : Text → Text × List Text
cut_line [] = ([], [])
cut_line (c ∷ s) =
    let (line, rest) = cut_line s in if c == 10 then ([], line ∷ rest) else (c ∷ line, rest)

unfoldable pub split_lines : Text → List Text
unfolding cut_line
split_lines s = let (line, rest) = cut_line s in line ∷ rest

-- Lines as they are sent, each with CR LF behind it.
abbrev pub sent : List Text → Text
sent [] = []
sent (l ∷ ls) = l ++ (13 ∷ 10 ∷ sent ls)

-- A text within a line.
abbrev pub Unbroken : Text → Type 0
Unbroken = All (λ c. (c == 10 ≡ false) × (c == 13 ≡ false))

abbrev joined : List Text → Text
joined [] = []
joined (l ∷ ls) = l ++ (10 ∷ joined ls)

normalize_crlf : (s : Text) → normalize (13 ∷ 10 ∷ s) ≡ 10 ∷ normalize s
unfolding normalize
normalize_crlf s = refl

normalize-cons : (c : ℕ) (s : Text) → c == 13 ≡ false → normalize (c ∷ s) ≡ c ∷ normalize s
unfolding normalize
normalize-cons c [] h = refl
normalize-cons c (d ∷ s) h = rw (h, normalize) refl

normalize-line :
    (l s : Text) → Unbroken l → normalize (l ++ (13 ∷ 10 ∷ s)) ≡ l ++ (10 ∷ normalize s)
normalize-line [] s u = normalize_crlf s
normalize-line (c ∷ l) s u =
    normalize-cons c (l ++ (13 ∷ 10 ∷ s)) u.0.1 ∙ ap (c ∷◌) (normalize-line l s u.1)

normalize-sent : (ls : List Text) → All Unbroken ls → normalize (sent ls) ≡ joined ls
unfolding normalize
normalize-sent [] u = refl
normalize-sent (l ∷ ls) u =
    normalize-line l (sent ls) u.0 ∙ ap (λ s. l ++ (10 ∷ s)) (normalize-sent ls u.1)

cut-line : (l s : Text) → Unbroken l → cut_line (l ++ (10 ∷ s)) ≡ (l, split_lines s)
unfolding cut_line split_lines
cut-line [] s u = refl
cut-line (c ∷ l) s u = rw (u.0.0, cut-line l s u.1, cut_line) refl

split-joined : (ls : List Text) → All Unbroken ls → split_lines (joined ls) ≡ ls ++ ([] ∷ [])
unfolding split_lines
split-joined [] u = refl
split-joined (l ∷ ls) u = rw (cut-line l (joined ls) u.0) (ap (l ∷◌) (split-joined ls u.1))

-- The lines that were sent are the lines that are read, and an empty one.
pub split-normalize-sent :
    (ls : List Text) → All Unbroken ls → split_lines (normalize (sent ls)) ≡ ls ++ ([] ∷ [])
split-normalize-sent ls u = ap split_lines (normalize-sent ls u) ∙ split-joined ls u
