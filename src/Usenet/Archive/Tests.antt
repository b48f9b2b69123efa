-- ===== src/Usenet/Archive/Tests.antt =====
-- A video over two volumes, and one whose second volume is cut short.
use torrin.Prelude.{
  ℕ, zero, suc, ◌+◌, ◌≤◌, ◌≡◌, refl, Bool, true, false, Option, none, some, List, [], ◌∷◌, length,
  take, drop, if◌then◌else◌, ltb, arith,
}
use torrin.Prelude.Dict.{get, put}
use torrin.Prelude.Text.{bytes, same}
use torrin.Prelude.Parts.{Bytes, whole}
use torrin.Usenet.Archive.Entry.{Error, eof, Frag, add_frag, find_frag, read_entry, is_failure}
use torrin.Usenet.Archive.Reads.{Backed, end_error, read_entry-Backed, read_entry-stuck}

abbrev volume_bytes : ℕ → Bytes
volume_bytes zero = 0 ∷ 0 ∷ 1 ∷ 2 ∷ 3 ∷ []
volume_bytes (suc i) = 0 ∷ 4 ∷ 5 ∷ []

-- A volume in memory.
abbrev volumes : ℕ → ℕ → ℕ → Bytes × Option Error
volumes vol n off =
    let p = take n (drop off (volume_bytes vol)) in (p, if ltb (length p) n then some eof else none)

abbrev frags : List Frag
frags = record { vol = 0; off = 2; len = 3 } ∷ record { vol = 1; off = 1; len = 2 } ∷ []

abbrev pieces : List Bytes
pieces = (1 ∷ 2 ∷ 3 ∷ []) ∷ (4 ∷ 5 ∷ []) ∷ []

-- The headers of the two volumes, in turn.
entry_frags :
    get
      (bytes "a.mkv")
      (add_frag
        (bytes "a.mkv")
        5
        true
        (record { vol = 1; off = 1; len = 2 })
        (add_frag (bytes "a.mkv") 5 true (record { vol = 0; off = 2; len = 3 }) ([], []))).0
    ≡ some (record { size = 5; streamable = true; frags = frags })
unfolding add_frag get put same
entry_frags = refl

eof_passes : (b : Bool) → is_failure (if b then some eof else none) ≡ false
eof_passes b = ground arith

first_bytes : (n o : ℕ) → o + n ≤ 3 → (volumes 0 n (2 + o)).0 ≡ take n (drop o (1 ∷ 2 ∷ 3 ∷ []))
first_bytes n zero h = refl
first_bytes n (suc zero) h = refl
first_bytes n (suc (suc zero)) h = refl
first_bytes n (suc (suc (suc zero))) h = refl
first_bytes n (suc (suc (suc (suc o)))) h = absurd (omega (arith, h))

second_bytes : (n o : ℕ) → o + n ≤ 2 → (volumes 1 n (1 + o)).0 ≡ take n (drop o (4 ∷ 5 ∷ []))
second_bytes n zero h = refl
second_bytes n (suc zero) h = refl
second_bytes n (suc (suc zero)) h = refl
second_bytes n (suc (suc (suc o))) h = absurd (omega (arith, h))

frags-Backed : Backed volumes frags pieces
frags-Backed = (
  (refl, λ n o h. (first_bytes n o h, eof_passes (ltb (length (volumes 0 n (2 + o)).0) n))),
  ((refl, λ n o h. (second_bytes n o h, eof_passes (ltb (length (volumes 1 n (1 + o)).0) n))), tt),
)

read_entry-Backed_example :
    read_entry volumes frags 3 1 3
    ≡ some (take 3 (drop 1 (whole pieces)), end_error volumes (length (whole pieces)) 1 3)
read_entry-Backed_example = read_entry-Backed volumes frags pieces 3 1 3 frags-Backed (omega arith)

-- The header promises a byte more than the volume has.
abbrev cut_frags : List Frag
cut_frags = record { vol = 0; off = 2; len = 4 } ∷ []

found : find_frag cut_frags 0 3 ≡ some (record { vol = 0; off = 2; len = 4 }, 0)
unfolding find_frag
found = refl

read_entry-stuck_example : read_entry volumes cut_frags 1000 3 1 ≡ none
read_entry-stuck_example =
    read_entry-stuck volumes cut_frags 1000 3 1 (record { vol = 0; off = 2; len = 4 }) 0 found
      (omega arith) refl refl
