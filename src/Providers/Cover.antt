-- ===== src/Providers/Cover.antt =====
-- The chunks of the parallel download cover the file.
use torrin.Prelude.{
  ℕ, zero, suc, ◌+◌, ◌-◌, ◌*◌, ◌/◌, ◌≤◌, ◌<◌, ◌≡◌, refl, ap, inl, inr, Bool, true, false, Option,
  none, some, List, [], length, take, replicate, leb, ◌==◌, length-append, length-take,
  length-replicate, Bool-cases, Option-cases, arith,
}
use torrin.Prelude.Parts.{Bytes}
use torrin.Providers.Body.{Error, Write}
use torrin.Providers.Download.{content}
use torrin.Providers.Resumed.{Kept, OnDisk, Left-content}
use torrin.Providers.Parallel.{
  Line, chunk_start, chunk_stop, connection, play, first_error, truncate, download_parallel,
}
use torrin.Providers.Writes.{Right, all_Right, left_over, Coming, play-Right}
use torrin.Providers.Chunks.{HonestLine, connection-Done}

-- The chunks cover the file.
chunk_of_position :
    (chunk n j : ℕ)
    → j < suc n * chunk
    → (i : ℕ) × (i < suc n) × (i * chunk ≤ j) × (j < i * chunk + chunk)
chunk_of_position chunk zero j h = (0, omega arith, omega arith, omega (arith, h))
chunk_of_position chunk (suc n) j h = elim (Bool-cases (leb (suc n * chunk) j)) [
  | inl last ↦ (suc n, omega arith, ground (arith, last), omega (arith, h))
  | inr before ↦
      let (i, lt, a, c) = chunk_of_position chunk n j (ground (arith, before)) in
      (i, omega (arith, lt), a, c)
]

chunks_cover :
    (total n j : ℕ)
    → j < total
    → (i : ℕ) × (i < suc n) × (chunk_start total (suc n) i ≤ j) × (j < chunk_stop total (suc n) i)
unfolding chunk_stop
chunks_cover total zero j h = (0, omega arith, omega arith, ground (arith, h))
chunks_cover total (suc n) j h = elim (Bool-cases (leb (suc n * (total / suc (suc n))) j)) [
  | inl last ↦ (suc n, omega arith, ground (arith, last), ground (arith, h))
  | inr before ↦
      let (i, lt, a, c) = chunk_of_position (total / suc (suc n)) n j (ground (arith, before)) in
      (i, omega (arith, lt), a, ground (arith, lt, c))
]

first_error-none :
    (n i : ℕ) (errs : ℕ → Option Error) → first_error n errs ≡ none → i < n → errs i ≡ none
unfolding first_error
first_error-none zero i errs h lt = absurd (omega arith)
first_error-none (suc n) i errs h lt = elim (Option-cases (first_error n errs)) [
  | inr (e, failed) ↦
      let wrong : some e ≡ none = rw (failed, first_error) at h in absurd (ground (arith, wrong))
  | inl fine ↦
      let last : errs n ≡ none = rw (fine, first_error) at h in
      elim (Bool-cases (i == n)) [
        | inl here ↦ let e : i ≡ n = ground (arith, here) in rw e last
        | inr below ↦ first_error-none n i errs fine (ground (arith, below))
      ]
]

length-truncate : (n : ℕ) (f : Bytes) → length (truncate n f) ≡ n
unfolding truncate
length-truncate n f = omega (
  arith,
  length-append (take n f) (replicate (n - length f) 0),
  length-take n f,
  length-replicate {A = ℕ} (n - length f) 0,
)

-- A parallel download that returns no error leaves exactly the file of the server, in whatever
-- order the connections write, and however often an answer breaks off; after an error there is what
-- a download goes on from.
pub download_parallel-OnDisk :
    (D : Bytes) (lines : ℕ → Line) (schedule : List ℕ) (opens truncates : Bool) (conns : ℕ)
    (file : Option Bytes)
    → 0 < conns
    → ((i : ℕ) → HonestLine D (lines i))
    → ((i : ℕ)
        → i < conns
        → left_over schedule (λ j. (connection lines (length D) conns j).0) i ≡ [])
    → Kept D file
    → OnDisk D (download_parallel lines schedule opens truncates (length D) conns file)
unfolding download_parallel
download_parallel-OnDisk D lines schedule false truncates conns file pos_conns honest all_made
      kept =
    kept
download_parallel-OnDisk D lines schedule true false conns file pos_conns honest all_made kept =
    Left-content D file kept
download_parallel-OnDisk D lines schedule true true zero file pos_conns honest all_made kept =
    absurd (omega arith)
download_parallel-OnDisk D lines schedule true true (suc c) file pos_conns honest all_made kept =
    settled (first_error (suc c) (λ i. (connection lines (length D) (suc c) i).1)) refl
  where
    f0 : Bytes
    f0 = truncate (length D) (content file)

    writes : ℕ → List Write
    writes j = (connection lines (length D) (suc c) j).0

    played :
        (length (play schedule writes f0) ≡ length D)
        × ((j : ℕ) → Coming D (suc c) writes f0 j → Right D (play schedule writes f0) j)
    played =
        play-Right D (suc c) schedule writes f0 (length-truncate (length D) (content file))
          (λ i. (connection-Done D lines (suc c) i (honest i)).0) all_made

    settled :
        (e : Option Error)
        → first_error (suc c) (λ i. (connection lines (length D) (suc c) i).1) ≡ e
        → OnDisk D (some (play schedule writes f0), e)
    settled (some e) h = inr played.0
    settled none h = ap some (
        all_Right D (play schedule writes f0) played.0 (λ j lt.
          let (i, below, a, b) = chunks_cover (length D) c j lt in
          played.1 j (
            inr (
              i,
              below,
              (connection-Done D lines (suc c) i (honest i)).1
                  (first_error-none (suc c) i (λ k. (connection lines (length D) (suc c) k).1) h
                    below)
                  j a b,
            ))))
