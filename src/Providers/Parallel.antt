-- ===== src/Providers/Parallel.antt =====
-- The download over several connections, from shared/providers/parallel.go. A connection runs
-- `fetchChunk` and does not read the file, so it is the list of its writes; the schedule says which
-- connection writes next. The answers are arguments, by the connection, the attempt and the first
-- byte asked for. A request can be made, since the one of the probe could. The reports of progress
-- and the pauses are left out.
use torrin.Prelude.{
  ℕ, zero, suc, ◌+◌, ◌-◌, ◌*◌, ◌/◌, Bool, true, false, Option, none, some, List, [], ◌∷◌, ◌++◌,
  length, take, replicate, if◌then◌else◌, leb, ◌==◌,
}
use torrin.Prelude.Family.{update}
use torrin.Prelude.Parts.{Bytes}
use torrin.Providers.Body.{
  Error, ctx_done, refused, bad_status, short_chunk, open_failed, truncate_failed, Write, write_at,
  copy_chunk_at,
}
use torrin.Providers.Download.{Response, content}

abbrev pub chunk_attempts : ℕ
chunk_attempts = 6

-- What a connection meets: answers, and the ends of the context before and after an attempt.
pub record Line : Type 0 where
  pub answer : ℕ → ℕ → Option Response
  pub cancelled : ℕ → Bool
  pub cancelled_after : ℕ → Bool

unfoldable pub with_writes : List Write → List Write × Option Error → List Write × Option Error
with_writes ws (rest, e) = (ws ++ rest, e)

abbrev pub or_short : Option Error → Error
or_short none = short_chunk
or_short (some e) = e

-- What follows on a copy of `n` bytes to `p`: `stop` is the byte behind the chunk.
unfoldable pub after_chunk :
    (ℕ → Option Error → List Write × Option Error)
    → ℕ
    → ℕ
    → Bool
    → List Write × ℕ × Option Error
    → List Write × Option Error
unfolding with_writes
after_chunk again stop p cancelled (ws, n, e) = elim (leb stop (p + n)) [
  | true ↦ (ws, none)
  | false ↦ elim cancelled [
    | true ↦ (ws, some ctx_done)
    | false ↦ with_writes ws (again (p + n) (some (or_short e)))
  ]
]

-- The loop of `fetchChunk` from the byte `p` on; `stop` is `end + 1`.
unfoldable pub chunk_loop : Line → ℕ → ℕ → ℕ → ℕ → Option Error → List Write × Option Error
unfolding copy_chunk_at after_chunk
chunk_loop line stop zero k p last = ([], last)
chunk_loop line stop (suc n) k p last = elim (line.cancelled k) [
  | true ↦ ([], some ctx_done)
  | false ↦ elim (leb stop p) [
    | true ↦ ([], none)
    | false ↦ elim (line.answer k p) [
      | none ↦ chunk_loop line stop n (k + 1) p (some refused)
      | some r ↦ elim (r.status == 206) [
        | false ↦ chunk_loop line stop n (k + 1) p (some bad_status)
        | true ↦
            after_chunk (chunk_loop line stop n (k + 1)) stop p (line.cancelled_after k)
              (copy_chunk_at r.body p 0)
      ]
    ]
  ]
]

unfoldable pub fetch_chunk : Line → ℕ → ℕ → List Write × Option Error
unfolding chunk_loop
fetch_chunk line start stop = chunk_loop line stop chunk_attempts 0 start none

-- Where the chunk of connection `i` begins, and the byte behind it.
abbrev pub chunk_start : ℕ → ℕ → ℕ → ℕ
chunk_start total conns i = i * (total / conns)

unfoldable pub chunk_stop : ℕ → ℕ → ℕ → ℕ
chunk_stop total conns i =
    if i + 1 == conns then total else chunk_start total conns i + total / conns

-- A connection with no bytes to fetch is not started.
unfoldable pub connection : (ℕ → Line) → ℕ → ℕ → ℕ → List Write × Option Error
unfolding fetch_chunk chunk_stop
connection lines total conns i = elim (leb (chunk_stop total conns i) (chunk_start total conns i)) [
  | true ↦ ([], none)
  | false ↦ fetch_chunk (lines i) (chunk_start total conns i) (chunk_stop total conns i)
]

-- The writes in the order of a schedule: the connection named next makes its next write.
unfoldable pub play : List ℕ → (ℕ → List Write) → Bytes → Bytes
unfolding write_at
play [] pending f = f
play (i ∷ is) pending f = elim (pending i) [
  | [] ↦ play is pending f
  | (p, bs) ∷ ws ↦ play is (update pending i ws) (write_at p bs f)
]

-- The first error of the connections below `n`.
unfoldable pub first_error : ℕ → (ℕ → Option Error) → Option Error
first_error zero errs = none
first_error (suc n) errs = elim (first_error n errs) [ some e ↦ some e | none ↦ errs n ]

-- `f.Truncate`: the file cut, or made longer with zeros.
unfoldable pub truncate : ℕ → Bytes → Bytes
truncate n f = take n f ++ replicate (n - length f) 0

unfoldable pub download_parallel :
    (ℕ → Line)
    → List ℕ
    → (opens truncates : Bool) → ℕ
    → ℕ
    → Option Bytes
    → Option Bytes × Option Error
unfolding connection play first_error truncate
download_parallel lines schedule opens truncates total conns file =
    let old = content file in
    elim opens [
      | false ↦ (file, some open_failed)
      | true ↦ elim truncates [
        | false ↦ (some old, some truncate_failed)
        | true ↦
            let run = connection lines total conns in
            (
              some (play schedule (λ i. (run i).0) (truncate total old)),
              first_error conns (λ i. (run i).1),
            )
      ]
    ]
