-- ===== src/Providers/Fetch.antt =====
-- `FetchFile`: a download over one connection or several to a file beside the target, which takes
-- the target's name once it is whole. From shared/providers/parallel.go.
use torrin.Prelude.{
  ℕ, ◌*◌, ◌≡◌, ◌<◌, ◌^◌, refl, ap, inl, inr, Bool, true, false, Option, none, some, List, [],
  length, if◌then◌else◌, leb, ltb, ◌==◌, Bool-cases, Option-cases, arith,
}
use torrin.Prelude.Parts.{Bytes}
use torrin.Providers.Body.{Error, rename_failed}
use torrin.Providers.Download.{Response, Server, Env, total_from_content_range, download}
use torrin.Providers.Served.{Honest}
use torrin.Providers.Resumed.{Kept, OnDisk, download-OnDisk}
use torrin.Providers.Parallel.{Line, connection, download_parallel}
use torrin.Providers.Writes.{left_over}
use torrin.Providers.Chunks.{HonestLine}
use torrin.Providers.Cover.{download_parallel-OnDisk}

abbrev pub min_parallel_bytes : ℕ
min_parallel_bytes = 16 * 2 ^ 20

-- What a call meets: the number of connections, the answers and the failures of the file system.
-- `over` is the context after the parallel download.
pub record World : Type 0 where
  pub conns : ℕ
  pub probe : Option Response
  pub lines : ℕ → Line
  pub schedule : List ℕ
  pub opens : Bool
  pub truncates : Bool
  pub over : Bool
  pub remove_fails : Bool
  pub env : Env
  pub server : Server
  pub open_fails : Bool
  pub rename_fails : Bool

pub record Disk : Type 0 where
  pub part : Option Bytes
  pub target : Option Bytes

-- The size of the file, where the server answers with a part of it.
unfoldable pub probe_range : Option Response → Option ℕ
unfolding total_from_content_range
probe_range none = none
probe_range (some r) =
    if r.status == 206 then some (total_from_content_range r.content_range) else none

unfoldable pub one_connection : World → Option Bytes → Option Bytes × Option Error
unfolding download
one_connection w part = download w.env w.server w.open_fails part

unfoldable pub after_parallel : World → Option Bytes × Option Error → Option Bytes × Option Error
unfolding one_connection
after_parallel w (part, none) = (part, none)
after_parallel w (part, some e) = elim w.over [
  | true ↦ (part, some e)
  | false ↦ one_connection w (if w.remove_fails then part else none)
]

unfoldable pub fetch_to_part : World → Option Bytes → Option Bytes × Option Error
unfolding probe_range one_connection after_parallel download_parallel
fetch_to_part w part = elim (ltb 1 w.conns) [
  | false ↦ one_connection w part
  | true ↦ elim (probe_range w.probe) [
    | none ↦ one_connection w part
    | some total ↦ elim (leb min_parallel_bytes total) [
      | false ↦ one_connection w part
      | true ↦
          after_parallel w
            (download_parallel w.lines w.schedule w.opens w.truncates total w.conns part)
    ]
  ]
]

unfoldable pub renamed : World → Disk → Option Bytes × Option Error → Disk × Option Error
renamed w d (part, some e) = (record d { part = part }, some e)
renamed w d (part, none) = elim w.rename_fails [
  | true ↦ (record d { part = part }, some rename_failed)
  | false ↦ (record { part = none; target = part }, none)
]

unfoldable pub fetch_file : World → Disk → Disk × Option Error
unfolding fetch_to_part renamed
fetch_file w d = renamed w d (fetch_to_part w d.part)

-- The server has the file `D`, and the schedule lets every connection make all its writes.
pub record Serving (D : Bytes) (w : World) : Type 0 where
  pub honest : Honest D w.server
  pub honest_lines : (i : ℕ) → HonestLine D (w.lines i)
  pub probed : (total : ℕ) → probe_range w.probe ≡ some total → total ≡ length D
  pub all_made :
      (i : ℕ)
      → i < w.conns
      → left_over w.schedule (λ j. (connection w.lines (length D) w.conns j).0) i ≡ []

after_parallel-OnDisk :
    (D : Bytes) (w : World) (o : Option Bytes × Option Error)
    → Serving D w
    → OnDisk D o
    → OnDisk D (after_parallel w o)
unfolding after_parallel one_connection
after_parallel-OnDisk D w (part, none) s h = h
after_parallel-OnDisk D w (part, some e) s h = elim (Bool-cases w.over) [
  | inl over ↦ rw over h
  | inr on ↦ elim (Bool-cases w.remove_fails) [
    | inl stays ↦ rw (on, stays) (download-OnDisk D w.env w.server w.open_fails part s.honest h)
    | inr gone ↦ rw (on, gone) (download-OnDisk D w.env w.server w.open_fails none s.honest tt)
  ]
]

fetch_to_part-OnDisk :
    (D : Bytes) (w : World) (part : Option Bytes)
    → Serving D w
    → Kept D part
    → OnDisk D (fetch_to_part w part)
unfolding fetch_to_part one_connection
fetch_to_part-OnDisk D w part s kept =
    let single = download-OnDisk D w.env w.server w.open_fails part s.honest kept in
    elim (Bool-cases (ltb 1 w.conns)) [
      | inr one ↦ rw (one, fetch_to_part) single
      | inl several ↦ elim (Option-cases (probe_range w.probe)) [
        | inl no_ranges ↦ rw (several, no_ranges, fetch_to_part) single
        | inr (total, known) ↦ elim (Bool-cases (leb min_parallel_bytes total)) [
          | inr small ↦ rw (several, known, small, fetch_to_part) single
          | inl big ↦
              let size : total ≡ length D = s.probed total known in
              rw (several, known, big, fetch_to_part)
                (after_parallel-OnDisk D w
                  (download_parallel w.lines w.schedule w.opens w.truncates total w.conns part) s
                  (rw size (
                    download_parallel-OnDisk D w.lines w.schedule w.opens w.truncates w.conns part
                      (ground (arith, several)) s.honest_lines s.all_made kept)))
        ]
      ]
    ]

abbrev pub Fetched : Bytes → Disk → Disk × Option Error → Type 0
Fetched D d (d', none) = (d'.target ≡ some D) × Kept D d'.part
Fetched D d (d', some e) = (d'.target ≡ d.target) × Kept D d'.part

renamed-Fetched :
    (D : Bytes) (w : World) (d : Disk) (o : Option Bytes × Option Error)
    → OnDisk D o
    → Fetched D d (renamed w d o)
unfolding renamed
renamed-Fetched D w d (part, some e) h = (refl, h)
renamed-Fetched D w d (none, none) h = absurd (ground (arith, h))
renamed-Fetched D w d (some f, none) h = elim (Bool-cases w.rename_fails) [
  | inr fine ↦ rw fine (h, tt)
  | inl stays ↦ rw stays (refl, inr (ap length (ground (arith, h))))
]

-- A fetch that returns no error leaves exactly the file of the server under the target's name; one
-- that returns an error leaves what was there under that name, and beside it nothing but what the
-- next fetch can go on from.
pub fetch_file-Fetched :
    (D : Bytes) (w : World) (d : Disk) → Serving D w → Kept D d.part → Fetched D d (fetch_file w d)
unfolding fetch_file
fetch_file-Fetched D w d s kept =
    renamed-Fetched D w d (fetch_to_part w d.part) (fetch_to_part-OnDisk D w d.part s kept)
