-- ===== src/Providers/Body.antt =====
-- Bodies of answers, and the loops that copy them to a file: `copyBody` of
-- shared/providers/download.go and `copyChunkAt` of shared/providers/parallel.go.
use torrin.Prelude.{
  ℕ, zero, suc, ◌+◌, Bool, true, false, Option, none, some, List, [], ◌∷◌, length, take,
}
use torrin.Prelude.Parts.{Bytes}

pub data Error : Type 0 where
  ctx_done refused bad_status seek_failed truncate_failed write_failed wait_failed read_failed :
      Error
  truncated exhausted open_failed rename_failed short_chunk : Error

-- A turn of the loop: the context is over; `Read` fails; or it gives bytes, of which a write that
-- fails writes so many, and after which the limiter may refuse to wait. No turn more is io.EOF.
pub data Turn : Type 0 where
  cancelled breaks : Turn
  reads : Bytes → Option ℕ → Bool → Turn

-- `WriteAt`: bytes over those that are there, zeros between the end of the file and them.
unfoldable pub write_at : ℕ → Bytes → Bytes → Bytes
write_at p [] f = f
write_at zero (b ∷ bs) [] = b ∷ bs
write_at zero (b ∷ bs) (x ∷ f) = b ∷ write_at zero bs f
write_at (suc p) (b ∷ bs) [] = 0 ∷ write_at p (b ∷ bs) []
write_at (suc p) (b ∷ bs) (x ∷ f) = x ∷ write_at p (b ∷ bs) f

-- The file, the position behind what was written, the error, and whether it ends the download.
unfoldable pub copy_body : List Turn → Bytes → ℕ → Bytes × ℕ × Option Error × Bool
unfolding write_at
copy_body [] f w = (f, w, none, false)
copy_body (cancelled ∷ ts) f w = (f, w, some ctx_done, true)
copy_body (breaks ∷ ts) f w = (f, w, some read_failed, false)
copy_body (reads [] fails wait_fails ∷ ts) f w = copy_body ts f w
copy_body (reads (b ∷ bs) (some k) wait_fails ∷ ts) f w =
    (write_at w (take k (b ∷ bs)) f, w, some write_failed, true)
copy_body (reads (b ∷ bs) none true ∷ ts) f w =
    (write_at w (b ∷ bs) f, w + length (b ∷ bs), some wait_failed, true)
copy_body (reads (b ∷ bs) none false ∷ ts) f w =
    copy_body ts (write_at w (b ∷ bs) f) (w + length (b ∷ bs))

-- A write at a position. What `copyChunkAt` does to the file is the list of them.
abbrev pub Write : Type 0
Write = ℕ × Bytes

-- The writes, how many bytes were written, and the error.
unfoldable pub copy_chunk_at : List Turn → ℕ → ℕ → List Write × ℕ × Option Error
copy_chunk_at [] p w = ([], w, none)
copy_chunk_at (cancelled ∷ ts) p w = ([], w, some ctx_done)
copy_chunk_at (breaks ∷ ts) p w = ([], w, some read_failed)
copy_chunk_at (reads [] fails wait_fails ∷ ts) p w = copy_chunk_at ts p w
copy_chunk_at (reads (b ∷ bs) (some k) wait_fails ∷ ts) p w =
    ((p + w, take k (b ∷ bs)) ∷ [], w, some write_failed)
copy_chunk_at (reads (b ∷ bs) none true ∷ ts) p w =
    ((p + w, b ∷ bs) ∷ [], w + length (b ∷ bs), some wait_failed)
copy_chunk_at (reads (b ∷ bs) none false ∷ ts) p w =
    let (ws, n, e) = copy_chunk_at ts p (w + length (b ∷ bs)) in ((p + w, b ∷ bs) ∷ ws, n, e)
