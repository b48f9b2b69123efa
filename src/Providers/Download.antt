-- ===== src/Providers/Download.antt =====
-- The download over one connection, from shared/providers/download.go. What the server answers, and
-- whether a call of the file system fails, are arguments, by the number of the attempt. The pauses
-- between attempts and the reports of progress are left out.
use torrin.Prelude.{
  ℕ, zero, suc, ◌+◌, ◌-◌, ◌^◌, Bool, true, false, not, ◌&&◌, ◌||◌, Option, none, some, List, [],
  ◌∷◌, length, if◌then◌else◌, ltb, ◌==◌,
}
use torrin.Prelude.Int.{pos_part}
use torrin.Prelude.Text.{Text, trim_space}
use torrin.Prelude.Parse.{parse_digits, parse_int}
use torrin.Prelude.Parts.{Bytes}
use torrin.Providers.Body.{
  Error, ctx_done, refused, seek_failed, truncate_failed, truncated, exhausted, open_failed, Turn,
  copy_body,
}

abbrev pub max_download_attempts : ℕ
max_download_attempts = 6

-- `ContentLength` is 0 here where it is not known.
pub record Response : Type 0 where
  pub status : ℕ
  pub content_length : ℕ
  pub content_range : Text
  pub body : List Turn

-- What stands behind the last `/`.
unfoldable pub after_slash : Text → Option Text
after_slash [] = none
after_slash (c ∷ s) = elim (after_slash s) [
  | some t ↦ some t
  | none ↦ if c == b'/' then some s else none
]

-- What ParseInt gives beside its error: the largest number where there are too many digits, and 0
-- for what is no number; the smallest, which is below 0, counts as 0.
unfoldable pub parse_refused : Text → ℕ
unfolding parse_digits
parse_refused [] = 0
parse_refused (c ∷ s) = elim (parse_digits (if c == b'+' then s else c ∷ s)) [
  | none ↦ 0
  | some n ↦ 2 ^ 63 - 1
]

-- The number at the end of a Content-Range. One below 0 counts as 0, as it does for the callers.
unfoldable pub total_from_content_range : Text → ℕ
unfolding after_slash parse_int parse_refused trim_space
total_from_content_range cr = elim (after_slash cr) [
  | none ↦ 0
  | some s ↦ if length s == 0 then 0 else elim (parse_int (trim_space s)) [
    | none ↦ parse_refused (trim_space s)
    | some n ↦ pos_part n
  ]
]

-- What the opener gives: the body, the size of the file or 0, and whether it begins again.
pub data Opened : Type 0 where
  failed : Opened
  opened : List Turn → ℕ → Bool → Opened

-- What stands for a call of the server, by the attempt and the offset asked for.
abbrev pub Server : Type 0
Server = ℕ → ℕ → Option Response

-- `HTTPRange`: what the opener makes of the answer for an offset.
unfoldable pub http_range : ℕ → Option Response → Opened
unfolding total_from_content_range
http_range offset none = failed
http_range offset (some r) =
    if not (r.status == 200) && not (r.status == 206)
    then failed
    else opened r.body
        (if r.status == 206 then total_from_content_range r.content_range else r.content_length)
        (ltb 0 offset && r.status == 200)

-- What the attempts meet beside the server.
pub record Env : Type 0 where
  pub cancelled : ℕ → Bool
  pub seek_fails : ℕ → Bool
  pub truncate_fails : ℕ → Bool
  pub cancelled_after : Bool
  pub remove_fails : Bool

abbrev pub Attempt : Type 0
Attempt = Bytes → ℕ → ℕ → Option Error → Bytes × Option Error

-- The end of an attempt: what the copy gave.
unfoldable pub after_copy : Attempt → ℕ → Bytes × ℕ × Option Error × Bool → Bytes × Option Error
after_copy again total (f, n, e, true) = (f, e)
after_copy again total (f, n, some e, false) = again f n total (some e)
after_copy again total (f, n, none, false) = elim (ltb 0 total && ltb n total) [
  | true ↦ again f n total (some truncated)
  | false ↦ (f, none)
]

unfoldable pub with_body : Env → ℕ → Attempt → List Turn → ℕ → Bool → Attempt
unfolding copy_body after_copy
with_body env k again body sz full f w total last =
    let t = if ltb 0 sz then sz else total in
    elim (ltb 0 w) [
      | false ↦ after_copy again t (copy_body body f w)
      | true ↦ elim (env.seek_fails k) [
        | true ↦ (f, some seek_failed)
        | false ↦ elim full [
          | false ↦ after_copy again t (copy_body body f w)
          | true ↦ elim (env.truncate_fails k) [
            | true ↦ (f, some truncate_failed)
            | false ↦ after_copy again t (copy_body body [] 0)
          ]
        ]
      ]
    ]

unfoldable pub attempts : Env → Server → ℕ → ℕ → Attempt
unfolding http_range with_body
attempts env server zero k f w total none = (f, some exhausted)
attempts env server zero k f w total (some e) = (f, some e)
attempts env server (suc n) k f w total last = elim (env.cancelled k) [
  | true ↦ (f, some ctx_done)
  | false ↦ elim (http_range w (server k w)) [
    | failed ↦ attempts env server n (k + 1) f w total (some refused)
    | opened body sz full ↦
        with_body env k (attempts env server n (k + 1)) body sz full f w total last
  ]
]

-- `resilient`, on a file that is open: its size is where the download goes on.
unfoldable pub resilient : Env → Server → Bytes → Bytes × Option Error
unfolding attempts
resilient env server f = attempts env server max_download_attempts 0 f (length f) 0 none

abbrev pub content : Option Bytes → Bytes
content none = []
content (some f) = f

-- `Download`: the file after it, and the error.
unfoldable pub download : Env → Server → Bool → Option Bytes → Option Bytes × Option Error
unfolding resilient
download env server open_fails file = elim open_fails [
  | true ↦ (file, some open_failed)
  | false ↦
      let (f, e) = resilient env server (content file) in
      elim e [
        | none ↦ (some f, none)
        | some e' ↦ (if env.cancelled_after || env.remove_fails then some f else none, some e')
      ]
]
