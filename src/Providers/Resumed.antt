-- ===== src/Providers/Resumed.antt =====
-- A download that goes on from what an earlier one left, against the file that the server has.
use torrin.Prelude.{
  ℕ, zero, suc, ◌+◌, ◌≤◌, ◌<◌, ◌≡◌, refl, sym, ap, ◌∙◌, ◌⊎◌, inl, inr, Bool, true, false, ◌&&◌,
  ◌||◌, Option, none, some, List, [], ◌∷◌, ◌++◌, length, drop, if◌then◌else◌, ltb, ◌==◌,
  length-append, Bool-cases, Option-cases, arith,
}
use mathlib.Core.List.{append-nil, append_assoc}
use torrin.Prelude.Parts.{Bytes}
use torrin.Providers.Body.{Error, refused, truncated, Turn, copy_body}
use torrin.Providers.Download.{
  max_download_attempts, Response, Server, Env, Attempt, Opened, failed, opened, after_copy,
  with_body, attempts, resilient, download, http_range, content,
}
use torrin.Providers.Served.{Prefix, body_bytes, Sized, Honest, Copied, copy_body-Copied}

-- What an earlier download can leave: the first bytes of the file, or a file of its size with holes.
abbrev pub Left : Bytes → Bytes → Type 0
Left D f = Prefix f D ⊎ (length f ≡ length D)

-- Without an error the file is there; with one, something to go on from.
abbrev pub Outcome : Bytes → Bytes × Option Error → Type 0
Outcome D (f, none) = f ≡ D
Outcome D (f, some e) = Left D f

pub prefix_full : (D f : Bytes) → Prefix f D → length D ≤ length f → f ≡ D
prefix_full D f ([], e) h = sym (append-nil f) ∙ e
prefix_full D f (x ∷ rest, e) h = absurd (omega (arith, ap length e, length-append f (x ∷ rest)))

module _ (D : Bytes) where
  abbrev KnownSize : ℕ → Type 0
  KnownSize total = (total ≡ 0) ⊎ (total ≡ length D)

  abbrev GoesOn : Attempt → Type 0
  GoesOn again =
      (f : Bytes) (total : ℕ) (last : Option Error)
      → Left D f
      → KnownSize total
      → Outcome D (again f (length f) total last)

  size_after :
      (sz total : ℕ) (body : List Turn) (asked : Bytes)
      → Sized D sz body asked
      → KnownSize total
      → Sized D (if ltb 0 sz then sz else total) body asked
  size_after sz total body asked (inl e) (inl z) = inl (ground arith)
  size_after sz total body asked (inl e) (inr z) = inl (ground arith)
  size_after sz total body asked (inr (e, w)) (inl z) = inr (ground arith, w)
  size_after sz total body asked (inr (e, w)) (inr z) = inl (ground arith)

  known : (t : ℕ) (body : List Turn) (asked : Bytes) → Sized D t body asked → KnownSize t
  known t body asked (inl e) = inr e
  known t body asked (inr (e, w)) = inl e

  longer : (f p b asked : Bytes) → f ++ asked ≡ D → Prefix p b → Prefix b asked → Prefix (f ++ p) D
  longer f p b asked e (r, u) (s, v) = (
    r ++ s,
    append_assoc f p (r ++ s) ∙ ap (f ++◌) (sym (append_assoc p r s) ∙ ap (◌++ s) u ∙ v) ∙ e,
  )

  after_copy-Outcome :
      (again : Attempt) (t : ℕ) (body : List Turn) (f asked : Bytes)
      (c : Bytes × ℕ × Option Error × Bool)
      → GoesOn again
      → f ++ asked ≡ D
      → Prefix (body_bytes body) asked
      → Sized D t body asked
      → Copied body f c
      → Outcome D (after_copy again t c)
  unfolding after_copy
  after_copy-Outcome again t body f asked (f', n, some e, true) ih h b sized (p, u, v, num, all) =
      inl (rw v (longer f p (body_bytes body) asked h u b))
  after_copy-Outcome again t body f asked (f', n, none, true) ih h b sized (p, u, v, num, all) =
      absurd (ground (arith, (all refl).2))
  after_copy-Outcome again t body f asked (f', n, some e, false) ih h b sized (p, u, v, num, all) =
      rw (num refl) (
        ih f' t (some e) (inl (rw v (longer f p (body_bytes body) asked h u b)))
          (known t body asked sized))
  after_copy-Outcome again t body f asked (f', n, none, false) ih h b sized (p, u, v, num, all) =
      elim (Bool-cases (ltb 0 t && ltb n t)) [
        | inl short ↦
            rw (short, num refl, after_copy)
              (ih f' t (some truncated) (inl (rw v (longer f p (body_bytes body) asked h u b)))
                (known t body asked sized))
        | inr done ↦ rw (done, after_copy) (whole_now done sized)
      ]
    where
      pre : Prefix f' D
      pre = rw v (longer f p (body_bytes body) asked h u b)

      whole_now : (ltb 0 t && ltb n t) ≡ false → Sized D t body asked → f' ≡ D
      whole_now done (inl e) = prefix_full D f' pre (ground (arith, num refl, done))
      whole_now done (inr (e, w)) = v ∙ ap (f ++◌) ((all refl).0 ∙ w (all refl).1) ∙ h

  -- What an opened body offers: the file again, or what is behind the offset.
  abbrev Offered : ℕ → Opened → Type 0
  Offered off failed = Unit
  Offered off (opened body sz true) = (0 < off) × Prefix (body_bytes body) D × Sized D sz body D
  Offered off (opened body sz false) =
      Prefix (body_bytes body) (drop off D)
      × Sized D sz body (drop off D)
      × ((off ≡ 0) ⊎ (off < length D))

  answer-Offered :
      (server : Server) (k off : ℕ) (r : Response)
      → Honest D server
      → server k off ≡ some r
      → Offered off (http_range off (some r))
  unfolding http_range
  answer-Offered server k off r honest got = elim (Bool-cases (r.status == 206)) [
    | inl partly ↦
        let (lt, pre, sized) = honest.partial_content k off r got (ground (arith, partly)) in
        let z : (r.status == 200) ≡ false = ground (arith, partly) in
        let n : (ltb 0 off && false) ≡ false = ground arith in
        rw (z, partly, n, http_range) (pre, sized, inr lt)
    | inr no_part ↦ elim (Bool-cases (r.status == 200)) [
      | inr other ↦ rw (other, no_part, http_range) tt
      | inl all ↦
          let (pre, sized) = honest.whole_content k off r got (ground (arith, all)) in
          elim (Bool-cases (ltb 0 off)) [
            | inl behind ↦
                rw (all, no_part, behind, http_range) (ground (arith, behind), pre, sized)
            | inr begins ↦
                let z : off ≡ 0 = ground (arith, begins) in
                let d : drop off D ≡ D = rw z refl in
                rw (all, no_part, begins, http_range, d) (pre, sized, inl z)
          ]
    ]
  ]

  http_range-Offered :
      (server : Server) (k off : ℕ) → Honest D server → Offered off (http_range off (server k off))
  unfolding http_range
  http_range-Offered server k off honest = elim (Option-cases (server k off)) [
    | inl none_there ↦ rw (none_there, http_range) tt
    | inr (r, got) ↦ rw got (answer-Offered server k off r honest got)
  ]

  rest_of :
      (f : Bytes) → Left D f → (length f ≡ 0) ⊎ (length f < length D) → f ++ drop (length f) D ≡ D
  rest_of [] left h = refl
  rest_of (x ∷ f) (inr e) (inl h) = absurd (omega arith)
  rest_of (x ∷ f) (inr e) (inr h) = absurd (omega (arith, e))
  rest_of (x ∷ f) (inl (rest, e)) h = rw (← e) (ap ((x ∷ f) ++◌) (drop_length f rest))
    where
      drop_length : (g r : Bytes) → drop (length g) (g ++ r) ≡ r
      drop_length [] r = refl
      drop_length (y ∷ g) r = drop_length g r

  on_from :
      (again : Attempt) (t : ℕ) (body : List Turn) (f : Bytes)
      → GoesOn again
      → Left D f
      → Prefix (body_bytes body) (drop (length f) D)
      → Sized D t body (drop (length f) D)
      → (length f ≡ 0) ⊎ (length f < length D)
      → Outcome D (after_copy again t (copy_body body f (length f)))
  on_from again t body f ih left pre sized h =
      after_copy-Outcome again t body f (drop (length f) D) (copy_body body f (length f)) ih
        (rest_of f left h) pre sized (copy_body-Copied body f (length f) refl)

  -- One attempt with a body that goes on from the file, or begins it again.
  with_body-Outcome :
      (env : Env) (k : ℕ) (again : Attempt) (body : List Turn) (sz : ℕ) (full : Bool) (f : Bytes)
      (total : ℕ) (last : Option Error)
      → GoesOn again
      → Left D f
      → KnownSize total
      → Offered (length f) (opened body sz full)
      → Outcome D (with_body env k again body sz full f (length f) total last)
  unfolding with_body
  with_body-Outcome env k again body sz false f total last ih left known_total (pre, sized, h) =
      let t = if ltb 0 sz then sz else total in
      let go : Outcome D (after_copy again t (copy_body body f (length f))) =
        on_from again t body f ih left pre
          (size_after sz total body (drop (length f) D) sized known_total) h in
      elim (Bool-cases (ltb 0 (length f))) [
        | inr new ↦ rw (new, with_body) go
        | inl later ↦ elim (Bool-cases (env.seek_fails k)) [
          | inl stuck ↦ rw (later, stuck, with_body) left
          | inr fine ↦ rw (later, fine, with_body) go
        ]
      ]
  with_body-Outcome env k again body sz true f total last ih left known_total
        (pos_size, pre, sized) =
      let t = if ltb 0 sz then sz else total in
      let later : ltb 0 (length f) ≡ true = ground (arith, pos_size) in
      let go : Outcome D (after_copy again t (copy_body body [] 0)) =
        after_copy-Outcome again t body [] D (copy_body body [] 0) ih refl pre
          (size_after sz total body D sized known_total) (copy_body-Copied body [] 0 refl) in
      elim (Bool-cases (env.seek_fails k)) [
        | inl stuck ↦ rw (later, stuck, with_body) left
        | inr fine ↦ elim (Bool-cases (env.truncate_fails k)) [
          | inl kept ↦ rw (later, fine, kept, with_body) left
          | inr cut ↦ rw (later, fine, cut, with_body) go
        ]
      ]

  attempts-Outcome :
      (env : Env) (server : Server) (n k : ℕ) → Honest D server → GoesOn (attempts env server n k)
  unfolding attempts
  attempts-Outcome env server zero k honest f total none left known_total = left
  attempts-Outcome env server zero k honest f total (some last) left known_total = left
  attempts-Outcome env server (suc n) k honest f total last left known_total =
      elim (Bool-cases (env.cancelled k)) [
        | inl over ↦ rw (over, attempts) left
        | inr on ↦
            rw (on, attempts)
              (turn (attempts-Outcome env server n (k + 1) honest)
                (http_range (length f) (server k (length f)))
                (http_range-Offered server k (length f) honest))
      ]
    where
      turn :
          GoesOn (attempts env server n (k + 1))
          → (o : Opened) → Offered (length f) o
          → Outcome D (elim o [
            | failed ↦ attempts env server n (k + 1) f (length f) total (some refused)
            | opened body sz full ↦
                with_body env k (attempts env server n (k + 1)) body sz full f (length f) total last
          ])
      turn ih failed h = ih f total (some refused) left known_total
      turn ih (opened body sz full) h =
          with_body-Outcome env k (attempts env server n (k + 1)) body sz full f total last ih left
            known_total h

  -- The file after a download: whole without an error, else nothing or what can go on.
  abbrev pub Kept : Option Bytes → Type 0
  Kept none = Unit
  Kept (some f) = Left D f

  abbrev pub OnDisk : Option Bytes × Option Error → Type 0
  OnDisk (file, none) = file ≡ some D
  OnDisk (file, some e) = Kept file

  pub Left-content : (file : Option Bytes) → Kept file → Left D (content file)
  Left-content none h = inl (D, refl)
  Left-content (some f) h = h

  -- A download that returns no error leaves exactly the file of the server, however often it was
  -- broken off, resumed or begun again; after an error there is no file, or one that the next
  -- download goes on from.
  pub download-OnDisk :
      (env : Env) (server : Server) (open_fails : Bool) (file : Option Bytes)
      → Honest D server
      → Kept file
      → OnDisk (download env server open_fails file)
  unfolding download resilient
  download-OnDisk env server true file honest kept = kept
  download-OnDisk env server false file honest kept =
      settled
        (attempts env server max_download_attempts 0 (content file) (length (content file)) 0 none)
        (attempts-Outcome env server max_download_attempts 0 honest (content file) 0 none
          (Left-content file kept) (inl refl))
    where
      settled :
          (o : Bytes × Option Error)
          → Outcome D o
          → OnDisk (
              let (f, e) = o in
              elim e [
                | none ↦ (some f, none)
                | some e' ↦
                    (if env.cancelled_after || env.remove_fails then some f else none, some e')
              ])
      settled (f, none) h = ap some h
      settled (f, some e) h = elim (Bool-cases (env.cancelled_after || env.remove_fails)) [
        | inl over ↦ rw over h
        | inr on ↦ rw on tt
      ]
