-- ===== src/Providers/Tests.antt =====
-- A file of five bytes from servers that break answers off.
use torrin.Prelude.{
  ℕ, zero, suc, ◌+◌, ◌<◌, ◌≡◌, refl, ap, sym, ◌∙◌, inl, inr, true, false, Option, none, some, List,
  [], ◌∷◌, ◌++◌, take, drop, take-append-drop, if◌then◌else◌, ltb, Bool-cases, arith,
}
use mathlib.Core.List.{append-nil}
use mathlib.Core.Path.{subst}
use torrin.Prelude.Text.{bytes, trim_space}
use torrin.Prelude.Parse.{parse_int}
use torrin.Prelude.Parts.{Bytes}
use torrin.Providers.Body.{Turn, reads, breaks}
use torrin.Providers.Download.{
  Response, Server, Env, total_from_content_range, parse_refused, after_slash, download,
}
use torrin.Providers.Served.{Prefix, body_bytes, Honest}
use torrin.Providers.Resumed.{OnDisk}
use torrin.Providers.Parallel.{Line, connection, download_parallel}
use torrin.Providers.Writes.{left_over}
use torrin.Providers.Chunks.{HonestLine}
use torrin.Providers.Cover.{download_parallel-OnDisk}
use torrin.Providers.Fetch.{
  World, Disk, Serving, Fetched, fetch_file, fetch_to_part, probe_range, fetch_file-Fetched,
}
use torrin.Providers.Retries.{download-retries}

abbrev file : Bytes
file = 10 ∷ 20 ∷ 30 ∷ 40 ∷ 50 ∷ []

range_header : total_from_content_range (bytes "bytes 2-4/5") ≡ 5
unfolding total_from_content_range after_slash trim_space parse_int
range_header = refl

unknown_size : total_from_content_range (bytes "bytes 2-4/*") ≡ 0
unfolding total_from_content_range after_slash trim_space parse_int parse_refused
unknown_size = refl

no_prefix_lost : (m : ℕ) (xs : Bytes) → Prefix (take m xs ++ []) xs
no_prefix_lost m xs = (drop m xs, rw (append-nil (take m xs)) (take-append-drop m xs))

-- The first answer breaks off behind one byte, a later one gives some more.
abbrev some_bytes : ℕ → ℕ → List Turn
some_bytes zero off = reads (take 1 (drop off file)) none false ∷ breaks ∷ []
some_bytes (suc k) off = reads (take (k + 2) (drop off file)) none false ∷ []

abbrev partly : ℕ → ℕ → Response
partly k off = record {
  status = 206;
  content_length = 0;
  content_range = bytes "bytes 2-4/5";
  body = some_bytes k off;
}

partly-Prefix : (k off : ℕ) → Prefix (body_bytes (some_bytes k off)) (drop off file)
partly-Prefix zero off = no_prefix_lost 1 (drop off file)
partly-Prefix (suc k) off = no_prefix_lost (k + 2) (drop off file)

abbrev given : Option Response → Response → Response
given none d = d
given (some r) d = r

-- Two connections, which write in turns.
abbrev line : Line
line = record {
  answer = λ k p. some (partly k p);
  cancelled = λ k. false;
  cancelled_after = λ k. false;
}

line-HonestLine : HonestLine file line
line-HonestLine k p r e ok_status =
    let same_response : partly k p ≡ r = ap (λ o. given o r) e in
    subst (λ x. Prefix (body_bytes x.body) (drop p file)) same_response (partly-Prefix k p)

abbrev turns : List ℕ
turns = 1 ∷ 0 ∷ 0 ∷ 1 ∷ []

turns_enough : (i : ℕ) → i < 2 → left_over turns (λ j. (connection (λ n. line) 5 2 j).0) i ≡ []
unfolding left_over connection
turns_enough zero h = refl
turns_enough (suc zero) h = refl
turns_enough (suc (suc i)) h = absurd (omega (arith, h))

two_connections :
    download_parallel (λ n. line) turns true true 5 2 (some (7 ∷ [])) ≡ (some file, none)
unfolding download_parallel connection
two_connections = refl

download_parallel-OnDisk_example :
    OnDisk file (download_parallel (λ n. line) turns true true 5 2 (some (10 ∷ [])))
download_parallel-OnDisk_example =
    download_parallel-OnDisk file (λ n. line) turns true true 2 (some (10 ∷ [])) (omega arith)
      (λ n. line-HonestLine) turns_enough (inl (20 ∷ 30 ∷ 40 ∷ 50 ∷ [], refl))

-- One connection that goes on from two bytes.
abbrev server : Server
server k off = if ltb off 5 then some (partly k off) else none

-- An answer of the server is the one for its offset, which is in the file.
server_answer : (k off : ℕ) (r : Response) → server k off ≡ some r → (off < 5) × (partly k off ≡ r)
server_answer k off r e = elim (Bool-cases (ltb off 5)) [
  | inl inside ↦ (
    ground (arith, inside),
    let e' : some (partly k off) ≡ some r = rw inside at e in ap (λ o. given o r) e',
  )
  | inr outside ↦ let e' : none ≡ some r = rw outside at e in absurd (ground (arith, e'))
]

server-Honest : Honest file server
server-Honest = record {
  partial_content = λ k off r e s.
      let (lt, same_response) = server_answer k off r e in
      (
        lt,
        subst (λ x. Prefix (body_bytes x.body) (drop off file)) same_response (partly-Prefix k off),
        inl (sym (ap (λ x. total_from_content_range x.content_range) same_response) ∙ range_header),
      );
  whole_content = λ k off r e s.
      let (lt, same_response) = server_answer k off r e in
      let wrong : 206 ≡ 200 = ap (λ x. x.status) same_response ∙ s in
      absurd (ground (arith, wrong));
}

abbrev quiet_env : Env
quiet_env = record {
  cancelled = λ k. false;
  seek_fails = λ k. false;
  truncate_fails = λ k. false;
  cancelled_after = false;
  remove_fails = false;
}

abbrev world : World
world = record {
  conns = 1;
  probe = none;
  lines = λ i. record { answer = λ k p. none; cancelled = λ k. true; cancelled_after = λ k. false };
  schedule = [];
  opens = true;
  truncates = true;
  over = false;
  remove_fails = false;
  env = quiet_env;
  server = server;
  open_fails = false;
  rename_fails = false;
}

abbrev disk : Disk
disk = record { part = some (10 ∷ 20 ∷ []); target = none }

fetched : fetch_file world disk ≡ (record { part = none; target = some file }, none)
unfolding fetch_file fetch_to_part
fetched = refl

none_probed : (total : ℕ) → probe_range none ≡ some total → total ≡ 5
unfolding probe_range
none_probed total e = absurd (ground (arith, e))

none_made : (i : ℕ) → i < 1 → left_over [] (λ j. (connection world.lines 5 1 j).0) i ≡ []
unfolding left_over connection
none_made zero h = refl
none_made (suc i) h = absurd (omega (arith, h))

world-Serving : Serving file world
world-Serving = record {
  honest = server-Honest;
  honest_lines = λ i k p r e s. absurd (ground (arith, e));
  probed = none_probed;
  all_made = none_made;
}

fetch_file-Fetched_example : Fetched file disk (fetch_file world disk)
fetch_file-Fetched_example =
    fetch_file-Fetched file world disk world-Serving (inl (30 ∷ 40 ∷ 50 ∷ [], refl))

-- Two attempts without an answer.
abbrev whole_response : Response
whole_response = record {
  status = 200;
  content_length = 5;
  content_range = [];
  body = reads (10 ∷ 20 ∷ []) none false ∷ reads (30 ∷ 40 ∷ 50 ∷ []) none false ∷ [];
}

abbrev late_server : Server
late_server k off = if ltb k 2 then none else some whole_response

download-retries_example : download quiet_env late_server false none ≡ (some file, none)
download-retries_example =
    download-retries quiet_env late_server whole_response (λ k. refl) refl tt refl 2 (omega arith)
      (λ j lt. ground (arith, lt)) refl
