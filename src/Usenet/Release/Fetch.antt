-- ===== src/Usenet/Release/Fetch.antt =====
-- The fetch of `NewFileReaderAt`: an article from the servers, decoded.
use torrin.Prelude.{ℕ, List, ok, err}
use torrin.Prelude.Int.{pos_part}
use torrin.Prelude.Text.{Text}
use torrin.Usenet.Yenc.Decode.{decode}
use torrin.Usenet.Reader.Machine.{Answer, article, no_article, no_answer, Net}

-- What `fetchSegment` returns: the article, or an error, of which some say that no server has it.
pub data Fetched : Type 0 where
  raw : Text → Fetched
  missing failed : Fetched

-- A `Begin` below 1 is read as 0, as `fetchSeg` does.
unfoldable pub fetch_decoded : (Text → ℕ) → Fetched → Answer
fetch_decoded crc32 (raw data_of) = elim (decode crc32 data_of) [
  | ok r ↦ article (pos_part r.begin) r.content
  | err e ↦ no_answer
]
fetch_decoded crc32 missing = no_article
fetch_decoded crc32 failed = no_answer

-- The reader's servers, with the prefetches that end before a call.
abbrev pub new_net : (Text → ℕ) → (ℕ → ℕ → Fetched) → (ℕ → List ℕ) → Net
new_net crc32 servers prefetched = record {
  fetch = λ t i. fetch_decoded crc32 (servers t i);
  prefetched = prefetched;
}
