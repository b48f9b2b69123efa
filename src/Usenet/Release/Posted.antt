-- ===== src/Usenet/Release/Posted.antt =====
-- A file that was posted in parts, read back.
use torrin.Prelude.{
  ℕ, zero, suc, ◌-◌, ◌<◌, ◌≡◌, refl, ap, sym, ◌∙◌, ◌⊎◌, Option, none, some, List, [], ◌∷◌, ◌++◌,
  map, length, get_or, take, drop, All, length-map, arith,
}
use torrin.Prelude.Int.{pos_part}
use torrin.Prelude.Parts.{Bytes, whole, offset, part}
use torrin.Prelude.Text.{Text, bytes}
use torrin.Usenet.Yenc.Lines.{sent, Unbroken}
use torrin.Usenet.Yenc.Decode.{wanted}
use torrin.Usenet.Yenc.RoundTrip.{Encoded, PartUnbroken, headers, decode-sent}
use torrin.Usenet.Yenc.RoundTrip
use torrin.Usenet.Reader.Machine.{article, new_reader_at, read_at}
use torrin.Usenet.Reader.Segments.{Serves}
use torrin.Usenet.Reader.Reads.{read_error, read_at-Genuine}
use torrin.Usenet.Release.Fetch.{Fetched, raw, fetch_decoded, new_net}

-- What a poster's encoder made of a part: the ends of its keyword lines, of which an article of a
-- whole file may lack that of the part, and the lines of data with the bytes that each encodes.
pub record Post : Type 0 where
  pub begin_line : Text
  pub part_line : Option Text
  pub end_line : Text
  pub lines : List Text
  pub pieces : List Text

abbrev pub no_post : Post
no_post = record { begin_line = []; part_line = none; end_line = []; lines = []; pieces = [] }

abbrev pub post_bytes : Post → Bytes
post_bytes x = whole x.pieces

abbrev pub post_article : Post → Text
post_article x = sent (RoundTrip.article x.begin_line x.part_line x.lines x.end_line)

-- The part of a file from an offset on, with no checksum or with its own. A header without a place
-- is one of the first part.
pub record WellPosted (crc32 : Text → ℕ) (off : ℕ) (x : Post) : Type 0 where
  pub begin_line_unbroken : Unbroken x.begin_line
  pub part_line_unbroken : PartUnbroken x.part_line
  pub end_line_unbroken : Unbroken x.end_line
  pub encoded : Encoded x.lines x.pieces
  pub begins : pos_part (headers x.begin_line x.part_line).begin - 1 ≡ off
  pub checksum :
      let r = record (headers x.begin_line x.part_line) { content = whole x.pieces } in
      (wanted (bytes "=yend " ++ x.end_line) r ≡ none)
      ⊎ (wanted (bytes "=yend " ++ x.end_line) r ≡ some (crc32 (whole x.pieces)))

fetch-posted :
    (crc32 : Text → ℕ) (off : ℕ) (x : Post)
    → WellPosted crc32 off x
    → fetch_decoded crc32 (raw (post_article x))
      ≡ article (pos_part (headers x.begin_line x.part_line).begin) (post_bytes x)
unfolding fetch_decoded
fetch-posted crc32 off x w =
    rw
      (
        decode-sent crc32 x.begin_line x.end_line x.lines x.pieces w.begin_line_unbroken
            w.end_line_unbroken w.encoded x.part_line w.part_line_unbroken w.checksum,
        fetch_decoded,
      )
      refl

part-map :
    (posts : List Post) (i : ℕ)
    → part (map post_bytes posts) i ≡ post_bytes (get_or posts i no_post)
part-map [] i = refl
part-map (x ∷ posts) zero = refl
part-map (x ∷ posts) (suc i) = part-map posts i

module _ (crc32 : Text → ℕ) (servers : ℕ → ℕ → Fetched) (prefetched : ℕ → List ℕ)
    (posts : List Post) where
  abbrev pub file_parts : List Bytes
  file_parts = map post_bytes posts

  -- The servers have every article of a file that was posted well.
  pub record Available : Type 0 where
    pub posted :
        (i : ℕ) → i < length posts → WellPosted crc32 (offset file_parts i) (get_or posts i no_post)
    pub has :
        (t i : ℕ) → i < length posts → servers t i ≡ raw (post_article (get_or posts i no_post))
    pub in_file : (t : ℕ) → All (λ i. i < length file_parts) (prefetched t)

  Available-Serves : Available → Serves (new_net crc32 servers prefetched) file_parts
  Available-Serves a = record {
    answers = λ t i lt.
        let l : i < length posts = omega (arith, length-map posts post_bytes) in
        let x = get_or posts i no_post in
        let w = a.posted i l in
        let begin = pos_part (headers x.begin_line x.part_line).begin in
        (
          begin,
          w.begins,
          ap (fetch_decoded crc32) (a.has t i l)
              ∙ fetch-posted crc32 (offset file_parts i) x w
              ∙ ap (article begin) (sym (part-map posts i)),
        );
    in_file = a.in_file;
  }

  -- A file that was posted by any encoder, in parts of any sizes or in one article, is read back as
  -- it was: a read of a new reader, whatever sizes the release names, gives the bytes from its offset
  -- on, and `io.EOF` exactly when they are fewer than asked.
  pub read_at-posted :
      (sizes : List ℕ) (len off : ℕ)
      → length sizes ≡ length posts
      → Available
      → 0 < length posts
      → let (r, p, e) = read_at (new_net crc32 servers prefetched) sizes len off new_reader_at in
        (p ≡ take len (drop off (whole file_parts)))
        × (e ≡ read_error (length (whole file_parts)) off len)
  read_at-posted sizes len off ls a ne =
      let k =
        read_at-Genuine (new_net crc32 servers prefetched) sizes file_parts
          (ls ∙ sym (length-map posts post_bytes)) (Available-Serves a) len off new_reader_at
          (omega (arith, length-map posts post_bytes)) (λ i c lt h. absurd (ground (arith, h))) in
      (k.0, k.1)
