-- ===== src/Usenet/Release/Tests.antt =====
-- A file of two posts, read over the end of the first.
use torrin.Prelude.{
  ℕ, zero, suc, ◌<◌, ◌≡◌, refl, inl, some, List, [], ◌∷◌, length, get_or, take, drop, arith,
}
use torrin.Prelude.Parts.{whole, offset}
use torrin.Prelude.Parse.{cut_byte, parse_digits}
use torrin.Prelude.Text.{Text, bytes, has_prefix, same, to_lower, trim_space}
use torrin.Usenet.Yenc.Decode.{
  wanted, parse_yenc_header, parse_ypart_header, extract_value, int_value, yend_checksums,
  checksums_of, fields_from, parse_hex32, single_part,
}
use torrin.Usenet.Yenc.RoundTrip.{InLine, done, plain, escaped}
use torrin.Usenet.Reader.Machine.{new_reader_at, read_at}
use torrin.Usenet.Reader.Reads.{read_error}
use torrin.Usenet.Release.Fetch.{Fetched, raw, new_net}
use torrin.Usenet.Release.Posted.{
  Post, no_post, post_article, WellPosted, file_parts, Available, read_at-posted,
}

program : Unit {0}
unfolding wanted parse_yenc_header parse_ypart_header extract_value int_value has_prefix same
    cut_byte trim_space parse_digits parse_hex32 yend_checksums checksums_of fields_from to_lower
    single_part
program = tt

abbrev first_post : Post
first_post = record {
  begin_line = bytes "part=1 name=a.bin";
  part_line = some (bytes "begin=1 end=3");
  end_line = bytes "size=3";
  lines = (43 ∷ b'=' ∷ 125 ∷ []) ∷ (0 ∷ []) ∷ [];
  pieces = (1 ∷ 19 ∷ []) ∷ (214 ∷ []) ∷ [];
}

abbrev second_post : Post
second_post = record {
  begin_line = bytes "part=2 name=a.bin";
  part_line = some (bytes "begin=4 end=5");
  end_line = bytes "size=2";
  lines = (49 ∷ 50 ∷ []) ∷ [];
  pieces = (7 ∷ 8 ∷ []) ∷ [];
}

abbrev posts : List Post
posts = first_post ∷ second_post ∷ []

-- In place of the checksum.
abbrev count_of : Text → ℕ
count_of t = length t

abbrev servers : ℕ → ℕ → Fetched
servers t i = raw (post_article (get_or posts i no_post))

abbrev no_prefetch : ℕ → List ℕ
no_prefetch t = []

first-WellPosted : WellPosted count_of 0 first_post
unfolding program
first-WellPosted =
    let u : InLine 0 = (refl, refl) in
    record {
      begin_line_unbroken =
          (u, (u, (u, (u, (u, (u, (u, (u, (u, (u, (u, (u, (u, (u, (u, (u, (u, tt)))))))))))))))));
      part_line_unbroken = (u, (u, (u, (u, (u, (u, (u, (u, (u, (u, (u, (u, (u, tt)))))))))))));
      end_line_unbroken = (u, (u, (u, (u, (u, (u, tt))))));
      encoded = (
        plain 1 (omega arith) u refl (escaped 19 (omega arith) u refl done),
        (plain 214 (omega arith) u refl done, tt),
      );
      begins = refl;
      checksum = inl refl;
    }

second-WellPosted : WellPosted count_of 3 second_post
unfolding program
second-WellPosted =
    let u : InLine 0 = (refl, refl) in
    record {
      begin_line_unbroken =
          (u, (u, (u, (u, (u, (u, (u, (u, (u, (u, (u, (u, (u, (u, (u, (u, (u, tt)))))))))))))))));
      part_line_unbroken = (u, (u, (u, (u, (u, (u, (u, (u, (u, (u, (u, (u, (u, tt)))))))))))));
      end_line_unbroken = (u, (u, (u, (u, (u, (u, tt))))));
      encoded = (plain 7 (omega arith) u refl (plain 8 (omega arith) u refl done), tt);
      begins = refl;
      checksum = inl refl;
    }

posts-WellPosted :
    (i : ℕ)
    → i < length posts
    → WellPosted count_of
        (offset (file_parts count_of servers no_prefetch posts) i)
        (get_or posts i no_post)
posts-WellPosted zero h = first-WellPosted
posts-WellPosted (suc zero) h = second-WellPosted
posts-WellPosted (suc (suc i)) h = absurd (omega (arith, h))

posts-Available : Available count_of servers no_prefetch posts
posts-Available = record { posted = posts-WellPosted; has = λ t i h. refl; in_file = λ t. tt }

read_at-posted_example :
    let ps = file_parts count_of servers no_prefetch posts in
    let (r, p, e) =
      read_at (new_net count_of servers no_prefetch) (90 ∷ 80 ∷ []) 3 2 new_reader_at in
    (p ≡ take 3 (drop 2 (whole ps))) × (e ≡ read_error (length (whole ps)) 2 3)
read_at-posted_example =
    read_at-posted count_of servers no_prefetch posts (90 ∷ 80 ∷ []) 3 2 refl posts-Available
      (omega arith)
