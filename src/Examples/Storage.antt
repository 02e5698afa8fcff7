-- ===== src/Examples/Storage.antt =====
-- A stream of a small file.
use imghost.Prelude.{ℕ, ◌≡◌, refl, Option, some, List, [], ◌∷◌, length}
use imghost.Http.{ok}
use imghost.Storage.{
  RangeHeader, parts, number, ByteRange, StorageStream, normalize_byte_range, get_stream, take,
  drop, join, first_byte,
}
use imghost.Storage.Streams.{IsWithin, Spans, get_stream-sends_range}

abbrev file : List ℕ
file = 10 ∷ 20 ∷ 30 ∷ 40 ∷ 50 ∷ []

-- bytes=1-9
abbrev past_the_end : RangeHeader
past_the_end = parts (number 1) (number 9)

abbrev last_four : ByteRange
last_four = record { start = 1; end = 4 }

abbrev sent : StorageStream ℕ
sent = record {
  status_code = 206;
  content_length = 4;
  content_range = some (last_four, 5);
  body = (20 ∷ 30 ∷ 40 ∷ 50 ∷ []) ∷ [];
}

sends : get_stream file past_the_end ≡ ok sent
unfolding get_stream
sends = refl

get_stream-sends_range_example :
    (range : Option ByteRange) × (normalize_byte_range past_the_end (length file) ≡ ok range)
    × IsWithin (length file) range
    × Spans (length file) range sent.content_length
    × (join sent.body ≡ take sent.content_length (drop (first_byte range) file))
    × (length (join sent.body) ≡ sent.content_length)
get_stream-sends_range_example = get_stream-sends_range file past_the_end sends
