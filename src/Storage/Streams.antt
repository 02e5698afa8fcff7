-- ===== src/Storage/Streams.antt =====
-- storage.py: what a stream sends, and what it announces.
use mathlib.Core.Path.{subst}
use imghost.Prelude.{
  ◌+◌, ℕ, true, zero, suc, ◌-◌, ◌≤◌, ◌<◌, ◌≡◌, refl, sym, ap, ◌∙◌, min, Option, none, some, List,
  [], ◌∷◌, ◌++◌, inl, inr, length, arith, ltb,
}
use imghost.Http.{Result, ok, raise, Result-cases}
use imghost.Storage.{
  RangeHeader, ByteRange, normalize_byte_range, range_from, suffix_range, take, drop, join,
  iterator, chunk_size, StorageStream, first_byte, length_of, get_stream,
}

-- A range that is granted lies within the file.
abbrev pub IsWithin : ℕ → Option ByteRange → Type 0
IsWithin size none = Unit {0}
IsWithin size (some r) = (r.start ≤ r.end) × (r.end < size)

-- How many bytes the range has: those from its start to its end, both included, or all.
abbrev pub Spans : ℕ → Option ByteRange → ℕ → Type 0
Spans size none n = n ≡ size
Spans size (some r) n = r.start + n ≡ suc r.end

length_of-Spans :
    (size : ℕ) (range : Option ByteRange)
    → IsWithin size range
    → Spans size range (length_of range size)
length_of-Spans size none h = refl
length_of-Spans size (some r) h = omega (arith, h)

normalize_byte_range-IsWithin :
    (header : RangeHeader) (size : ℕ) (range : Option ByteRange)
    → normalize_byte_range header size ≡ ok range
    → IsWithin size range
unfolding normalize_byte_range range_from suffix_range
normalize_byte_range-IsWithin header size none h = tt
normalize_byte_range-IsWithin header size (some r) h = ground (arith, h)

least : (m : ℕ) → 0 < m → (n : ℕ) × (m ≡ suc n)
least zero h = absurd (omega (arith, h))
least (suc n) h = (n, refl)

positive : (n : ℕ) → ltb 0 (suc n) ≡ true
positive n = ground arith

minus_zero : (m : ℕ) → m - 0 ≡ m
minus_zero m = omega arith

module _ {A : Type 0} where
  length-take : (n : ℕ) (xs : List A) → n ≤ length xs → length (take n xs) ≡ n
  length-take zero xs h = refl
  length-take (suc n) [] h = omega (arith, h)
  length-take (suc n) (x ∷ xs) h = omega (arith, length-take n xs (omega (arith, h)))

  length-drop : (n : ℕ) (xs : List A) → length (drop n xs) ≡ length xs - n
  length-drop zero xs = omega arith
  length-drop (suc n) [] = omega arith
  length-drop (suc n) (x ∷ xs) = omega (arith, length-drop n xs)

  -- What is read in two goes is what is read in one.
  take-append_rest :
      (k m : ℕ) (xs : List A)
      → k ≤ m
      → take k xs ++ take (m - length (take k xs)) (drop (length (take k xs)) xs) ≡ take m xs
  take-append_rest zero m xs h = ap (λ n. take n xs) (omega arith)
  take-append_rest (suc k) zero xs h = absurd (omega (arith, h))
  take-append_rest (suc k) (suc m) [] h = ap (λ (n : ℕ). take n []) (minus_zero (suc m))
  take-append_rest (suc k) (suc m) (x ∷ xs) h =
      ap (λ ys. x ∷ ys)
        (ap (λ n. take k xs ++ take n (drop (length (take k xs)) xs)) (omega arith)
          ∙ take-append_rest k m xs (omega (arith, h)))

  take_nothing : (n : ℕ) → take {A = A} n [] ≡ []
  take_nothing zero = refl
  take_nothing (suc n) = refl

  join-iterator :
      (size fuel remaining : ℕ) (handle : List A)
      → 0 < size
      → remaining ≤ fuel
      → join (iterator size fuel remaining handle) ≡ take remaining handle
  unfolding iterator
  join-iterator size zero zero handle on enough = refl
  join-iterator size zero (suc remaining) handle on enough = absurd (omega (arith, enough))
  join-iterator size (suc fuel) zero handle on enough = refl
  join-iterator size (suc fuel) (suc remaining) [] on enough =
      rw (take_nothing (min size (suc remaining)), iterator) (rw (positive remaining) refl)
  join-iterator size (suc fuel) (suc remaining) (x ∷ xs) on enough =
      let (n, e) = least (min size (suc remaining)) (omega (arith, on)) in
      rw (e, iterator)
        (rw (positive remaining) (
          ap (λ ys. (x ∷ take n xs) ++ ys)
            (join-iterator size fuel (suc remaining - length (x ∷ take n xs))
              (drop (length (x ∷ take n xs)) (x ∷ xs)) on (omega (arith, enough)))
          ∙ take-append_rest (suc n) (suc remaining) (x ∷ xs) (omega (arith, e))))

  fits :
      (range : Option ByteRange) (content : List A)
      → IsWithin (length content) range
      → length_of range (length content) ≤ length (drop (first_byte range) content)
  fits none content h = omega arith
  fits (some r) content h = omega (arith, h, length-drop r.start content)

  abbrev streamed : List A → Option ByteRange → StorageStream A
  streamed content range = record {
    status_code = elim range [ none ↦ 200 | some _ ↦ 206 ];
    content_length = length_of range (length content);
    content_range = elim range [ none ↦ none | some r ↦ some (r, length content) ];
    body =
        iterator chunk_size (length_of range (length content)) (length_of range (length content))
          (drop (first_byte range) content);
  }

  abbrev body_of : Result (StorageStream A) → List (List A)
  body_of (ok s) = s.body
  body_of (raise e) = []

  abbrev announced : Result (StorageStream A) → ℕ
  announced (ok s) = s.content_length
  announced (raise e) = 0

  streams :
      (content : List A) (header : RangeHeader) (range : Option ByteRange)
      → normalize_byte_range header (length content) ≡ ok range
      → get_stream content header ≡ ok (streamed content range)
  unfolding get_stream
  streams content header range e = rw (e, get_stream) refl

  -- For each header that is taken, the range lies within the file, and the length that is announced
  -- counts the bytes from the start of the range to its end, both included, or all of the file
  -- where there is no range; the chunks together are that many bytes of the file, from the first of
  -- the range.
  pub get_stream-sends_range :
      (content : List A) (header : RangeHeader) {stream : StorageStream A}
      → get_stream content header ≡ ok stream
      → (range : Option ByteRange) × (normalize_byte_range header (length content) ≡ ok range)
        × IsWithin (length content) range
        × Spans (length content) range stream.content_length
        × (join stream.body ≡ take stream.content_length (drop (first_byte range) content))
        × (length (join stream.body) ≡ stream.content_length)
  unfolding get_stream
  get_stream-sends_range content header {stream = stream} h =
      elim (Result-cases (normalize_byte_range header (length content))) [
        | inr (x, e) ↦ absurd (ground (arith, e, h))
        | inl (range, e) ↦
            let within = normalize_byte_range-IsWithin header (length content) range e in
            let made = sym (streams content header range e) ∙ h in
            let total = length_of range (length content) in
            let tail = drop (first_byte range) content in
            let sent = join-iterator chunk_size total total tail (omega arith) (omega arith) in
            let body = ap (λ r. join (body_of r)) (sym made) ∙ sent in
            let size = ap announced made in
            (
              range,
              e,
              within,
              subst (Spans (length content) range) size
                  (length_of-Spans (length content) range within),
              body ∙ ap (λ n. take n tail) size,
              ap length body ∙ length-take total tail (fits range content within) ∙ size,
            )
      ]
