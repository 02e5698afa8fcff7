-- ===== src/Storage.antt =====
-- src/imghost/storage.py: `normalize_byte_range`, and `get_stream` of the local back end. Reading the
-- text of a `Range` header into its two parts is left to the caller of the model: a part is empty, a
-- number, anything that `isdigit` refuses, or what `isdigit` takes and `int` does not, such as a
-- superscript digit.
pub mod Streams
use imghost.Prelude.{
  ℕ, zero, suc, ◌-◌, ◌*◌, min, Bool, not, ◌&&◌, Option, none, some, List, [], ◌∷◌, ◌++◌, length,
  leb, ltb, if◌then◌else◌,
}
use imghost.Http.{Result, ok, raise, other, Exception}

pub data Part : Type 0 where
  blank refused no_number : Part
  number : ℕ → Part

-- A header: absent or empty, without `bytes=`, a single `-` between two parts, or with a comma; or
-- its two parts.
pub data RangeHeader : Type 0 where
  absent malformed : RangeHeader
  parts : (raw_start raw_end : Part) → RangeHeader

pub record ByteRange : Type 0 where
  pub start : ℕ
  pub end : ℕ

abbrev pub invalid_byte_range : Exception
invalid_byte_range = other "Invalid byte range"

-- The ValueError of `int`, which is not an InvalidByteRange.
abbrev pub invalid_literal : Exception
invalid_literal = other "invalid literal for int() with base 10"

-- The branch with a start.
unfoldable pub range_from : (start : ℕ) → Part → (size : ℕ) → Result (Option ByteRange)
range_from start raw_end size = if leb size start then raise invalid_byte_range else (elim raw_end [
  | refused ↦ raise invalid_byte_range
  | no_number ↦ raise invalid_literal
  | blank ↦ ok (some (record { start = start; end = size - 1 }))
  | number end ↦
      if ltb end start
      then raise invalid_byte_range
      else ok (some (record { start = start; end = min end (size - 1) }))
])

-- The branch with an end only: the last bytes.
unfoldable pub suffix_range : Part → (size : ℕ) → Result (Option ByteRange)
suffix_range blank size = raise invalid_byte_range
suffix_range refused size = raise invalid_byte_range
suffix_range no_number size = raise invalid_literal
suffix_range (number suffix_length) size =
    if leb suffix_length 0
    then raise invalid_byte_range
    else ok (some (record { start = size - min suffix_length size; end = size - 1 }))

unfoldable pub normalize_byte_range : RangeHeader → (size : ℕ) → Result (Option ByteRange)
unfolding range_from suffix_range
normalize_byte_range absent size = ok none
normalize_byte_range malformed size = raise invalid_byte_range
normalize_byte_range (parts raw_start raw_end) size =
    if leb size 0 then raise invalid_byte_range else (elim raw_start [
      | refused ↦ raise invalid_byte_range
      | no_number ↦ raise invalid_literal
      | number start ↦ range_from start raw_end size
      | blank ↦ suffix_range raw_end size
    ])

module _ {A : Type 0} where
  abbrev pub take : ℕ → List A → List A
  take zero xs = []
  take (suc n) [] = []
  take (suc n) (x ∷ xs) = x ∷ take n xs

  abbrev pub drop : ℕ → List A → List A
  drop zero xs = xs
  drop (suc n) [] = []
  drop (suc n) (x ∷ xs) = drop n xs

  abbrev pub is_empty : List A → Bool
  is_empty [] = Bool.true
  is_empty (x ∷ xs) = Bool.false

  -- `b"".join(chunks)`
  abbrev pub join : List (List A) → List A
  join [] = []
  join (chunk ∷ chunks) = chunk ++ join chunks

  -- The loop of `iterator`, from what is left of the file; `handle.read(n)` gives n bytes, or as many
  -- as there are. A round for each byte is enough.
  unfoldable pub iterator : (chunk_size fuel remaining : ℕ) → List A → List (List A)
  iterator chunk_size zero remaining handle = []
  iterator chunk_size (suc fuel) remaining handle =
      let chunk = take (min chunk_size remaining) handle in
      let rest = iterator chunk_size fuel (remaining - length chunk) (drop (length chunk) handle) in
      if ltb 0 remaining && not (is_empty chunk) then chunk ∷ rest else []

-- 64 * 1024
abbrev pub chunk_size : ℕ
chunk_size = 64 * 1024

pub record StorageStream (A : Type 0) : Type 0 where
  pub status_code : ℕ
  pub content_length : ℕ
  pub content_range : Option (ByteRange × ℕ)
  pub body : List (List A)

abbrev pub first_byte : Option ByteRange → ℕ
first_byte none = 0
first_byte (some r) = r.start

-- `max(0, end - start + 1)`, where `end` is `size - 1` without a range.
abbrev pub length_of : Option ByteRange → (size : ℕ) → ℕ
length_of none size = size
length_of (some r) size = suc r.end - r.start

unfoldable pub get_stream : {A : Type 0} → List A → RangeHeader → Result (StorageStream A)
unfolding normalize_byte_range iterator
get_stream content header =
    let size = length content in
    elim (normalize_byte_range header size) [
      | raise e ↦ raise e
      | ok byte_range ↦
          let content_length = length_of byte_range size in
          ok (record {
            status_code = elim byte_range [ none ↦ 200 | some _ ↦ 206 ];
            content_length = content_length;
            content_range = elim byte_range [ none ↦ none | some r ↦ some (r, size) ];
            body =
                iterator chunk_size content_length content_length
                  (drop (first_byte byte_range) content);
          })
    ]
