-- ===== src/Text.antt =====
-- The methods of Python's `str` that the modelled code calls, over native strings.
use Prim.Native.Char.{Char, code}
use Prim.Native.String.{String, [], ◌∷◌}
use imghost.Prelude.{
  ℕ, Bool, true, false, not, ◌&&◌, ◌||◌, Option, none, some, leb, ◌==◌, str_eq, if◌then◌else◌,
  eq_iff, ◌≡◌, ◌↔◌, arith,
}

-- `str.isspace` of one character: the code points that Python strips.
unfoldable pub is_space : ℕ → Bool
is_space c =
    leb 9 c && leb c 13
    || leb 28 c && leb c 32
    || c == 133
    || c == 160
    || c == 5760
    || leb 8192 c && leb c 8202
    || c == 8232
    || c == 8233
    || c == 8239
    || c == 8287
    || c == 12288

lstrip : String → String
lstrip [] = []
lstrip (c ∷ s) = if is_space (code c) then lstrip s else c ∷ s

drop_space : Char → String → String
drop_space c [] = if is_space (code c) then [] else c ∷ []
drop_space c (d ∷ s) = c ∷ d ∷ s

rstrip : String → String
rstrip [] = []
rstrip (c ∷ s) = drop_space c (rstrip s)

unfoldable pub strip : String → String
unfolding lstrip rstrip drop_space is_space
strip s = rstrip (lstrip s)

-- `if text:` for a value that may be `None`
unfoldable pub truthy : Option String → Bool
truthy none = false
truthy (some s) = not (str_eq s "")

unfoldable pub opt_eq : Option String → Option String → Bool
opt_eq none none = Bool.true
opt_eq none (some t) = Bool.false
opt_eq (some s) none = Bool.false
opt_eq (some s) (some t) = str_eq s t

-- `text or None`
abbrev pub or_none : String → Option String
or_none s = if str_eq s "" then none else some s

pub opt_eq_iff : (s t : Option String) → (opt_eq s t ≡ true) ↔ (s ≡ t)
unfolding opt_eq
opt_eq_iff none none = ground arith
opt_eq_iff none (some t) = ground arith
opt_eq_iff (some s) none = ground arith
opt_eq_iff (some s) (some t) = ground (arith, eq_iff s t)

-- The code of the first and of the second character, 0 where there is none.
unfoldable pub initial : String → ℕ
initial [] = 0
initial (c ∷ s) = code c

unfoldable pub second : String → ℕ
unfolding initial
second [] = 0
second (c ∷ s) = initial s

drop_prefix : String → String → Option String
drop_prefix [] s = some s
drop_prefix (c ∷ p) [] = none
drop_prefix (c ∷ p) (d ∷ s) = let rest = drop_prefix p s in if code c == code d then rest else none

-- What follows the last place where `mark` stands.
find_last : (mark : String) → String → Option String
unfolding drop_prefix
find_last mark [] = drop_prefix mark []
find_last mark (c ∷ s) = elim (find_last mark s) [
  | some rest ↦ some rest
  | none ↦ drop_prefix mark (c ∷ s)
]

-- `s.split(mark)[-1]`, for a mark that cannot overlap itself
unfoldable pub last_part : (mark : String) → String → String
unfolding find_last
last_part mark s = elim (find_last mark s) [ some rest ↦ rest | none ↦ s ]
