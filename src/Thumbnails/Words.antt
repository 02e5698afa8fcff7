-- ===== src/Thumbnails/Words.antt =====
-- `needle in str(exc).lower()`, over the code points of the text.
use Prim.Native.Char.{code}
use Prim.Native.String.{[], ◌∷◌}
use mathlib.Core.List.{List}
use imghost.Prelude.{ℕ, ◌+◌, String, Bool, true, false, ◌&&◌, ◌||◌, leb, ◌==◌, if◌then◌else◌}

-- `str.lower` of one character, where what it gives is ASCII, wholly or in part: the capital
-- letters, the Kelvin sign, and the capital I with a dot.
lower_code : ℕ → List ℕ → List ℕ
lower_code c rest =
    if leb 65 c && leb c 90
    then List.◌∷◌ (c + 32) rest
    else if c == 8490
    then List.◌∷◌ 107 rest
    else if c == 304
    then List.◌∷◌ 105 (List.◌∷◌ 775 rest)
    else List.◌∷◌ c rest

unfoldable pub lower : String → List ℕ
unfolding lower_code
lower [] = List.[]
lower (c ∷ s) = lower_code (code c) (lower s)

is_prefix : String → List ℕ → Bool
is_prefix [] s = true
is_prefix (c ∷ p) List.[] = false
is_prefix (c ∷ p) (List.◌∷◌ d s) = code c == d && is_prefix p s

unfoldable pub contains : String → List ℕ → Bool
unfolding is_prefix
contains needle List.[] = is_prefix needle List.[]
contains needle (List.◌∷◌ d s) = is_prefix needle (List.◌∷◌ d s) || contains needle s
