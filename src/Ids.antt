-- ===== src/Ids.antt =====
-- src/imghost/ids.py: the ids of albums and media.
use Prim.Native.Char.{code}
use Prim.Native.String.{[], ◌∷◌, count}
use imghost.Prelude.{ℕ, ◌==◌, String, Bool, true, false, ◌&&◌, ◌||◌}

abbrev pub album_id_length : ℕ
album_id_length = 9

has_code : ℕ → String → Bool
has_code n [] = false
has_code n (c ∷ s) = code c == n || has_code n s

all_in : String → String → Bool
unfolding has_code
all_in letters [] = true
all_in letters (c ∷ s) = has_code (code c) letters && all_in letters s

abbrev pub alphabet : String
alphabet = "23456789abcdefghjkmnpqrstuvwxyz"

unfoldable pub is_valid_id : (lower : String → String) (value : String) (length : ℕ) → Bool
unfolding all_in
is_valid_id lower value length =
    let normalized = lower value in count normalized == length && all_in alphabet normalized
