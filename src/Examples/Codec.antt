-- ===== src/Examples/Codec.antt =====
-- Texts that give back the value they were made of, in place of JSON.
use Prim.Native.Char.{code}
use Prim.Native.String.{[], ◌∷◌}
use imghost.Prelude.{
  ℕ, zero, suc, ◌==◌, ap, ◌≡◌, refl, String, true, false, Option, none, some, if◌then◌else◌,
}
use imghost.Prelude.Int.{pos, negsuc}
use imghost.Config.{Value, flag, number, Raw, plain}

abbrev pub strokes : ℕ → String
strokes zero = []
strokes (suc n) = "x" ∷ strokes n

abbrev pub strokes_in : String → ℕ
strokes_in [] = 0
strokes_in (c ∷ s) = suc (strokes_in s)

-- Without the first.
abbrev pub further_strokes : String → ℕ
further_strokes [] = 0
further_strokes (c ∷ s) = strokes_in s

abbrev pub dumps : Value → String
dumps (flag true) = "t" ∷ []
dumps (flag false) = "f" ∷ []
dumps (number (pos n)) = "p" ∷ strokes n
dumps (number (negsuc n)) = "n" ∷ strokes n

abbrev pub loads : String → Option Raw
loads [] = none
loads (c ∷ s) =
    if code c == 116
    then some (plain (flag true))
    else if code c == 102
    then some (plain (flag false))
    else if code c == 112
    then some (plain (number (pos (strokes_in s))))
    else some (plain (number (negsuc (strokes_in s))))

pub strokes_in-strokes : (n : ℕ) → strokes_in (strokes n) ≡ n
strokes_in-strokes zero = refl
strokes_in-strokes (suc n) = ap suc (strokes_in-strokes n)

pub codec : (v : Value) → loads (dumps v) ≡ some (plain v)
codec (flag true) = refl
codec (flag false) = refl
codec (number (pos n)) = ap (λ m. some (plain (number (pos m)))) (strokes_in-strokes n)
codec (number (negsuc n)) = ap (λ m. some (plain (number (negsuc m)))) (strokes_in-strokes n)
