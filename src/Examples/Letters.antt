-- ===== src/Examples/Letters.antt =====
-- Signatures and texts of records that can be read back, in place of base64, HMAC and JSON.
use Prim.Native.Char.{Char, code}
use Prim.Native.String.{[], ◌∷◌}
use imghost.Prelude.{
  ◌≡◌, refl, ap, ◌∙◌, inl, inr, String, true, ◌==◌, Option, none, some, Bool-cases, if◌then◌else◌,
}
use imghost.Tokens.{Signing, is_ascii}
use imghost.Tokens.Signed.{cons_full, Sound, no_dot, dot}

-- Each character with a letter before it; a dot is written as another pair.
abbrev pairs : String → String
pairs [] = []
pairs (c ∷ s) = if code c == 46 then "d" ∷ "x" ∷ pairs s else "k" ∷ c ∷ pairs s

abbrev read_pairs : String → String
read_pairs [] = []
read_pairs (a ∷ []) = []
read_pairs (a ∷ b ∷ s) = if code a == 100 then "." ∷ read_pairs s else b ∷ read_pairs s

read_pairs-pairs : (s : String) → read_pairs (pairs s) ≡ s
read_pairs-pairs [] = refl
read_pairs-pairs (c ∷ s) = elim (Bool-cases (code c == 46)) [
  | inl h ↦ rw h (ap (λ t. "." ∷ t) (read_pairs-pairs s) ∙ ap (λ d. d ∷ s) (dot c h))
  | inr h ↦ rw h (ap (λ t. c ∷ t) (read_pairs-pairs s))
]

no_dot-pairs : (s : String) → no_dot (pairs s) ≡ true
unfolding no_dot
no_dot-pairs [] = refl
no_dot-pairs (c ∷ s) = elim (Bool-cases (code c == 46)) [
  | inl h ↦ rw h (no_dot-pairs s)
  | inr h ↦ rw (h, h) (no_dot-pairs s)
]

abbrev encode : String → String
encode [] = []
encode (c ∷ s) = "x" ∷ pairs (c ∷ s)

abbrev decode : String → Option String
decode [] = some []
decode (c ∷ s) = some (read_pairs s)

abbrev pub signing : Signing
signing = record { b64encode = encode; b64decode = decode; hexdigest = λ key payload. "f" }

pub signing-Sound : (secret_key : String) (c : Char) (s : String) → Sound signing secret_key (c ∷ s)
unfolding no_dot is_ascii
signing-Sound secret_key c s = record {
  decodes = ap some (read_pairs-pairs (c ∷ s));
  is_plain = no_dot-pairs (c ∷ s);
  is_letters = cons_full "x" (pairs (c ∷ s));
  is_digits = refl;
  is_long = refl;
}

-- A text that is followed by another, and what is read of it.
abbrev pub put : String → String → String
put [] rest = "z" ∷ "z" ∷ rest
put (c ∷ s) rest = "k" ∷ c ∷ put s rest

abbrev pub take : String → String × String
take [] = ([], [])
take (a ∷ []) = ([], [])
take (a ∷ b ∷ s) = let rest = take s in if code a == 122 then ([], s) else (b ∷ rest.0, rest.1)

pub take-put : (s rest : String) → take (put s rest) ≡ (s, rest)
take-put [] rest = refl
take-put (c ∷ s) rest = ap (λ (r : String × String). (c ∷ r.0, r.1)) (take-put s rest)

abbrev pub put_option : Option String → String → String
put_option none rest = "n" ∷ rest
put_option (some s) rest = "s" ∷ put s rest

abbrev pub take_option : String → Option String × String
take_option [] = (none, [])
take_option (c ∷ s) = if code c == 110 then (none, s) else (some (take s).0, (take s).1)

pub take_option-put_option :
    (o : Option String) (rest : String) → take_option (put_option o rest) ≡ (o, rest)
take_option-put_option none rest = refl
take_option-put_option (some s) rest =
    ap (λ (r : String × String). (some r.0, r.1)) (take-put s rest)
