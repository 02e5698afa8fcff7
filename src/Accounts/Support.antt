-- ===== src/Accounts/Support.antt =====
-- account_service.py: passwords, labels and usernames, and what the interpreter and bcrypt give.
use Prim.Native.Char.{code}
use Prim.Native.String.{[], ◌∷◌, ◌++◌ as append, count}
use mathlib.Core.List.{List}
use imghost.Prelude.{
  ℕ, zero, suc, ◌+◌, ◌/◌, ◌%◌, String, Bool, false, ◌&&◌, ◌||◌, Option, none, some, leb, ltb,
  length, str_eq, ◌==◌, if◌then◌else◌,
}
use imghost.Text.{strip}
use imghost.Http.{Result, ok, raise, http}

-- The tables of Unicode behind `str.lower` and `str.capitalize`, bcrypt on bytes, where `none` is a
-- ValueError, and `sha256(…).hexdigest()` of a text in UTF-8.
pub record Outside : Type 0 where
  pub lower : String → String
  pub capitalize : String → String
  pub hashpw : List ℕ → String
  pub checkpw : List ℕ → String → Option Bool
  pub sha256 : String → String

abbrev pub min_password_length : ℕ
min_password_length = 8

abbrev pub max_password_bytes : ℕ
max_password_bytes = 72

-- `str.encode("utf-8")`
encode_code : ℕ → List ℕ → List ℕ
encode_code c rest =
    if ltb c 128
    then List.◌∷◌ c rest
    else if ltb c 2048
    then List.◌∷◌ (192 + c / 64) (List.◌∷◌ (128 + c % 64) rest)
    else if ltb c 65536
    then List.◌∷◌ (224 + c / 4096) (List.◌∷◌ (128 + c / 64 % 64) (List.◌∷◌ (128 + c % 64) rest))
    else List.◌∷◌ (240 + c / 262144) (
        List.◌∷◌ (128 + c / 4096 % 64)
          (List.◌∷◌ (128 + c / 64 % 64) (List.◌∷◌ (128 + c % 64) rest)))

unfoldable pub encode : String → List ℕ
unfolding encode_code
encode [] = List.[]
encode (c ∷ s) = encode_code (code c) (encode s)

abbrev pub take_bytes : ℕ → List ℕ → List ℕ
take_bytes zero bytes = List.[]
take_bytes (suc n) List.[] = List.[]
take_bytes (suc n) (List.◌∷◌ b bytes) = List.◌∷◌ b (take_bytes n bytes)

unfoldable pub require_password_value : (password label : String) → Result String
unfolding strip
require_password_value password label =
    if str_eq (strip password) ""
    then raise (http 400 (append label " is required."))
    else if ltb (count password) min_password_length
    then raise (http 400 (append label " must be at least 8 characters."))
    else ok password

unfoldable pub hash_password : Outside → String → Result String
unfolding encode
hash_password lib password =
    if ltb max_password_bytes (length (encode password))
    then raise (http 400 "Password must be at most 72 UTF-8 bytes.")
    else ok (lib.hashpw (encode password))

unfoldable pub verify_password : Outside → (password password_hash : String) → Bool
unfolding encode
verify_password lib password password_hash =
    elim (lib.checkpw (take_bytes max_password_bytes (encode password)) password_hash) [
      | none ↦ false
      | some same ↦ same
    ]

-- `_provider_label`
unfoldable pub provider_label : Outside → String → String
unfolding strip
provider_label lib provider =
    let normalized = lib.lower (strip provider) in
    if str_eq normalized "google"
    then "Google"
    else if str_eq normalized "github"
    then "GitHub"
    else let label = lib.capitalize normalized in if str_eq label "" then "OAuth" else label

-- `re.sub(r"[^a-z0-9]+", "", text)`
is_alnum : ℕ → Bool
is_alnum c = leb 97 c && leb c 122 || leb 48 c && leb c 57

unfoldable pub only_alnum : String → String
unfolding is_alnum
only_alnum [] = []
only_alnum (c ∷ s) = if is_alnum (code c) then c ∷ only_alnum s else only_alnum s

-- `text[:n]`
unfoldable pub first_chars : ℕ → String → String
first_chars zero s = []
first_chars (suc n) [] = []
first_chars (suc n) (c ∷ s) = c ∷ first_chars n s

-- `text.split("@", 1)[0]`
unfoldable pub before_at : String → String
before_at [] = []
before_at (c ∷ s) = if code c == 64 then [] else c ∷ before_at s

digit : ℕ → String
digit n =
    if leb n 4
    then (if leb n 1
        then (if leb n 0 then "0" else "1")
        else if leb n 2
        then "2"
        else if leb n 3
        then "3"
        else "4")
    else if leb n 6
    then (if leb n 5 then "5" else "6")
    else if leb n 7
    then "7"
    else if leb n 8
    then "8"
    else "9"

-- `str(index)` of an index below 1000
unfoldable pub decimal : ℕ → String
unfolding digit
decimal n =
    if ltb n 10
    then digit n
    else if ltb n 100
    then append (digit (n / 10)) (digit (n % 10))
    else append (digit (n / 100)) (append (digit (n / 10 % 10)) (digit (n % 10)))
