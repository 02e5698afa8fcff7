-- ===== src/Tokens.antt =====
-- The signed tokens of src/imghost/sessions.py, src/imghost/sharex_delete.py and
-- src/imghost/account_delete_reauth.py: a payload in base64, a dot, and an HMAC. The three files have
-- the same code for it.
pub mod Signed
use Prim.Native.Char.{code}
use Prim.Native.String.{[], ◌∷◌, ◌++◌ as append}
use imghost.Prelude.{
  ℕ, ◌*◌, ◌-◌, String, Bool, true, false, not, ◌&&◌, ◌||◌, ◌==◌, ltb, Option, none, some, str_eq,
  if◌then◌else◌,
}
use imghost.Text.{strip}
use imghost.Http.{Result, ok, raise, other}

-- base64, where `none` is an exception, and `hmac.new(key, payload, sha256).hexdigest()`; a payload is
-- a text here, as every payload is JSON in UTF-8.
pub record Signing : Type 0 where
  pub b64encode : String → String
  pub b64decode : String → Option String
  pub hexdigest : (key payload : String) → String

-- `value.partition(".")`
unfoldable pub partition_dot : String → String × Bool × String
partition_dot [] = ([], false, [])
partition_dot (c ∷ s) =
    let rest = partition_dot s in
    if code c == 46 then ([], true, s) else (c ∷ rest.0, rest.1, rest.2)

unfoldable pub is_ascii : String → Bool
is_ascii [] = true
is_ascii (c ∷ s) = ltb (code c) 128 && is_ascii s

-- `hmac.compare_digest` of two texts
unfoldable pub compare_digest : (a b : String) → Result Bool
unfolding is_ascii
compare_digest a b =
    if is_ascii a && is_ascii b
    then ok (str_eq a b)
    else raise (other "comparing strings with non-ASCII characters is not supported")

unfoldable pub sign : Signing → (secret_key payload : String) → String
sign k secret_key payload =
    append (k.b64encode payload) (append "." (k.hexdigest secret_key payload))

-- The payload of the two parts around the dot, or `none` where they were not signed with the key.
unfoldable pub read_parts :
    Signing → (secret_key : String) → String × Bool × String → Result (Option String)
unfolding compare_digest
read_parts k secret_key (payload_b64, dot, signature) =
    if not dot || str_eq payload_b64 "" || str_eq signature ""
    then ok none
    else (elim (k.b64decode payload_b64) [
      | none ↦ ok none
      | some payload ↦ elim (compare_digest signature (k.hexdigest secret_key payload)) [
        | raise e ↦ raise e
        | ok same ↦ if same then ok (some payload) else ok none
      ]
    ])

unfoldable pub unsign : Signing → (secret_key value : String) → Result (Option String)
unfolding partition_dot read_parts
unsign k secret_key value = read_parts k secret_key (partition_dot value)

-- A value that `dict.get` of a JSON object gives: None (also of a missing key), a text, or another
-- value with what `str` makes of it.
pub data Json : Type 0 where
  null : Json
  text : String → Json
  other_value : (truthy : Bool) (shown : String) → Json

-- `str(value or "").strip()`
unfoldable pub stripped : Json → String
unfolding strip
stripped null = ""
stripped (text s) = strip s
stripped (other_value truthy shown) = if truthy then strip shown else ""

-- A microsecond is the unit of the times of tokens.
abbrev pub second : ℕ
second = 1000000

-- Whether a token of that time is at most so old: `none` of the time is a ValueError.
abbrev pub is_recent : (now max_age : ℕ) → Option ℕ → Bool
is_recent now max_age none = false
is_recent now max_age (some created_at) =
    not (ltb now created_at || ltb (max_age * second) (now - created_at))
