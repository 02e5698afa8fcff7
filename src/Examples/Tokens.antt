-- ===== src/Examples/Tokens.antt =====
-- A signed token, and one with another signature.
use imghost.Prelude.{◌≡◌, ◌↔◌, refl, String, true, none, some}
use imghost.Http.{ok}
use imghost.Tokens.{unsign, is_ascii}
use imghost.Tokens.Signed.{IsSigned, unsign_iff}
use imghost.Examples.Letters.{signing}

abbrev token : String
token = "xkuk1.f"

reads_token : unsign signing "k" token ≡ ok (some "u1")
unfolding unsign
reads_token = refl

refuses_forged : unsign signing "k" "xkuk1.e" ≡ ok none
unfolding unsign
refuses_forged = refl

digest_is_ascii : is_ascii (signing.hexdigest "k" "u1") ≡ true
unfolding is_ascii
digest_is_ascii = refl

unsign_iff_example : (unsign signing "k" token ≡ ok (some "u1")) ↔ IsSigned signing "k" "u1" token
unsign_iff_example = unsign_iff signing "k" "u1" digest_is_ascii refl token
