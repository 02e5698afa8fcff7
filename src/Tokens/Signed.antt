-- ===== src/Tokens/Signed.antt =====
-- Signed tokens: which texts are read, and what is read of them.
use Prim.Native.Char.{Char, char, code, IsScalar}
use mathlib.Core.Path.{subst}
use Prim.Native.String.{[], ◌∷◌, ◌++◌ as append}
use Prim.Native.String.append
use imghost.Prelude.{
  ℕ, ◌↔◌, sym, Option-cases, inl, inr, ◌≡◌, refl, ap, ◌∙◌, String, Bool, true, false, not, ◌&&◌,
  ◌==◌, some, str_eq, eq_iff, eq_refl, arith, Bool-cases,
}
use imghost.Http.{ok}
use imghost.Tokens.{Signing, partition_dot, is_ascii, compare_digest, read_parts, sign, unsign}

unfoldable pub no_dot : String → Bool
no_dot [] = true
no_dot (c ∷ s) = not (code c == 46) && no_dot s

partition_dot-append :
    (s t : String) → no_dot s ≡ true → partition_dot (append s (append "." t)) ≡ (s, true, t)
unfolding partition_dot no_dot
partition_dot-append [] t h = rw append.nil (rw append.cons (rw append.nil refl))
partition_dot-append (c ∷ s) t h =
    let (a, b) = and_parts (code c == 46) (no_dot s) h in
    rw append.cons
      (rw a (ap (λ (r : String × Bool × String). (c ∷ r.0, r.1, r.2)) (partition_dot-append s t b)))
  where
    and_parts : (x y : Bool) → not x && y ≡ true → (x ≡ false) × (y ≡ true)
    and_parts x y h = ground (arith, h)

-- What base64 and the hexadecimal digest of an HMAC are documented to give: letters without a dot
-- that decode to the payload, and ASCII digits.
pub record Sound (k : Signing) (secret_key payload : String) : Type 0 where
  pub decodes : k.b64decode (k.b64encode payload) ≡ some payload
  pub is_plain : no_dot (k.b64encode payload) ≡ true
  pub is_letters : str_eq (k.b64encode payload) "" ≡ false
  pub is_digits : is_ascii (k.hexdigest secret_key payload) ≡ true
  pub is_long : str_eq (k.hexdigest secret_key payload) "" ≡ false

pub cons_full : (c : Char) (s : String) → str_eq (c ∷ s) "" ≡ false
cons_full c s = elim (Bool-cases (str_eq (c ∷ s) "")) [
  | inl e ↦ absurd (cc ((eq_iff (c ∷ s) "").0 e))
  | inr e ↦ e
]

append_full : (s t : String) → str_eq (append s (append "." t)) "" ≡ false
append_full [] t = rw append.nil (rw append.cons (cons_full "." (append [] t)))
append_full (c ∷ s) t = rw append.cons (cons_full c (append s (append "." t)))

-- A token is not empty.
pub sign_full :
    (k : Signing) (secret_key payload : String) → str_eq (sign k secret_key payload) "" ≡ false
unfolding sign
sign_full k secret_key payload = append_full (k.b64encode payload) (k.hexdigest secret_key payload)

-- A character with the code of a dot is one.
pub dot : (c : Char) → code c == 46 ≡ true → "." ≡ c
dot (char n p) h = subst (λ m. (q : IsScalar m) → "." ≡ char m q) (is_46 n h) (λ q. refl) p
  where
    is_46 : (n : ℕ) → n == 46 ≡ true → 46 ≡ n
    is_46 n h = ground (arith, h)

-- Where there is a dot, the parts are what stands around the first.
parts_around :
    (s : String)
    → (partition_dot s).1 ≡ true
    → (s ≡ append (partition_dot s).0 (append "." (partition_dot s).2))
      × (no_dot (partition_dot s).0 ≡ true)
unfolding partition_dot no_dot
parts_around [] h = cc
parts_around (c ∷ s) h = elim (Bool-cases (code c == 46)) [
  | inl p ↦
      rw p (rw append.nil (rw append.cons (rw append.nil (ap (λ d. d ∷ s) (sym (dot c p))))), refl)
  | inr p ↦
      let (e, plain) = parts_around s (simp p at h) in
      rw p (rw append.cons (ap (λ t. c ∷ t) e), rw p plain)
]

-- What `read_parts` has found where it reads a payload.
accepts :
    (k : Signing) (secret_key body signature : String) (has_dot : Bool) (payload : String)
    → read_parts k secret_key (body, has_dot, signature) ≡ ok (some payload)
    → (has_dot ≡ true)
      × (str_eq body "" ≡ false)
      × (k.b64decode body ≡ some payload)
      × (signature ≡ k.hexdigest secret_key payload)
unfolding read_parts compare_digest
accepts k secret_key body signature has_dot payload h = elim (Option-cases (k.b64decode body)) [
  | inl e ↦ absurd (ground (arith, e, h))
  | inr (found, e) ↦ ground (arith, e, h, eq_iff signature (k.hexdigest secret_key found))
]

-- The value is a text without a dot that decodes to the payload, a dot, and the digest of the payload
-- under the key.
abbrev pub IsSigned : Signing → (secret_key payload value : String) → Type 0
IsSigned k secret_key payload value =
    (body : String) × (value ≡ append body (append "." (k.hexdigest secret_key payload)))
    × (no_dot body ≡ true)
    × (str_eq body "" ≡ false)
    × (k.b64decode body ≡ some payload)

module _ (k : Signing) (secret_key payload : String)
    (digits : is_ascii (k.hexdigest secret_key payload) ≡ true)
    (long : str_eq (k.hexdigest secret_key payload) "" ≡ false) where
  reads_signed :
      (body : String)
      → str_eq body "" ≡ false
      → k.b64decode body ≡ some payload
      → read_parts k secret_key (body, true, k.hexdigest secret_key payload) ≡ ok (some payload)
  unfolding read_parts
  reads_signed body full decoded =
      simp
        (
          full,
          long,
          decoded,
          digits,
          eq_refl (k.hexdigest secret_key payload),
          read_parts,
          compare_digest,
        )
        refl

  -- Where the digest of the payload is not empty and has only ASCII characters, exactly those
  -- values are read as the payload that are signed with the key: a text that is not empty, has no
  -- dot and decodes to the payload, a dot, and the digest.
  pub unsign_iff :
      (value : String)
      → (unsign k secret_key value ≡ ok (some payload)) ↔ IsSigned k secret_key payload value
  unfolding unsign
  unsign_iff value = (
    λ h.
        let parts = partition_dot value in
        let (has_dot, full, decoded, same) =
          accepts k secret_key parts.0 parts.2 parts.1 payload h in
        let (e, plain) = parts_around value has_dot in
        (parts.0, e ∙ ap (λ s. append parts.0 (append "." s)) same, plain, full, decoded),
    λ h.
        let (body, e, plain, full, decoded) = h in
        ap (unsign k secret_key) e
        ∙ ap (read_parts k secret_key)
            (partition_dot-append body (k.hexdigest secret_key payload) plain)
        ∙ reads_signed body full decoded,
  )

pub unsign-sign :
    (k : Signing) (secret_key payload : String)
    → Sound k secret_key payload
    → unsign k secret_key (sign k secret_key payload) ≡ ok (some payload)
unfolding sign
unsign-sign k secret_key payload s =
    (unsign_iff k secret_key payload s.is_digits s.is_long (sign k secret_key payload)).1
      (k.b64encode payload, refl, s.is_plain, s.is_letters, s.decodes)
