-- ===== src/Albums/Access.antt =====
-- service.py, `_require_album_access`: who may manage an album.
use imghost.Prelude.{
  ℕ, ◌<◌, ◌≡◌, ◌↔◌, ◌⊎◌, inl, inr, refl, String, Bool, true, false, not, Option, none, some, ◌&&◌,
  arith, eq_iff,
}
use imghost.Text.{truthy, opt_eq_iff}
use imghost.Http.{ok}
use imghost.Models.{User, Album}
use imghost.Albums.{is_expired, may_manage, ask_token, require_album_access}

-- The actor is an administrator or the album's owner.
abbrev pub IsManager : Album → Option User → Type 0
IsManager album actor_user =
    (u : User) × (actor_user ≡ some u) × ((u.is_admin ≡ true) ⊎ (album.user_id ≡ some u.id))

-- The album has a delete token, and the one given is the same, or the album's is empty.
abbrev pub HoldsToken : Album → Option String → Type 0
HoldsToken album delete_token =
    (t : String) × (album.delete_token ≡ some t) × ((t ≡ "") ⊎ (delete_token ≡ some t))

abbrev pub MayAccess : ℕ → Album → Option String → Option User → Bool → Type 0
MayAccess now album delete_token actor_user allow_expired =
    ((allow_expired ≡ true) ⊎ ((t : ℕ) → album.expires_at ≡ some t → now < t))
    × (IsManager album actor_user ⊎ HoldsToken album delete_token)

in_time_iff :
    (now : ℕ) (expires_at : Option ℕ) (allow_expired : Bool)
    → ((not allow_expired && is_expired now expires_at) ≡ false)
      ↔ ((allow_expired ≡ true) ⊎ ((t : ℕ) → expires_at ≡ some t → now < t))
unfolding is_expired
in_time_iff now e true = (λ h. inl refl, λ h. refl)
in_time_iff now none false = (λ h. inr (λ t p. cc), λ h. refl)
in_time_iff now (some t) false = (
  λ h. inr (λ u p. ground arith),
  λ h. elim h [ inl p ↦ cc | inr k ↦ let later : now < t = k t refl in ground arith ],
)

IsManager-iff :
    (album : Album) (actor_user : Option User)
    → (may_manage album actor_user ≡ true) ↔ IsManager album actor_user
unfolding may_manage
IsManager-iff album none = (λ h. cc, λ h. let (u, p, _) = h in cc p)
IsManager-iff album (some u) = (
  λ h. (u, refl, ground (arith, opt_eq_iff album.user_id (some u.id))),
  λ h.
      let (v, p, q) = h in
      elim q [
        | inl a ↦ ground arith
        | inr o ↦ ground (arith, opt_eq_iff album.user_id (some u.id))
      ],
)

-- The last part of the method: the token.
token_iff :
    (album : Album) (delete_token : Option String)
    → (ask_token album delete_token ≡ ok tt) ↔ HoldsToken album delete_token
unfolding ask_token truthy
token_iff album delete_token = go album.delete_token refl
  where
    go :
        (t : Option String)
        → album.delete_token ≡ t
        → (ask_token album delete_token ≡ ok tt) ↔ HoldsToken album delete_token
    go none e = rw e (λ h. cc, λ h. let (t, p, _) = h in cc p)
    go (some t) e = rw e (
      λ h. (t, refl, ground (arith, opt_eq_iff delete_token (some t), eq_iff t "")),
      λ h.
          let (u, p, q) = h in
          elim q [
            | inl a ↦ ground (arith, eq_iff t "", eq_iff u "")
            | inr o ↦ ground (arith, opt_eq_iff delete_token (some t))
          ],
    )

module _ (now : ℕ) (album : Album) (delete_token : Option String) (actor_user : Option User)
    (allow_expired : Bool) where
  -- Access is granted exactly in these cases: in time, or where expiry is not asked after, and to
  -- an administrator, to the owner, to who gives the album's delete token, or to anybody, with a
  -- token or without, where the album's delete token is the empty text.
  pub require_album_access_iff :
      (require_album_access now album delete_token actor_user allow_expired ≡ ok tt)
      ↔ MayAccess now album delete_token actor_user allow_expired
  unfolding require_album_access
  require_album_access_iff = ground (
    arith,
    in_time_iff now album.expires_at allow_expired,
    IsManager-iff album actor_user,
    token_iff album delete_token,
  )
