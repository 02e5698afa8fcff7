-- ===== src/Users/Rows.antt =====
-- repository_users.py: what the statements come to on rows that are there, and on rows that are not.
use imghost.Prelude.{
  ◌≡◌, refl, String, none, some, [], ◌∷◌, ◌++◌, find, find-passes, eq_iff, Option-cases, inl, inr,
  ◌⊎◌,
}
use imghost.Http.{ok, raise, other, Exception}
use imghost.Models.{User, UserSsoLink}
use imghost.Users.{
  Tables, conflicts, create_user, get_user, create_user_sso_link, is_link, has_user_id,
}

-- A user is added, or refused for a row that is in its way.
pub create_user-cases :
    (t : Tables) (user : User)
    → ((find (conflicts user) t.users ≡ none)
        × (create_user t user ≡ (ok user, record t { users = t.users ++ user ∷ [] })))
      ⊎ (create_user t user ≡ (raise (other "unique_violation"), t))
unfolding create_user
create_user-cases t user = elim (Option-cases (find (conflicts user) t.users)) [
  | inl e ↦ inl (e, rw (e, create_user) refl)
  | inr (u, e) ↦ inr (rw (e, create_user) refl)
]

abbrev pub with_link : Tables → UserSsoLink → Tables
with_link t link = record t { user_sso_links = t.user_sso_links ++ link ∷ [] }

-- So is a link, where the user is there or not.
pub create_user_sso_link-cases :
    (t : Tables) (link : UserSsoLink)
    → (create_user_sso_link t link ≡ (ok link, with_link t link))
      ⊎ ((e : Exception) × (create_user_sso_link t link ≡ (raise e, t)))
unfolding create_user_sso_link
create_user_sso_link-cases t link =
    elim (Option-cases (find (is_link link.provider link.provider_uid) t.user_sso_links)) [
      | inr (l, e) ↦ inr (other "unique_violation", rw (e, create_user_sso_link) refl)
      | inl e ↦ elim (Option-cases (get_user t link.user_id)) [
        | inl n ↦ inr (other "foreign_key_violation", rw (e, create_user_sso_link) (rw n refl))
        | inr (u, n) ↦ inl (rw (e, create_user_sso_link) (rw n refl))
      ]
    ]

pub get_user-id :
    (t : Tables) (user_id : String) {u : User} → get_user t user_id ≡ some u → u.id ≡ user_id
unfolding get_user
get_user-id t user_id {u = u} h =
    (eq_iff u.id user_id).0 (find-passes (has_user_id user_id) t.users h)
