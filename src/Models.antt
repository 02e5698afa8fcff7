-- ===== src/Models.antt =====
-- src/imghost/models.py: the records that the services pass around. A `datetime` is a number of
-- clock ticks; `duration_secs`, a float that no modelled operation reads, is left out.
use imghost.Prelude.{ℕ, String, Option, Bool}
use imghost.Prelude.Int.{ℤ}

pub record User : Type 0 where
  pub id : String
  pub username : String
  pub email : String
  pub password_hash : Option String
  pub is_admin : Bool
  pub suspended : Bool
  pub quota_bytes : Option ℕ
  pub rate_limit_rpm : Option ℕ
  pub rate_limit_bph : Option ℕ
  pub created_at : ℕ
  pub updated_at : ℕ

pub record ApiKey : Type 0 where
  pub id : String
  pub user_id : String
  pub key_hash : String
  pub created_at : ℕ
  pub last_used_at : Option ℕ

pub record UserSsoLink : Type 0 where
  pub id : String
  pub user_id : String
  pub provider : String
  pub provider_uid : String
  pub linked_at : ℕ

pub record OAuthStateNonce : Type 0 where
  pub jti : String
  pub mode : String
  pub user_id : Option String
  pub code_verifier : String
  pub created_at : ℕ
  pub expires_at : ℕ

pub record ShareXDeleteCapability : Type 0 where
  pub selector : String
  pub purpose : String
  pub album_id : String
  pub user_id : String
  pub secret_hash : String
  pub created_at : ℕ
  pub expires_at : ℕ
  pub consumed_at : Option ℕ
  pub revoked_at : Option ℕ
  pub last_seen_at : Option ℕ

pub record Album : Type 0 where
  pub id : String
  pub title : Option String
  pub user_id : Option String
  pub cover_media_id : Option String
  pub delete_token : Option String
  pub created_at : ℕ
  pub updated_at : ℕ
  pub expires_at : Option ℕ

-- What a thumbnail run may be at; the column `thumb_status` holds these words.
pub data ThumbStatus : Type 0 where
  pending processing done failed : ThumbStatus

-- The columns of `media` that describe the file and that no modelled operation reads.
pub record MediaInfo : Type 0 where
  pub filename_orig : String
  pub media_type : String
  pub mime_type : String
  pub width : Option ℕ
  pub height : Option ℕ
  pub is_animated : Bool
  pub codec_hint : Option String

pub record Media : Type 0 where
  pub id : String
  pub album_id : String
  pub user_id : Option String
  pub info : MediaInfo
  pub format : String
  pub storage_key : String
  pub thumb_key : Option String
  pub thumb_is_orig : Bool
  pub thumb_status : ThumbStatus
  pub file_size : ℕ
  pub thumb_size : Option ℕ
  pub position : ℤ
  pub created_at : ℕ
