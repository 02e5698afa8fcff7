-- ===== src/Examples/Data.antt =====
-- Rows and requests that the examples share.
use imghost.Prelude.{String, false, none, some, [], ◌∷◌}
use imghost.Prelude.Int.{ℤ, pos}
use imghost.Models.{User, Album, MediaInfo, Media, pending}
use imghost.Repository.{Db}
use imghost.Albums.{World}

abbrev pub owner : User
owner = record {
  id = "u1";
  username = "ann";
  email = "ann@example.org";
  password_hash = none;
  is_admin = false;
  suspended = false;
  quota_bytes = none;
  rate_limit_rpm = none;
  rate_limit_bph = none;
  created_at = 0;
  updated_at = 0;
}

abbrev pub album : Album
album = record {
  id = "a1";
  title = some "Holiday";
  user_id = some "u1";
  cover_media_id = some "m1";
  delete_token = some "token";
  created_at = 0;
  updated_at = 0;
  expires_at = some 100;
}

abbrev pub info : MediaInfo
info = record {
  filename_orig = "cat.png";
  media_type = "image";
  mime_type = "image/png";
  width = some 4;
  height = some 3;
  is_animated = false;
  codec_hint = none;
}

abbrev pub item : String → ℤ → Media
item id position = record {
  id = id;
  album_id = "a1";
  user_id = some "u1";
  info = info;
  format = "png";
  storage_key = id;
  thumb_key = none;
  thumb_is_orig = false;
  thumb_status = pending;
  file_size = 10;
  thumb_size = none;
  position = position;
  created_at = 0;
}

abbrev pub db : Db
db = record { albums = album ∷ []; media = item "m1" (pos 1000) ∷ item "m2" (pos 2000) ∷ [] }

abbrev pub world : World
world = record { db = db; storage_deletes = []; events = [] }
