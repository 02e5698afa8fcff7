-- ===== src/Examples/Uploads.antt =====
-- An upload into a new album, and one that is refused after its album was created.
use imghost.Prelude.{◌≡◌, ◌≢◌, ◌≤◌, refl, none, some, [], ◌∷◌, arith, keep, leb, if◌then◌else◌}
use imghost.Http.{Result, ok, raise, http, ◌>>=◌}
use imghost.Text.{opt_eq, truthy}
use imghost.Prelude.Int.{◌+ℤ◌, pos}
use imghost.Models.{Album, Media}
use imghost.Repository.{get_album}
use imghost.Repository.NewAlbum.{HasAlbums}
use imghost.RateLimits.{new_limiter, UploadLimits}
use imghost.Uploads.{
  UploadConfig, UploadRequest, UploadCalls, Sanitized, Server, read_bounded_upload,
  storage_bytes_for_media, is_of_user, fresh_album, fresh_media,
}
use imghost.Uploads.Upload.{upload}
use imghost.Uploads.Reading.{sum, content, read_bounded_upload-sum}
use imghost.Uploads.Rollback.{Added, upload-raises, upload-adds}
use imghost.Uploads.Quotas.{upload-within_server_quota, upload-within_user_quota}
use imghost.Examples.Data.{owner, db, info, world}

abbrev limits : UploadLimits
limits = record {
  rate_limit_user_rpm = 0;
  rate_limit_user_bph = 0;
  rate_limit_anon_rpm = 0;
  rate_limit_anon_bph = 0;
  rate_limit_global_anon_rpm = 0;
  rate_limit_global_anon_bph = 0;
}

abbrev config : UploadConfig
config = record {
  max_upload_bytes = 50;
  server_quota_bytes = 100;
  default_user_quota_bytes = 60;
  anon_expiry = 24;
  limits = limits;
}

abbrev request : UploadRequest
request = record {
  chunks = 20 ∷ 10 ∷ 0 ∷ [];
  album_id = none;
  title = some "Cats";
  user = some owner;
  source = "web";
  delete_token = none;
  rate_limit_key = none;
}

abbrev cat : Sanitized
cat = record { size = 25; format = "png"; info = info }

abbrev good : UploadCalls
good = record {
  sanitized = ok cat;
  put_fails = none;
  new_album_id = "a2";
  new_token = "t";
  new_media_id = "m3";
}

abbrev bad : UploadCalls
bad = record good { sanitized = raise (http 415 "Unsupported image format.") }

abbrev server : Server
server = record { world = world; storage_puts = []; limiter = new_limiter }

read_bounded_upload-sum_example : read_bounded_upload 50 0 (20 ∷ 10 ∷ 0 ∷ 9 ∷ []) ≡ (
    if leb (sum (content (20 ∷ 10 ∷ 0 ∷ 9 ∷ []))) 50
    then ok (sum (content (20 ∷ 10 ∷ 0 ∷ 9 ∷ [])))
    else raise (http 413 "Upload exceeds V1 size limit."))
read_bounded_upload-sum_example = read_bounded_upload-sum 50 (20 ∷ 10 ∷ 0 ∷ 9 ∷ [])

has_albums : HasAlbums db
unfolding get_album
has_albums = (λ e. cc, (λ e. cc, tt))

no_id_given : request.album_id ≢ some ""
no_id_given e = cc

abbrev refused : Result (Album × Media) × Server
refused = upload config bad 50 request server

is_refused :
    upload config bad 50 request server ≡ (raise (http 415 "Unsupported image format."), refused.1)
unfolding upload ◌>>=◌ opt_eq truthy ◌+ℤ◌
is_refused = refl

upload-raises_example : refused.1.world.db ≡ db
upload-raises_example = upload-raises config bad 50 request server has_albums no_id_given is_refused

abbrev accepted : Result (Album × Media) × Server
accepted = upload config good 50 request server

abbrev answer : Album × Media
answer = (
  fresh_album config good 50 request,
  record (fresh_media good 50 request "a2" cat) { position = pos 1000 },
)

is_accepted : upload config good 50 request server ≡ (ok answer, accepted.1)
unfolding upload ◌>>=◌ opt_eq truthy ◌+ℤ◌
is_accepted = refl

read_thirty : read_bounded_upload 50 0 (20 ∷ 10 ∷ 0 ∷ []) ≡ ok 30
unfolding read_bounded_upload
read_thirty = refl

upload-adds_example : Added config good 50 request db accepted.1.world.db
upload-adds_example = upload-adds config good 50 request server has_albums no_id_given is_accepted

upload-within_server_quota_example : storage_bytes_for_media accepted.1.world.db.media ≤ 100
upload-within_server_quota_example =
    upload-within_server_quota config good 50 request server cat 30 has_albums no_id_given
      is_accepted (omega arith) refl read_thirty (omega arith)

upload-within_user_quota_example :
    storage_bytes_for_media (keep (is_of_user owner) accepted.1.world.db.media) ≤ 60
upload-within_user_quota_example =
    upload-within_user_quota config good 50 request server owner cat 30 has_albums no_id_given
      is_accepted refl (omega arith) refl read_thirty (omega arith)
