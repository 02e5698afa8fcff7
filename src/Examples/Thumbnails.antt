-- ===== src/Examples/Thumbnails.antt =====
-- A thumbnail whose object cannot be written, and one that is made at the last attempt.
use imghost.Prelude.{◌≡◌, ◌≢◌, ◌<◌, refl, true, false, none, some}
use imghost.Prelude.Int.{pos}
use imghost.Http.{Result, ok}
use imghost.Models.{processing}
use imghost.Repository.{get_media}
use imghost.Tasks.{TaskRunResult, retry_scheduled}
use imghost.Thumbnails.{
  Calls, Shelf, generate_thumbnail, thumbnail_failure_reason, thumbnail_store_failed,
  storage_read_failed,
}
use imghost.Thumbnails.States.{HasStatus, status_of, generate_thumbnail-settles}
use imghost.Examples.Data.{db, item}

abbrev unwritable : Calls
unwritable = record {
  produced = (record { thumb_is_orig = false; format = "jpeg"; size = some 3 }, none);
  put_fails = some (record { is_value_error = false; message = "Write thumb failed" });
  done_update_fails = none;
  delete_fails = false;
  last_update_fails = none;
}

abbrev shelf : Shelf
shelf = record { db = db; stored = λ _. false }

store_failure_is_told :
    thumbnail_failure_reason (record { is_value_error = false; message = "Write thumb failed" })
    ≡ thumbnail_store_failed
unfolding thumbnail_failure_reason
store_failure_is_told = refl

read_failure_is_told :
    thumbnail_failure_reason
      (record { is_value_error = false; message = "GET_BYTES: storage read timed out" })
    ≡ storage_read_failed
unfolding thumbnail_failure_reason
read_failure_is_told = refl

abbrev after : Result TaskRunResult × Shelf
after = generate_thumbnail unwritable "m1" 1 3 shelf

abbrev scheduled : TaskRunResult
scheduled = record {
  state = retry_scheduled;
  reason = some "thumbnail_store_failed";
  retryable = true;
}

retry_is_scheduled : generate_thumbnail unwritable "m1" 1 3 shelf ≡ (ok scheduled, after.1)
unfolding generate_thumbnail
retry_is_scheduled = refl

m1_is_there : get_media db "m1" ≡ some (item "m1" (pos 1000))
unfolding get_media
m1_is_there = refl

generate_thumbnail-settles_example :
    (result : TaskRunResult) × (s' : Shelf) × (generate_thumbnail unwritable "m1" 1 3 shelf
      ≡ (ok result, s'))
    × HasStatus s'.db "m1" (status_of result.state)
    × (status_of result.state ≢ processing)
    × (result.state ≡ retry_scheduled → 1 < 3)
generate_thumbnail-settles_example =
    generate_thumbnail-settles unwritable "m1" 1 3 shelf m1_is_there refl

abbrev full : Shelf
full = record { db = db; stored = λ _. true }

abbrev after_full : Result TaskRunResult × Shelf
after_full = generate_thumbnail unwritable "m1" 1 3 full
