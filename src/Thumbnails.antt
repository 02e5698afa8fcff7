-- ===== src/Thumbnails.antt =====
-- src/imghost/service.py, `generate_thumbnail` and what it makes of an exception.
pub mod Words
pub mod States
pub mod Objects
use Prim.Native.Char.{code}
use imghost.Prelude.{
  ℕ, ◌+◌, String, Bool, true, false, not, Option, none, some, List, [], ◌∷◌, ◌&&◌, ◌||◌, leb, ltb,
  ◌==◌, str_eq, if◌then◌else◌,
}
use Prim.Native.String.{◌++◌ as append}
use imghost.Prelude.Dict.{update}
use imghost.Http.{Exception, Result, ok, raise, lookup_error}
use imghost.Models.{Media, ThumbStatus, pending, processing, done, failed}
use imghost.Repository.{Db, get_media, update_media_thumbnail_state}
use imghost.Tasks.{
  TaskRunResult, skipped, succeeded, retry_scheduled, failed_permanent, failed_exhausted,
}
use imghost.Thumbnails.Words.{lower, contains}

-- An exception: whether it is a `ValueError`, and its text.
pub record Failure : Type 0 where
  pub is_value_error : Bool
  pub message : String

pub data Reason : Type 0 where
  processor_missing metadata_extract_failed thumbnail_generate_failed thumbnail_store_failed :
      Reason
  storage_read_failed repository_update_failed : Reason

abbrev pub reason_text : Reason → String
reason_text processor_missing = "processor_missing"
reason_text metadata_extract_failed = "metadata_extract_failed"
reason_text thumbnail_generate_failed = "thumbnail_generate_failed"
reason_text thumbnail_store_failed = "thumbnail_store_failed"
reason_text storage_read_failed = "storage_read_failed"
reason_text repository_update_failed = "repository_update_failed"

unfoldable pub thumbnail_failure_reason : Failure → Reason
unfolding lower contains
thumbnail_failure_reason exc =
    let message = lower exc.message in
    let has = λ (needle : String). contains needle message in
    if exc.is_value_error && str_eq exc.message "processor_missing"
    then processor_missing
    else if has "extract" && has "metadata"
    then metadata_extract_failed
    else if has "thumbnail" && not (has "cleanup")
    then thumbnail_generate_failed
    else if has "store" || has "write thumb" || has "thumbnail_store"
    then thumbnail_store_failed
    else if has "read source" || has "storage read" || has "get_bytes"
    then storage_read_failed
    else if has "update media" || has "repository update"
    then repository_update_failed
    else thumbnail_generate_failed

unfoldable pub thumbnail_failure_is_retryable : Reason → Bool
thumbnail_failure_is_retryable storage_read_failed = true
thumbnail_failure_is_retryable thumbnail_store_failed = true
thumbnail_failure_is_retryable repository_update_failed = true
thumbnail_failure_is_retryable thumbnail_generate_failed = true
thumbnail_failure_is_retryable _ = false

-- What a processor makes.
pub record Thumbnail : Type 0 where
  pub thumb_is_orig : Bool
  pub format : String
  pub size : Option ℕ

-- What the calls of one run come to that leave this program: reading the source and making the
-- thumbnail (from `get_processor` on), the `put`, the connection for the update to `done`, the
-- `delete`, and the connection for the last update.
pub record Calls : Type 0 where
  pub produced : Thumbnail × Option Failure
  pub put_fails : Option Failure
  pub done_update_fails : Option Failure
  pub delete_fails : Bool
  pub last_update_fails : Option Exception

-- The database, and which keys storage holds.
pub record Shelf : Type 0 where
  pub db : Db
  pub stored : String → Bool

-- The columns that a run writes.
pub record ThumbColumns : Type 0 where
  pub thumb_key : Option String
  pub thumb_is_orig : Bool
  pub thumb_status : ThumbStatus
  pub thumb_size : Option ℕ

unfoldable pub write_columns : String → ThumbColumns → Db → Result Media × Db
unfolding update_media_thumbnail_state
write_columns media_id c db =
    update_media_thumbnail_state db media_id c.thumb_key c.thumb_is_orig c.thumb_status c.thumb_size

abbrev pub cleared : ThumbStatus → ThumbColumns
cleared status = record {
  thumb_key = none;
  thumb_is_orig = false;
  thumb_status = status;
  thumb_size = none;
}

-- f"thumbnails/{media.id}.{thumb_ext}"
unfoldable pub thumb_key_of : Media → Thumbnail → String
thumb_key_of media thumbnail =
    let thumb_ext = if str_eq thumbnail.format "jpeg" then "jpg" else thumbnail.format in
    append "thumbnails/" (append media.id (append "." thumb_ext))

unfoldable pub finished : Media → Thumbnail → ThumbColumns
unfolding thumb_key_of
finished media thumbnail =
    if thumbnail.thumb_is_orig
    then record {
      thumb_key = none;
      thumb_is_orig = true;
      thumb_status = done;
      thumb_size = some media.file_size;
    }
    else record {
      thumb_key = some (thumb_key_of media thumbnail);
      thumb_is_orig = false;
      thumb_status = done;
      thumb_size = thumbnail.size;
    }

-- The object that was written is deleted, if storage can.
abbrev pub discard : Bool → Option String → (String → Bool) → String → Bool
discard delete_fails none stored = stored
discard delete_fails (some key) stored = if delete_fails then stored else update stored key false

-- The `except Exception` of `generate_thumbnail`.
unfoldable pub recover :
    Calls
    → (media_id : String) (attempt max_attempts : ℕ) (written_thumb_key : Option String) → Failure
    → Shelf
    → Result TaskRunResult × Shelf
unfolding thumbnail_failure_reason thumbnail_failure_is_retryable write_columns
recover calls media_id attempt max_attempts written_thumb_key exc s =
    let reason = thumbnail_failure_reason exc in
    let retryable = thumbnail_failure_is_retryable reason in
    let stored = discard calls.delete_fails written_thumb_key s.stored in
    let (to_pending, pending_db) = write_columns media_id (cleared pending) s.db in
    let (to_failed, failed_db) = write_columns media_id (cleared failed) s.db in
    let scheduled : TaskRunResult = record {
      state = retry_scheduled;
      reason = some (reason_text reason);
      retryable = true;
    } in
    let over : TaskRunResult = record {
      state = if retryable then failed_exhausted else failed_permanent;
      reason = some (reason_text reason);
      retryable = false;
    } in
    if retryable && ltb attempt max_attempts
    then (elim calls.last_update_fails [
      | some e ↦ (raise e, record s { stored = stored })
      | none ↦ elim to_pending [
        | raise e ↦ (raise e, record s { stored = stored })
        | ok _ ↦ (ok scheduled, record { db = pending_db; stored = stored })
      ]
    ])
    else (elim calls.last_update_fails [
      | some e ↦ (ok over, record s { stored = stored })
      | none ↦ (ok over, record { db = failed_db; stored = stored })
    ])

-- `LookupError("media_not_found")`
abbrev pub row_lost : Failure
row_lost = record { is_value_error = false; message = "media_not_found" }

-- The last statements of the `try`: the update to `done`.
unfoldable pub finish :
    Calls → Media → (attempt max_attempts : ℕ) → Thumbnail → Shelf → Result TaskRunResult × Shelf
unfolding finished recover write_columns
finish calls media attempt max_attempts thumbnail s =
    let columns = finished media thumbnail in
    let (written, db) = write_columns media.id columns s.db in
    let success : TaskRunResult = record { state = succeeded; reason = none; retryable = false } in
    elim calls.done_update_fails [
      | some exc ↦ recover calls media.id attempt max_attempts columns.thumb_key exc s
      | none ↦ elim written [
        | raise _ ↦ recover calls media.id attempt max_attempts columns.thumb_key row_lost s
        | ok _ ↦ (ok success, record s { db = db })
      ]
    ]

-- The `try`, up to there.
unfoldable pub produce :
    Calls → Media → (attempt max_attempts : ℕ) → Shelf → Result TaskRunResult × Shelf
unfolding finish recover thumb_key_of
produce calls media attempt max_attempts s = elim calls.produced.1 [
  | some exc ↦ recover calls media.id attempt max_attempts none exc s
  | none ↦
      let thumbnail = calls.produced.0 in
      if thumbnail.thumb_is_orig
      then finish calls media attempt max_attempts thumbnail s
      else (elim calls.put_fails [
        | some exc ↦ recover calls media.id attempt max_attempts none exc s
        | none ↦
            finish calls media attempt max_attempts thumbnail
              (record s { stored = update s.stored (thumb_key_of media thumbnail) true })
      ])
]

-- The update to `processing`.
abbrev pub begun : Media → ThumbColumns
begun media = record {
  thumb_key = media.thumb_key;
  thumb_is_orig = media.thumb_is_orig;
  thumb_status = processing;
  thumb_size = media.thumb_size;
}

abbrev pub is_done : ThumbStatus → Bool
is_done done = true
is_done _ = false

abbrev pub skip : String → TaskRunResult
skip why = record { state = skipped; reason = some why; retryable = false }

unfoldable pub generate_thumbnail :
    Calls → (media_id : String) (attempt max_attempts : ℕ) → Shelf → Result TaskRunResult × Shelf
unfolding produce get_media write_columns
generate_thumbnail calls media_id attempt max_attempts s = elim (get_media s.db media_id) [
  | none ↦ (ok (skip "missing_media"), s)
  | some media ↦
      let (written, db) = write_columns media.id (begun media) s.db in
      let rest = produce calls media attempt max_attempts (record s { db = db }) in
      if is_done media.thumb_status
      then (ok (skip "already_done"), s)
      else elim written [ raise e ↦ (raise e, s) | ok _ ↦ rest ]
]
