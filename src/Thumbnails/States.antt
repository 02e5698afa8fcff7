-- ===== src/Thumbnails/States.antt =====
-- service.py, `generate_thumbnail`: the state in which a run leaves the media.
use mathlib.Core.Path.{subst}
use imghost.Prelude.{
  ◌≡◌, ◌≢◌, refl, ap, ◌∙◌, String, true, false, Option, none, some, List, [], ◌∷◌, ℕ, ◌<◌, arith,
  ltb, Bool-cases, Option-cases, find, eq_iff, inl, inr,
}
use imghost.Http.{ok}
use imghost.Http.Rules.{Ensures, returns_of_Ensures}
use imghost.Models.{Media, ThumbStatus, pending, processing, done, failed}
use imghost.Repository.{Db, get_media, has_media_id}
use imghost.Repository.Thumbs.{update_media_thumbnail_state-found}
use imghost.Tasks.{
  TaskState, TaskRunResult, skipped, succeeded, retry_scheduled, failed_permanent, failed_exhausted,
}
use imghost.Thumbnails.{
  Calls, Failure, Shelf, Thumbnail, ThumbColumns, write_columns, cleared, recover, finish, finished,
  produce, skip, begun, generate_thumbnail, is_done, thumbnail_failure_reason,
  thumbnail_failure_is_retryable,
}

-- What a result says of the media.
abbrev pub status_of : TaskState → ThumbStatus
status_of succeeded = done
status_of retry_scheduled = pending
status_of failed_permanent = failed
status_of failed_exhausted = failed
status_of skipped = done
status_of _ = processing

abbrev pub HasStatus : Db → String → ThumbStatus → Type 0
HasStatus db media_id status =
    (m : Media) × (get_media db media_id ≡ some m) × (m.thumb_status ≡ status)

write_columns-found :
    (media_id : String) (c : ThumbColumns) (db : Db) {m : Media}
    → get_media db media_id ≡ some m
    → (m' : Media) × ((write_columns media_id c db).0 ≡ ok m')
      × HasStatus (write_columns media_id c db).1 media_id c.thumb_status
unfolding write_columns
write_columns-found media_id c db {m} h =
    let (db', e, found) =
      update_media_thumbnail_state-found db media_id c.thumb_key c.thumb_is_orig c.thumb_status
        c.thumb_size {m = m} h in
    (_, ap (λ r. r.0) e, rw e (_, found, refl))

module _ (calls : Calls) (media_id : String) (attempt max_attempts : ℕ) where
  -- The media is in the state that the result tells, and a retry is told only where an attempt is
  -- left; that state is not `processing`.
  abbrev Told : TaskRunResult → Shelf → Type 0
  Told result s =
      HasStatus s.db media_id (status_of result.state)
      × (status_of result.state ≢ processing)
      × (result.state ≡ retry_scheduled → attempt < max_attempts)

  recover-tells :
      (written : Option String) (exc : Failure) (s : Shelf) {m : Media}
      → get_media s.db media_id ≡ some m
      → calls.last_update_fails ≡ none
      → Ensures Told (λ _ _. ⊥) (recover calls media_id attempt max_attempts written exc s)
  unfolding recover
  recover-tells written exc s {m} here works =
      let (_, p, pending_row) = write_columns-found media_id (cleared pending) s.db here in
      let (_, f, failed_row) = write_columns-found media_id (cleared failed) s.db here in
      elim (Bool-cases (thumbnail_failure_is_retryable (thumbnail_failure_reason exc))) [
        | inl r ↦ elim (Bool-cases (ltb attempt max_attempts)) [
          | inl l ↦ rw works (rw l (rw r (rw p (pending_row, λ e. cc, λ _. ground arith))))
          | inr l ↦ rw works (rw l (rw r (failed_row, λ e. cc, λ e. cc)))
        ]
        | inr r ↦ rw works (rw r (failed_row, λ e. cc, λ e. cc))
      ]

finished-done :
    (media : Media) (thumbnail : Thumbnail) → (finished media thumbnail).thumb_status ≡ done
unfolding finished
finished-done media thumbnail = elim (Bool-cases thumbnail.thumb_is_orig) [
  | inl p ↦ rw p refl
  | inr p ↦ rw p refl
]

-- A row that is found by an id has that id.
get_media-id :
    (db : Db) (media_id : String) {m : Media} → get_media db media_id ≡ some m → m.id ≡ media_id
unfolding get_media find
get_media-id db media_id {m} = go db.media
  where
    go : (rows : List Media) → find (has_media_id media_id) rows ≡ some m → m.id ≡ media_id
    go [] h = cc
    go (r ∷ rows) h = ground (arith, eq_iff r.id media_id, go rows)

module _ (calls : Calls) (media : Media) (attempt max_attempts : ℕ) where
  finish-tells :
      (thumbnail : Thumbnail) (s : Shelf) {m : Media}
      → get_media s.db media.id ≡ some m
      → calls.last_update_fails ≡ none
      → Ensures
          (Told calls media.id attempt max_attempts)
          (λ _ _. ⊥)
          (finish calls media attempt max_attempts thumbnail s)
  unfolding finish
  finish-tells thumbnail s {m} here works =
      let (_, d, done_row) = write_columns-found media.id (finished media thumbnail) s.db here in
      elim (Option-cases calls.done_update_fails) [
        | inl e ↦
            rw (e, finish)
              (rw d (
                let (m', found, status) = done_row in
                    (m', found, status ∙ finished-done media thumbnail),
                λ e. cc,
                λ e. cc,
              ))
        | inr (exc, e) ↦
            rw (e, finish) (recover-tells calls media.id attempt max_attempts _ exc s here works)
      ]

  produce-tells :
      (s : Shelf) {m : Media}
      → get_media s.db media.id ≡ some m
      → calls.last_update_fails ≡ none
      → Ensures
          (Told calls media.id attempt max_attempts)
          (λ _ _. ⊥)
          (produce calls media attempt max_attempts s)
  unfolding produce
  produce-tells s here works = elim (Option-cases calls.produced.1) [
    | inr (exc, e) ↦
        simp (e, produce) (recover-tells calls media.id attempt max_attempts none exc s here works)
    | inl e ↦ elim (Bool-cases calls.produced.0.thumb_is_orig) [
      | inl o ↦ simp (e, produce) (simp o (finish-tells calls.produced.0 s here works))
      | inr o ↦ elim (Option-cases calls.put_fails) [
        | inr (exc, f) ↦
            simp (e, produce)
              (simp o
                (simp f (recover-tells calls media.id attempt max_attempts none exc s here works)))
        | inl f ↦ simp (e, produce) (simp o (simp f (finish-tells calls.produced.0 _ here works)))
      ]
    ]
  ]

is_done-done : (status : ThumbStatus) → is_done status ≡ true → status ≡ done
is_done-done pending h = cc
is_done-done processing h = cc
is_done-done done h = refl
is_done-done failed h = cc

module _ (calls : Calls) (media : Media) (attempt max_attempts : ℕ) (s : Shelf) where
  generate-produce :
      get_media s.db media.id ≡ some media
      → is_done media.thumb_status ≡ false
      → generate_thumbnail calls media.id attempt max_attempts s
        ≡ produce calls media attempt max_attempts
            (record s { db = (write_columns media.id (begun media) s.db).1 })
  unfolding generate_thumbnail
  generate-produce here busy =
      let (_, w, _) = write_columns-found media.id (begun media) s.db here in
      simp (here, generate_thumbnail) (simp busy (simp w refl))

  generate-skips :
      get_media s.db media.id ≡ some media
      → is_done media.thumb_status ≡ true
      → generate_thumbnail calls media.id attempt max_attempts s ≡ (ok (skip "already_done"), s)
  unfolding generate_thumbnail
  generate-skips here finished = simp (here, generate_thumbnail) (simp finished refl)

generate-tells :
    (calls : Calls) (media_id : String) (attempt max_attempts : ℕ) (s : Shelf) {media : Media}
    → get_media s.db media_id ≡ some media
    → calls.last_update_fails ≡ none
    → Ensures
        (Told calls media_id attempt max_attempts)
        (λ _ _. ⊥)
        (generate_thumbnail calls media_id attempt max_attempts s)
generate-tells calls media_id attempt max_attempts s {media} here works =
    subst
      (λ id.
        Ensures (Told calls id attempt max_attempts) (λ _ _. ⊥)
          (generate_thumbnail calls id attempt max_attempts s))
      (get_media-id s.db media_id here)
      (at_row (ap (get_media s.db) (get_media-id s.db media_id here) ∙ here))
  where
    at_row :
        get_media s.db media.id ≡ some media
        → Ensures
            (Told calls media.id attempt max_attempts)
            (λ _ _. ⊥)
            (generate_thumbnail calls media.id attempt max_attempts s)
    at_row found = elim (Bool-cases (is_done media.thumb_status)) [
      | inl d ↦
          rw (generate-skips calls media attempt max_attempts s found d)
            ((media, found, is_done-done media.thumb_status d), λ e. cc, λ e. cc)
      | inr d ↦ rw (generate-produce calls media attempt max_attempts s found d) (
          let (_, _, row) = write_columns-found media.id (begun media) s.db found in
          produce-tells calls media attempt max_attempts _ row.1 works)
    ]

-- A run on a media that is there, when the database takes the last update, returns, and leaves the
-- media in the state that the result tells the queue: `done` after a success (or when it was done
-- before), `pending` when a retry is due, which is so only while an attempt is left, and `failed`
-- after a failure that is the last. The result is one of these, so that the media is never left at
-- `processing`.
pub generate_thumbnail-settles :
    (calls : Calls) (media_id : String) (attempt max_attempts : ℕ) (s : Shelf) {media : Media}
    → get_media s.db media_id ≡ some media
    → calls.last_update_fails ≡ none
    → (result : TaskRunResult) × (s' : Shelf) × (generate_thumbnail calls media_id attempt
          max_attempts s
        ≡ (ok result, s'))
      × HasStatus s'.db media_id (status_of result.state)
      × (status_of result.state ≢ processing)
      × (result.state ≡ retry_scheduled → attempt < max_attempts)
generate_thumbnail-settles calls media_id attempt max_attempts s here works =
    let (result, s', e, told) =
      returns_of_Ensures _ _ (generate-tells calls media_id attempt max_attempts s here works) in
    (result, s', e, told.0, told.1, told.2)
