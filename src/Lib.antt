-- ===== src/Lib.antt =====
-- imghost is a server for albums of images and videos, written in Python. This library models the
-- parts of it that decide: who may do what to an album, how the items of an album are ordered, what
-- an upload leaves when a step of it fails, how often uploads and logins are let in, who may sign
-- in and what a removed account takes with it, which settings are in force, how tasks are run and
-- retried, what becomes of a thumbnail, and how expired albums are cleaned up.
--
-- The parts and their files:
--   * Prelude: what the other modules share. Boolean tests, lists over the native numbers,
--     integers, sorting by a key (the ORDER BY of SQL), dicts as functions of their keys.
--   * Http: errors as values. A method of an object is a function of the object's state that
--     returns a result together with the state it leaves, whether or not it raises; Http/Rules has
--     a rule for each way in which such a method goes on.
--   * Text: the methods of `str` that the code calls.
--   * Models: the records of imghost/models.py.
--   * Redis: imghost/redis_support.py, the calls of a client and the fallback of the limiters.
--     RateLimits/WithRedis and AuthRateLimits/WithRedis are the limiters that keep their counters
--     there.
--   * RateLimits: imghost/rate_limits.py, the limiter of uploads that keeps its windows in memory.
--     RateLimits/Window says what pruning and the checks come to, RateLimits/Runs defines runs of
--     calls, RateLimits/WindowBound is about the accepted calls of a run, RateLimits/Checks tells
--     what a refused call leaves and what the hourly check sees.
--   * AuthRateLimits: imghost/auth_rate_limits.py, the limiter in memory. AuthRateLimits/Lockout is
--     about the lock of an account, AuthRateLimits/Locks about the dict of locks.
--   * Repository: imghost/repository_media.py, with the tables of db/init/001-init.sql. A statement
--     of SQL is a function of the rows. Repository/Positions is about inserting,
--     Repository/Rebalance about new positions and the renumbering of imghost/service.py,
--     Repository/Deletion, Repository/ItemDeletion and Repository/NewAlbum about what is deleted,
--     Repository/Thumbs about the columns of a thumbnail.
--   * Albums: imghost/service.py, the operations on albums, over the database of Repository, the
--     keys that storage is asked to delete and the events that are emitted. Albums/Access is about
--     who is let in, Albums/Reorder about `reorder_album`, Albums/Update about a refused update,
--     Albums/Deletion about `delete_album`, Albums/ItemDeletion about `delete_media`. Albums/Expiry
--     is `admin_update_album`.
--   * Users: imghost/repository_users.py, the tables of users and of what belongs to them.
--     Users/Rows is about rows that are inserted.
--   * Accounts: imghost/account_service.py, over the tables of Users. Accounts/Support holds
--     passwords and labels, Accounts/Changes the changes of an account and its deletion,
--     Accounts/OAuthLogin the accounts of other providers, Accounts/Reauth the tokens that confirm
--     a deletion; Accounts/Logins is about signing in, Accounts/Links about links, Accounts/Removal
--     about `delete_user_by_id`.
--   * Config: imghost/runtime_config.py, the specs and what is in force of one. Config/Table holds
--     the reading of all and `update_values`, Config/Effect is about one value, Config/Updates
--     about the table, Config/Writes about the loop over the updates, Config/InForce about the
--     whole.
--   * Tokens: the signed tokens of imghost/sessions.py, imghost/sharex_delete.py and
--     imghost/account_delete_reauth.py; Tokens/Signed is about which values are read, and as what.
--     Ids: imghost/ids.py.
--   * Sessions: imghost/sessions.py. Sessions/Cookie and Sessions/RedisBacked are the two back
--     ends, Sessions/Live is about tokens, Sessions/Ends about sessions in Redis.
--   * Sharex: the deletion by a URL, in imghost/sharex_delete.py, imghost/repository_media.py and
--     imghost/web/pages.py. Sharex/Tokens holds the tokens, Sharex/Pages the handlers, which call
--     `delete_album` of Albums; Sharex/Once, Sharex/Confirmations and Sharex/Submit are about a
--     confirmation that is sent again.
--   * Auth: imghost/web/auth_context.py, who sends a request, over the tables of Users, the limiter
--     of AuthRateLimits and a back end of Sessions. Auth/Admission is about who is let in.
--   * Uploads: imghost/service.py, `upload` with what it calls. Uploads/Upload holds the steps in
--     their order, Uploads/Prepared and Uploads/Filled what each step leaves, Uploads/Rollback what
--     the whole leaves; Uploads/Reading is about the size, Uploads/Quotas about the quotas.
--   * Thumbnails: imghost/service.py, `generate_thumbnail`. Thumbnails/Words sorts failures by
--     their messages, Thumbnails/States is about the state of a media, Thumbnails/Objects about
--     storage.
--   * Cleanup: imghost/service.py, `prune_expired_albums`. Cleanup/DryRun compares a dry run with a
--     run.
--   * Scheduler: imghost/scheduler.py, the tick. Scheduler/Intervals is about its times.
--   * Tasks: imghost/tasks.py, the task queues. Tasks/Sync and Tasks/Async are the queues of one
--     process, Tasks/Attempts counts the runs of a task, Tasks/Drain is about emptying a queue,
--     Tasks/Agreement compares the two queues, Tasks/Stopping is about `stop`. Tasks/WithRedis is
--     the queue in Redis: Worker its enqueueing and its turns, Status the lengths of its lists,
--     Trace what it records, Agreement compares it with the synchronous queue. A worker has
--     `max_attempts` turns for a task there.
--   * Storage: imghost/storage.py, byte ranges and the stream of the local back end.
--     Storage/Streams is about what is sent.
--   * Examples: the theorems at concrete inputs, and runs of the code.
--
-- The services call the repository by its functions (Albums, Uploads, Thumbnails and Cleanup use
-- Repository; Cleanup and Uploads use the world of Albums), and raise what Http names. What a
-- processor, the storage, Redis or the clock answers during a call is an argument of the model;
-- each call may fail where the code expects it to. The limiters and the queues have states of their
-- own. Handlers of tasks are functions of a world that the queues do not look into. bcrypt, SHA-256
-- and the tables of Unicode behind `str.lower` are a parameter of Accounts, the environment, `int`
-- and the JSON codec one of Config, Redis, HMAC, base64 and JSON one of Sessions and of Sharex; a
-- theorem that relies on what they do has it as a hypothesis.
--
-- Bounds and fuel: numbers are unbounded, as Python's are; the BIGINT columns are not checked for
-- overflow. Times are whole ticks of a clock, and `now` is what the clock says during a call. The
-- loop of the synchronous queue has one round for each attempt that is left, and one more; a worker
-- of the asynchronous queue is given a number of turns, one for each attempt of each waiting task;
-- the stream of a file has one round for each byte, as each chunk has one or more. One call runs to
-- its end before another starts, so interleavings inside a call are not modelled; runs are
-- sequences of whole calls. Telemetry is taken to be present.
--
-- Not modelled: the rest of the web application and its templates, the command line, the telemetry,
-- the media processors, the HTTP clients of OAuth, archives, the text of a Range header, the back
-- ends of storage, and the pages and sums of the views for administrators. The values of the
-- runtime configuration are arguments of the limiters and of the uploads.
pub mod Prelude
pub mod Http
pub mod Text
pub mod Models
pub mod Redis
pub mod RateLimits
pub mod AuthRateLimits
pub mod Repository
pub mod Albums
pub mod Users
pub mod Accounts
pub mod Config
pub mod Tokens
pub mod Ids
pub mod Sessions
pub mod Sharex
pub mod Auth
pub mod Tasks
pub mod Thumbnails
pub mod Uploads
pub mod Cleanup
pub mod Scheduler
pub mod Storage
pub mod Examples
