-- ===== src/Lib.antt =====
-- Verification of the dubbing pipeline, a service that dubs uploaded videos: users submit jobs over an
-- HTTP interface, a policy accepts or refuses them, a scheduler orders the accepted jobs under caps
-- and hands them to the job queue, whose workers run them with models from a cache.
--
-- The parts and their files (paths from the root of the repository):
-- - Base: what all modules share: Boolean tests on native numbers, lists, integers, Python's texts as
--   lists of code points, and dictionaries as association lists with their laws.
-- - Jobs: Models is src/dubbing_pipeline/jobs/models.py, Store is `get`, `update`
--   and `list` of src/dubbing_pipeline/jobs/store_impl.py, Limits is src/dubbing_pipeline/jobs/limits.py, Policy is
--   src/dubbing_pipeline/jobs/policy.py (`evaluate_submission`, `evaluate_dispatch`).
-- - Scheduler: src/dubbing_pipeline/runtime/scheduler.py. State is the object and its constructor; Submit,
--   Ops, Dispatch and Phases are its methods, each under its own name (`phase` is the four steps
--   `acquire`, `count_in`, `count_out` and `give_back`, of which the outer two are outside the lock;
--   `stop` is `request_stop`, `_dispatch_loop` is one round, `dispatch`). The heap is a list in dispatch
--   order, which is what `heapq` shows of it. World is the step relation of the calls of all threads,
--   between which any others may come; between the round that takes a record and
--   `_enqueue_one` other calls may come.
-- - Circuit: src/dubbing_pipeline/utils/circuit.py, method by method.
-- - ModelCache: src/dubbing_pipeline/runtime/model_manager.py. A call that loads is two steps, since the
--   model is loaded outside the lock; Holders has the step relation.
-- - Access: src/dubbing_pipeline/security/visibility.py, src/dubbing_pipeline/api/access.py and the
--   sharing rules of src/dubbing_pipeline/security/policy.py. It reads jobs from the store of Jobs and
--   roles from the policy.
-- - Sessions: src/dubbing_pipeline/api/auth/refresh_tokens.py over the table `refresh_tokens` of
--   src/dubbing_pipeline/api/models.py. PyJWT and SHA-256 are the parameter `Jwt`.
-- - Fallback: src/dubbing_pipeline/queue/fallback_local_queue.py, the queue that stands in for Redis: a
--   scan of the job store submits to the scheduler, and the gate before a run reads the quotas of Jobs.
-- - QueueManager: src/dubbing_pipeline/queue/manager.py, which sends a submission to the queue in Redis or
--   to Fallback, and starts and stops the scan of the latter as Redis goes and comes.
-- - RateLimit: the token bucket of src/dubbing_pipeline/utils/ratelimit.py, in exact fractions of a
--   token.
-- - Smoothing: `smooth_speakers_in_scenes` of src/dubbing_pipeline/diarization/smoothing.py.
-- - Crypto: the container of src/dubbing_pipeline/security/crypto.py. Container is `encrypt_file` and
--   `decrypt_file`; Format is the format as a relation, Writing, Files, Fuel and Cutting are what the two
--   calls make of it. AES-GCM and the random nonces are parameters.
-- - Uploads: src/dubbing_pipeline/web/routes/uploads.py. Plan is the division into chunks, Part the part
--   file, Session `uploads_init` and `uploads_chunk`, Complete `uploads_complete`, which encrypts by
--   Crypto, History any calls on a session. SHA-256, the quota service and ffprobe are arguments.
-- - JobQueue: src/dubbing_pipeline/jobs/queue_impl.py. State is the queue with its methods, Workers the
--   rounds of the workers, the beginning and the end of a run, Calls any sequence of calls on one queue in
--   one process, Input the reading of the video, which decrypts by Crypto. The backend's gate and intake are parameters.
-- - Quotas: src/dubbing_pipeline/security/quotas.py where no Redis is there. Local is the reservations in
--   the process, Day any order of reservations, jobs made and releases, Submission `reserve_submit_jobs`,
--   which asks the policy of Jobs, Kept what it leaves reserved.
-- - Checkpoints: src/dubbing_pipeline/jobs/checkpoint.py, by which a job that starts again skips stages.
--   Stages is its functions, over the value that JSON gives back; History is any calls that write it.
-- - Chunker: src/dubbing_pipeline/streaming/chunker.py, the division of a sound track for streaming.
--
-- Times are whole milliseconds, in Sessions whole seconds and in
-- Chunker tenths of a millisecond, and the clock is an argument of what reads
-- it. Python's unbounded integers are ℤ where they may be negative, else ℕ. Four loops
-- run on fuel: the printing of a number, whose bound is the number itself, the two of Crypto, which
-- get a round for each byte of the input and one more, since each round reads a byte, and that of
-- Chunker, which gets a pass for each unit of time, since each pass moves on. Every other loop
-- is structural.
--
-- Not modelled: log, audit and metric lines; faults of the data base and of the disk; the Redis mutex
-- of the dispatcher; singletons and the start of threads; the stages that run models and ffmpeg; the
-- web interface but for the uploads; the Redis queue, drain and file access, which
-- are not covered yet.
pub mod Base
pub mod Jobs
pub mod Scheduler
pub mod Circuit
pub mod ModelCache
pub mod Access
pub mod Sessions
pub mod Fallback
pub mod RateLimit
pub mod Smoothing
pub mod QueueManager
pub mod Crypto
pub mod Uploads
pub mod JobQueue
pub mod Quotas
pub mod Checkpoints
pub mod Chunker
