-- ===== src/Worker/Job.antt =====
-- `Heartbeat._run` and `process_job` of worker.py, from the start of the heartbeat on. What the
-- storage, the control plane, the file system and the clock answer during one claim is given; times
-- are whole milliseconds.
pub mod Lease
pub mod Outcome
pub mod Completion
pub mod Rejection
mod Tests
use open_video_trans.Common.{
  ℕ, String, Bool, true, false, not, ◌||◌, Option, none, some, List, [], ◌∷◌, ◌++◌, leb, ltb,
  if◌then◌else◌, Result, ok, err, ◌>>=◌,
}
use open_video_trans.Schemas.{
  ErrorCode, upload_too_large, free_pool_exhausted, processing_timeout, internal_error,
}
use open_video_trans.Worker.Admission.{
  WorkerConfig, AdmitError, source_rejected, admit_failed, SourceFile, JobModes, admit_source,
}

-- How the control plane answers one renewal: StaleClaimError, or a transient failure.
pub data Answer : Type 0 where
  renewed stale blip : Answer

-- A tick of the heartbeat: the time since its start, and the answer if it asks.
pub record Tick : Type 0 where
  pub at : ℕ
  pub answer : Answer

-- `_run` over the ticks before `stop()`: the times of the renewals that it sends, and whether it
-- has called `on_lost`.
pub record Renewals : Type 0 where
  pub sent : List ℕ
  pub lost : Bool

abbrev pub sent_first : ℕ → Renewals → Renewals
sent_first t r = record r { sent = t ∷ r.sent }

abbrev pub past : Option ℕ → ℕ → Bool
past none t = false
past (some max_total) t = leb max_total t

abbrev pub after_answer : Answer → Renewals → Renewals
after_answer stale rest = record { sent = []; lost = true }
after_answer renewed rest = rest
after_answer blip rest = rest

unfoldable pub heartbeat_run : Option ℕ → List Tick → Renewals
heartbeat_run max_total [] = record { sent = []; lost = false }
heartbeat_run max_total (t ∷ ticks) =
    let rest = heartbeat_run max_total ticks in
    if past max_total t.at
    then record { sent = []; lost = true }
    else sent_first t.at (after_answer t.answer rest)

-- What `produce` raises: LanguageError with its code, FreePoolExhausted, anything else.
pub data ProduceError : Type 0 where
  language_rejected : ErrorCode → ProduceError
  pool_exhausted produce_failed : ProduceError

abbrev pub Artifacts : Type 0
Artifacts = List (String × String)

-- The answers during one claim. `head` is the size that storage.head answers, `body` what the
-- bounded download meets (none: a transport error) and `file` the file that it writes.
pub record Answers : Type 0 where
  pub head : Result (Unit {0}) (Option ℕ)
  pub body : Option ℕ
  pub written : Bool
  pub file : SourceFile
  pub produced : Result ProduceError Artifacts
  pub ticks : List Tick
  pub elapsed : ℕ
  pub fail_recorded : Bool
  pub complete_recorded : Bool
  pub delete_done : Bool

-- What the job does to the world outside, in order.
pub data Call : Type 0 where
  failed : ErrorCode → Bool → Call
  completed : Artifacts → Bool → Call
  source_deleted : Bool → Call
  heartbeat_stopped workdir_removed : Call

module _ (config : WorkerConfig) (job : JobModes) (a : Answers) where
  unfoldable pub precheck_source_size : Result AdmitError (Unit {0})
  precheck_source_size = elim a.head [
    | err _ ↦ err admit_failed
    | ok none ↦ ok tt
    | ok (some size) ↦
        if ltb config.max_upload_bytes size then err (source_rejected upload_too_large) else ok tt
  ]

  -- `storage.download(…, max_bytes=config.max_upload_bytes)` reads one byte beyond the cap at most.
  unfoldable pub download_source : Result AdmitError SourceFile
  download_source = elim a.body [
    | none ↦ err admit_failed
    | some size ↦
        if ltb config.max_upload_bytes size
        then err (source_rejected upload_too_large)
        else if a.written
        then ok (record a.file { size = size })
        else err admit_failed
  ]

  unfoldable pub fetch_source : Result AdmitError (Unit {0})
  fetch_source = do
    checked ← precheck_source_size
    file ← download_source
    admit_source file job config

  unfoldable pub report_fail : ErrorCode → List Call
  report_fail code = failed code a.fail_recorded ∷ []

  unfoldable pub reject_source : ErrorCode → List Call
  reject_source code =
      report_fail code ++ (if a.fail_recorded then source_deleted a.delete_done ∷ [] else [])

  abbrev pub on_fetch_error : AdmitError → List Call
  on_fetch_error (source_rejected code) = reject_source code
  on_fetch_error admit_failed = report_fail internal_error

  abbrev pub on_produce_error : ProduceError → List Call
  on_produce_error (language_rejected code) = report_fail code
  on_produce_error pool_exhausted = report_fail free_pool_exhausted
  on_produce_error produce_failed = report_fail internal_error

  abbrev pub lease_lost : Bool
  lease_lost = (heartbeat_run (some config.job_hard_timeout) a.ticks).lost

  unfoldable pub finish_job : Artifacts → List Call
  finish_job artifacts =
      if leb config.job_hard_timeout a.elapsed || lease_lost
      then report_fail processing_timeout
      else completed artifacts a.complete_recorded ∷ []

  -- The body of the outer `try`.
  unfoldable pub job_body : List Call
  job_body = elim fetch_source [
    | err e ↦ on_fetch_error e
    | ok _ ↦ elim a.produced [ err e ↦ on_produce_error e | ok artifacts ↦ finish_job artifacts ]
  ]

  unfoldable pub process_job : List Call
  process_job = job_body ++ heartbeat_stopped ∷ workdir_removed ∷ []
