-- ===== src/Worker/Job/Tests.antt =====
-- worker.py on four runs of a job.
use open_video_trans.Common.{
  ℕ, ◌≡◌, refl, ◌↔◌, Bool, true, false, some, [], ◌∷◌, ok, err, All, if◌then◌else◌,
}
use open_video_trans.Schemas.{ErrorCode, upload_too_large, free_pool_exhausted, processing_timeout}
use open_video_trans.Worker.Admission.{
  default_config, duration_cap_sec, source_rejected, JobModes, SourceFile, admit_source,
}
use open_video_trans.Worker.Job.{
  Tick, stale, blip, heartbeat_run, pool_exhausted, Artifacts, Answers, failed, completed,
  source_deleted, heartbeat_stopped, workdir_removed, precheck_source_size, download_source,
  fetch_source, report_fail, reject_source, finish_job, job_body, process_job,
}
use open_video_trans.Worker.Job.Lease.{Holds, kept_lease_iff}
use open_video_trans.Worker.Job.Completion.{completions, deletes, Completes, completed_iff}
use open_video_trans.Worker.Job.Rejection.{deletes_iff}

program : Unit {0}
unfolding duration_cap_sec admit_source heartbeat_run precheck_source_size download_source
    fetch_source report_fail reject_source finish_job job_body process_job
program = tt

abbrev job : JobModes
job = record { output_mode = "dub_only"; subtitle_delivery = "srt" }

abbrev clip : SourceFile
clip = record { size = 0; allowed_format = ok tt; duration_ms = ok 60_000; dimensions = ok tt }

abbrev tick : ℕ → Bool → Tick
tick t is_stale = record { at = t; answer = if is_stale then stale else blip }

abbrev artifacts : Artifacts
artifacts = ("video_key", "artifacts/j/1/output.mp4") ∷ []

abbrev good : Answers
good = record {
  head = ok (some 4000);
  body = some 4000;
  written = true;
  file = clip;
  produced = ok artifacts;
  ticks = tick 30_000 false ∷ tick 60_000 false ∷ [];
  elapsed = 70_000;
  fail_recorded = true;
  complete_recorded = false;
  delete_done = true;
}

good_run :
    process_job default_config job good
    ≡ completed artifacts false ∷ heartbeat_stopped ∷ workdir_removed ∷ []
unfolding program
good_run = refl

-- The object was swapped for a larger one after the HEAD.
abbrev swapped : Answers
swapped = record good { body = some 600_000_000 }

swapped_run :
    process_job default_config job swapped
    ≡ failed upload_too_large true ∷ source_deleted true ∷ heartbeat_stopped ∷ workdir_removed ∷ []
unfolding program
swapped_run = refl

stale_run :
    process_job default_config job (record good { ticks = tick 30_000 true ∷ [] })
    ≡ failed processing_timeout true ∷ heartbeat_stopped ∷ workdir_removed ∷ []
unfolding program
stale_run = refl

exhausted_run :
    process_job default_config job
      (record good { produced = err pool_exhausted; fail_recorded = false })
    ≡ failed free_pool_exhausted false ∷ heartbeat_stopped ∷ workdir_removed ∷ []
unfolding program
exhausted_run = refl

sent_before_stale :
    (heartbeat_run (some 100) (tick 30 false ∷ tick 60 true ∷ tick 90 false ∷ [])).sent
    ≡ 30 ∷ 60 ∷ []
unfolding program
sent_before_stale = refl

kept_lease_iff_example :
    ((heartbeat_run (some 90) (tick 30 false ∷ tick 60 true ∷ [])).lost ≡ false)
    ↔ All (Holds 90) (tick 30 false ∷ tick 60 true ∷ [])
kept_lease_iff_example = kept_lease_iff 90 (tick 30 false ∷ tick 60 true ∷ [])

completed_iff_example :
    (completions (process_job default_config job good) ≡ artifacts ∷ [])
    ↔ Completes default_config job good artifacts
completed_iff_example = completed_iff default_config job good artifacts

deletes_iff_example : (deletes (process_job default_config job swapped) ≡ true) ↔ (
    (code : ErrorCode) × (fetch_source default_config job swapped ≡ err (source_rejected code))
    × (swapped.fail_recorded ≡ true))
deletes_iff_example = deletes_iff default_config job swapped
