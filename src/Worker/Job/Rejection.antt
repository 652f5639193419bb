-- ===== src/Worker/Job/Rejection.antt =====
-- When `process_job` deletes the source.
use open_video_trans.Common.{
  ◌≡◌, refl, sym, ap, ◌∙◌, inl, inr, ◌↔◌, true, false, ◌||◌, List, [], ◌∷◌, ◌++◌, leb, err, arith,
  Bool-cases,
}
use open_video_trans.Schemas.{ErrorCode}
use open_video_trans.Worker.Admission.{WorkerConfig, source_rejected, admit_failed, JobModes}
use open_video_trans.Worker.Job.{
  ProduceError, language_rejected, pool_exhausted, produce_failed, Artifacts, Answers, Call, failed,
  completed, source_deleted, heartbeat_stopped, workdir_removed, fetch_source, report_fail,
  reject_source, on_produce_error, lease_lost, finish_job, process_job,
}
use open_video_trans.Worker.Job.Outcome.{job_body-cases, body}
use open_video_trans.Worker.Job.Completion.{deletes}

module _ (config : WorkerConfig) (job : JobModes) (a : Answers) where
  deletes-append :
      (calls : List Call)
      → deletes (calls ++ heartbeat_stopped ∷ workdir_removed ∷ []) ≡ deletes calls
  deletes-append [] = refl
  deletes-append (failed code recorded ∷ calls) = deletes-append calls
  deletes-append (completed artifacts recorded ∷ calls) = deletes-append calls
  deletes-append (source_deleted done ∷ calls) = refl
  deletes-append (heartbeat_stopped ∷ calls) = deletes-append calls
  deletes-append (workdir_removed ∷ calls) = deletes-append calls

  reject_source-deletes :
      (code : ErrorCode) → deletes (reject_source config job a code) ≡ a.fail_recorded
  unfolding reject_source report_fail
  reject_source-deletes code = elim (Bool-cases a.fail_recorded) [
    | inl recorded ↦ rw (recorded, reject_source) refl
    | inr unrecorded ↦ rw (unrecorded, reject_source) refl
  ]

  report_fail-deletes : (code : ErrorCode) → deletes (report_fail config job a code) ≡ false
  unfolding report_fail
  report_fail-deletes code = refl

  produce_error-deletes : (e : ProduceError) → deletes (on_produce_error config job a e) ≡ false
  produce_error-deletes (language_rejected code) = report_fail-deletes code
  produce_error-deletes pool_exhausted = report_fail-deletes _
  produce_error-deletes produce_failed = report_fail-deletes _

  finish_job-deletes : (made : Artifacts) → deletes (finish_job config job a made) ≡ false
  unfolding finish_job report_fail
  finish_job-deletes made =
      elim (Bool-cases (leb config.job_hard_timeout a.elapsed || lease_lost config job a)) [
        | inl late ↦ rw (late, finish_job) refl
        | inr in_time ↦ rw (in_time, finish_job) refl
      ]

  -- A run asks for the deletion of the source exactly when the source was rejected and the control
  -- plane has recorded the failure: a rejection whose report was lost can be repeated.
  pub deletes_iff : (deletes (process_job config job a) ≡ true) ↔ (
      (code : ErrorCode) × (fetch_source config job a ≡ err (source_rejected code))
      × (a.fail_recorded ≡ true))
  unfolding process_job
  deletes_iff =
      let tail = deletes-append (body config job a) in
      elim (job_body-cases config job a) [
        | inl (source_rejected code, refused, same) ↦
            let asks = tail ∙ ap deletes same ∙ reject_source-deletes code in
            (λ h. (code, refused, sym asks ∙ h), λ h. asks ∙ h.2)
        | inl (admit_failed, refused, same) ↦ (
          λ h. ground (arith, sym tail ∙ h, ap deletes same ∙ report_fail-deletes _),
          λ h. ground (arith, refused, h.1),
        )
        | inr (inl (e, fetched, _, same)) ↦ (
          λ h. ground (arith, sym tail ∙ h, ap deletes same ∙ produce_error-deletes e),
          λ h. ground (arith, fetched, h.1),
        )
        | inr (inr (made, fetched, _, same)) ↦ (
          λ h. ground (arith, sym tail ∙ h, ap deletes same ∙ finish_job-deletes made),
          λ h. ground (arith, fetched, h.1),
        )
      ]
