-- ===== src/Worker/Job/Outcome.antt =====
-- What one run of `process_job` tells the control plane and deletes.
use open_video_trans.Common.{
  ◌≡◌, refl, ap, ◌⊎◌, inl, inr, Bool, true, false, List, Result, ok, err, keep_if, Result-cases,
}
use open_video_trans.Worker.Admission.{WorkerConfig, AdmitError, JobModes}
use open_video_trans.Worker.Job.{
  ProduceError, Artifacts, Answers, Call, failed, completed, fetch_source, on_fetch_error,
  on_produce_error, finish_job, job_body,
}

abbrev pub is_report : Call → Bool
is_report (failed code recorded) = true
is_report (completed artifacts recorded) = true
is_report _ = false

abbrev pub reports : List Call → List Call
reports calls = keep_if is_report calls

module _ (config : WorkerConfig) (job : JobModes) (a : Answers) where
  abbrev pub body : List Call
  body = job_body config job a

  abbrev produce_or_fail : Result ProduceError Artifacts → List Call
  produce_or_fail r = elim r [
    | err e ↦ on_produce_error config job a e
    | ok artifacts ↦ finish_job config job a artifacts
  ]

  pub job_body-cases :
      ((e : AdmitError) × (fetch_source config job a ≡ err e)
        × (body ≡ on_fetch_error config job a e))
      ⊎ ((e : ProduceError) × (fetch_source config job a ≡ ok tt)
          × (a.produced ≡ err e)
          × (body ≡ on_produce_error config job a e))
      ⊎ ((artifacts : Artifacts) × (fetch_source config job a ≡ ok tt)
          × (a.produced ≡ ok artifacts)
          × (body ≡ finish_job config job a artifacts))
  unfolding job_body
  job_body-cases = elim (Result-cases (fetch_source config job a)) [
    | inr (e, refused) ↦ inl (e, refused, rw (job_body, refused) refl)
    | inl (u, fetched) ↦ elim (Result-cases a.produced) [
      | inr (e, raised) ↦
          inr (inl (e, fetched, raised, rw (job_body, fetched) (ap produce_or_fail raised)))
      | inl (artifacts, done) ↦
          inr (inr (artifacts, fetched, done, rw (job_body, fetched) (ap produce_or_fail done)))
    ]
  ]
