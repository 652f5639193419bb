-- ===== src/Worker/Job/Completion.antt =====
-- When `process_job` completes a job, and when it deletes the source.
use open_video_trans.Common.{
  ℕ, ◌≤◌, ◌<◌, ◌≡◌, refl, sym, ap, ◌∙◌, ◌⊎◌, inl, inr, ◌↔◌, Bool, true, false, none, some, List, [],
  ◌∷◌, ◌++◌, ltb, leb, if◌then◌else◌, ok, err, >>=-eq-ok, ok_inj, arith, All, Bool-cases,
  Result-cases, Option-cases,
}
use open_video_trans.Schemas.{upload_too_large}
use open_video_trans.Worker.Admission.{
  WorkerConfig, AdmitError, source_rejected, admit_failed, SourceFile, JobModes,
}
use open_video_trans.Worker.Admission.Gate.{IsAdmissible, admit_source_lem, guard-eq-ok}
use open_video_trans.Worker.Job.{
  ProduceError, language_rejected, pool_exhausted, produce_failed, Artifacts, Answers, Call, failed,
  completed, source_deleted, heartbeat_stopped, workdir_removed, precheck_source_size,
  download_source, fetch_source, report_fail, reject_source, on_fetch_error, on_produce_error,
  lease_lost, finish_job, process_job,
}
use open_video_trans.Worker.Job.Lease.{Holds, kept_lease_iff}
use open_video_trans.Worker.Job.Outcome.{job_body-cases, body}

-- The artifacts that a run reports as complete.
abbrev pub completions : List Call → List Artifacts
completions [] = []
completions (completed artifacts recorded ∷ calls) = artifacts ∷ completions calls
completions (_ ∷ calls) = completions calls

-- Whether a run asks the storage to delete the source.
abbrev pub deletes : List Call → Bool
deletes [] = false
deletes (source_deleted done ∷ calls) = true
deletes (_ ∷ calls) = deletes calls

-- The source came in whole, within the cap both before and in the download, and passed the gate.
pub record IsFetched (config : WorkerConfig) (job : JobModes) (a : Answers) : Type 0 where
  pub head :
      (a.head ≡ ok none)
      ⊎ ((size : ℕ) × (a.head ≡ ok (some size)) × (size ≤ config.max_upload_bytes))
  pub size : ℕ
  pub body : a.body ≡ some size
  pub written : a.written ≡ true
  pub admissible : IsAdmissible (record a.file { size = size }) job config

-- The source was fetched, the pipeline returned these artifacts before the hard timeout, and the
-- lease was kept.
pub record Completes (config : WorkerConfig) (job : JobModes) (a : Answers) (artifacts : Artifacts)
    : Type 0 where
  pub fetched : IsFetched config job a
  pub produced : a.produced ≡ ok artifacts
  pub in_time : a.elapsed < config.job_hard_timeout
  pub lease : All (Holds config.job_hard_timeout) a.ticks

module _ (config : WorkerConfig) (job : JobModes) (a : Answers) where
  precheck_lem : (precheck_source_size config job a ≡ ok tt) ↔ (
      (a.head ≡ ok none)
      ⊎ ((size : ℕ) × (a.head ≡ ok (some size)) × (size ≤ config.max_upload_bytes)))
  unfolding precheck_source_size
  precheck_lem = elim (Result-cases a.head) [
    | inr (e, raised) ↦
        (λ h. ground (arith, rw (raised, precheck_source_size) at h), λ h. ground (arith, h))
    | inl (none, gone) ↦ (λ h. inl gone, λ h. rw (gone, precheck_source_size) refl)
    | inl (some size, known) ↦
        let value : precheck_source_size config job a ≡ (
            if ltb config.max_upload_bytes size
            then err (source_rejected upload_too_large)
            else ok tt) =
          rw (known, precheck_source_size) refl in
        (
          λ h. inr (size, known, ground (arith, value, h)),
          λ h. elim h [
            | inl gone ↦ ground (arith, gone, known)
            | inr (other, met, small) ↦ ground (arith, value, met, known, small)
          ],
        )
  ]

  download_lem :
      (file : SourceFile)
      → download_source config job a ≡ ok file
      → (size : ℕ) × (a.body ≡ some size)
        × (size ≤ config.max_upload_bytes)
        × (a.written ≡ true)
        × (file ≡ record a.file { size = size })
  unfolding download_source
  download_lem file e = elim (Option-cases a.body) [
    | inl lost ↦ ground (arith, rw (lost, download_source) at e)
    | inr (size, arrived) ↦
        let (large, rest) =
          guard-eq-ok (ltb config.max_upload_bytes size) _ _ file
            (rw (arrived, download_source) at e) in
        elim (Bool-cases a.written) [
          | inr unwritten ↦ ground (arith, unwritten, rest)
          | inl stored ↦ (size, arrived, ground arith, stored, ground (arith, stored, rest))
        ]
  ]

  downloads :
      (size : ℕ)
      → a.body ≡ some size
      → size ≤ config.max_upload_bytes
      → a.written ≡ true
      → download_source config job a ≡ ok (record a.file { size = size })
  unfolding download_source
  downloads size arrived small stored =
      rw (arrived, download_source) (ground (arith, small, stored))

  fetch_source_lem : (fetch_source config job a ≡ ok tt) ↔ IsFetched config job a
  unfolding fetch_source
  fetch_source_lem = (
    λ e.
        let (checked, before, rest) = >>=-eq-ok (precheck_source_size config job a) _ e in
        let (file, got, gate) = >>=-eq-ok (download_source config job a) _ rest in
        let (size, arrived, small, stored, same) = download_lem file got in
        record {
          head = precheck_lem.0 before;
          size = size;
          body = arrived;
          written = stored;
          admissible = (admit_source_lem _ job config).0 (rw same at gate);
        },
    λ h.
        rw
          (fetch_source, precheck_lem.1 h.head, downloads h.size h.body h.admissible.size h.written)
          ((admit_source_lem _ job config).1 h.admissible),
  )

  finish_job-completions :
      (made artifacts : Artifacts)
      → (completions (finish_job config job a made) ≡ artifacts ∷ [])
        ↔ (made ≡ artifacts)
          × (a.elapsed < config.job_hard_timeout)
          × (lease_lost config job a ≡ false)
  unfolding finish_job report_fail
  finish_job-completions made artifacts =
      elim (Bool-cases (leb config.job_hard_timeout a.elapsed)) [
        | inl late ↦ rw (late, finish_job) (λ e. ground (arith, e), λ h. ground (arith, h))
        | inr early ↦ elim (Bool-cases (lease_lost config job a)) [
          | inl lost ↦ rw (early, lost, finish_job) (λ e. ground (arith, e), λ h. ground (arith, h))
          | inr kept ↦ rw (early, kept, finish_job) (λ e. ground (arith, e), λ h. ground (arith, h))
        ]
      ]

  fetch_error-completions : (e : AdmitError) → completions (on_fetch_error config job a e) ≡ []
  unfolding reject_source report_fail
  fetch_error-completions (source_rejected code) = elim (Bool-cases a.fail_recorded) [
    | inl recorded ↦ rw (recorded, reject_source) refl
    | inr unrecorded ↦ rw (unrecorded, reject_source) refl
  ]
  fetch_error-completions admit_failed = refl

  produce_error-completions :
      (e : ProduceError) → completions (on_produce_error config job a e) ≡ []
  unfolding report_fail
  produce_error-completions (language_rejected code) = refl
  produce_error-completions pool_exhausted = refl
  produce_error-completions produce_failed = refl

  completions-append :
      (calls : List Call)
      → completions (calls ++ heartbeat_stopped ∷ workdir_removed ∷ []) ≡ completions calls
  completions-append [] = refl
  completions-append (failed code recorded ∷ calls) = completions-append calls
  completions-append (completed artifacts recorded ∷ calls) =
      ap (λ cs. artifacts ∷ cs) (completions-append calls)
  completions-append (source_deleted done ∷ calls) = completions-append calls
  completions-append (heartbeat_stopped ∷ calls) = completions-append calls
  completions-append (workdir_removed ∷ calls) = completions-append calls

  -- A run reports completion exactly when the source was fetched whole and passed the gate, the
  -- pipeline returned these artifacts before the hard timeout, and the lease was kept throughout.
  pub completed_iff :
      (artifacts : Artifacts)
      → (completions (process_job config job a) ≡ artifacts ∷ []) ↔ Completes config job a artifacts
  unfolding process_job
  completed_iff artifacts =
      let tail = completions-append (body config job a) in
      elim (job_body-cases config job a) [
        | inl (e, refused, same) ↦ (
          λ h. ground (arith, sym tail ∙ h, ap completions same ∙ fetch_error-completions e),
          λ h. ground (arith, refused, fetch_source_lem.1 h.fetched),
        )
        | inr (inl (e, fetched, raised, same)) ↦ (
          λ h. ground (arith, sym tail ∙ h, ap completions same ∙ produce_error-completions e),
          λ h. ground (arith, raised, h.produced),
        )
        | inr (inr (made, fetched, done, same)) ↦
            let (there, back) = finish_job-completions made artifacts in
            let lease = kept_lease_iff config.job_hard_timeout a.ticks in
            (
              λ h.
                  let (it, early, kept) = there (sym (ap completions same) ∙ sym tail ∙ h) in
                  record {
                    fetched = fetch_source_lem.0 fetched;
                    produced = done ∙ ap ok it;
                    in_time = early;
                    lease = lease.0 kept;
                  },
              λ h.
                  tail
                  ∙ ap completions same
                  ∙ back (ok_inj (sym done ∙ h.produced), h.in_time, lease.1 h.lease),
            )
      ]
