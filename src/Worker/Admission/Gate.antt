-- ===== src/Worker/Admission/Gate.antt =====
-- What the source gate of admission.py admits.
use open_video_trans.Common.{
  ℕ, ◌*◌, ◌≤◌, String, ◌≡◌, refl, ◌⊎◌, inl, inr, ◌↔◌, Bool, true, false, ◌==◌, eq_iff, ltb,
  if◌then◌else◌, Result, ok, err, arith, Bool-cases, ok_inj, >>=-eq-ok, max, sym, ap, ◌∙◌,
}
use open_video_trans.Worker.Admission.{
  WorkerConfig, duration_cap_sec, ProbeError, ffmpeg_error, other_probe_error, AdmitError,
  SourceFile, JobModes, gate_probe, burns, cap_mode, admit_source,
}

-- The gate as a specification: an allowed format, a size and a duration within the caps, and a
-- video stream where subtitles are burned in.
pub record IsAdmissible (file : SourceFile) (job : JobModes) (config : WorkerConfig) : Type 0 where
  pub format : file.allowed_format ≡ ok tt
  pub size : file.size ≤ config.max_upload_bytes
  pub duration : ℕ
  pub probe : file.duration_ms ≡ ok duration
  pub within : duration ≤ duration_cap_sec config (cap_mode job) * 1000
  pub video : burns job ≡ true → file.dimensions ≡ ok tt

gate_probe-eq-ok {ℓ} :
    {A : Type ℓ} (r : Result ProbeError A) (a : A) → gate_probe r ≡ ok a → r ≡ ok a
gate_probe-eq-ok (ok b) a e = ap ok (ok_inj e)
gate_probe-eq-ok (err ffmpeg_error) a e = cc
gate_probe-eq-ok (err other_probe_error) a e = cc

-- What a block that returned found at a test that raises.
pub guard-eq-ok {ℓ} :
    {A : Type ℓ} (stop : Bool) (code : AdmitError) (r : Result AdmitError A) (a : A)
    → (if stop then err code else r) ≡ ok a
    → (stop ≡ false) × (r ≡ ok a)
guard-eq-ok true code r a e = cc
guard-eq-ok false code r a e = (refl, e)

-- `admit_source` returns exactly for the admissible files: those of an allowed format, with the
-- size and the duration within the caps, and with a video stream if subtitles are burned in.
pub admit_source_lem :
    (file : SourceFile) (job : JobModes) (config : WorkerConfig)
    → (admit_source file job config ≡ ok tt) ↔ IsAdmissible file job config
unfolding admit_source
admit_source_lem file job config = (
  λ e.
      let (u, f, rest) = >>=-eq-ok (gate_probe file.allowed_format) _ e in
      let (small, rest) = guard-eq-ok (ltb config.max_upload_bytes file.size) _ _ tt rest in
      let (d, p, rest) = >>=-eq-ok (gate_probe file.duration_ms) _ rest in
      let (short, rest) =
        guard-eq-ok (ltb (duration_cap_sec config (cap_mode job) * 1000) d) _ _ tt rest in
      record {
        format = gate_probe-eq-ok file.allowed_format tt f;
        size = ground arith;
        duration = d;
        probe = gate_probe-eq-ok file.duration_ms d p;
        within = ground arith;
        video = λ burn. gate_probe-eq-ok file.dimensions tt (rw burn at rest);
      },
  λ h. elim (Bool-cases (burns job)) [
    | inl burn ↦ rw (h.format, h.probe) (ground (arith, h.size, h.within, h.video burn))
    | inr plain ↦ rw (h.format, h.probe) (ground (arith, h.size, h.within))
  ],
)

abbrev pub Reencodes : JobModes → Type 0
Reencodes job = (burns job ≡ true) ⊎ (job.output_mode ≡ "dub_only") ⊎ (job.output_mode ≡ "both")

cap_mode_kept :
    (job : JobModes) → (job.output_mode == "subtitle_only") ≡ false → cap_mode job ≡ job.output_mode
cap_mode_kept job other = elim (Bool-cases (burns job)) [
  | inl burn ↦ rw (cap_mode, burn, other) refl
  | inr plain ↦ rw (cap_mode, plain) refl
]

cap_mode_heavy :
    (job : JobModes) → Reencodes job → (cap_mode job ≡ "dub_only") ⊎ (cap_mode job ≡ "both")
cap_mode_heavy job (inr (inl dub)) = inl (cap_mode_kept job (rw dub refl) ∙ dub)
cap_mode_heavy job (inr (inr both)) = inr (cap_mode_kept job (rw both refl) ∙ both)
cap_mode_heavy job (inl burn) = elim (Bool-cases (job.output_mode == "subtitle_only")) [
  | inl alone ↦ inl (rw (cap_mode, burn, alone) refl)
  | inr other ↦ inr (cap_mode_kept job other ∙ ground (arith, eq_iff job.output_mode "both"))
]

tight_cap :
    (config : WorkerConfig) (mode : String)
    → (mode ≡ "dub_only") ⊎ (mode ≡ "both")
    → duration_cap_sec config mode
      ≤ max config.max_video_duration_dub_sec config.max_video_duration_both_sec
unfolding duration_cap_sec
tight_cap config mode (inl dub) = rw dub (omega arith)
tight_cap config mode (inr both) = rw both (omega arith)

-- A job that re-encodes the video, by dubbing or by burning subtitles in, is never admitted with a
-- duration beyond the larger of the caps of the two modes that dub.
pub reencode_cap :
    (file : SourceFile) (job : JobModes) (config : WorkerConfig) (d : ℕ)
    → admit_source file job config ≡ ok tt
    → Reencodes job
    → file.duration_ms ≡ ok d
    → d ≤ max config.max_video_duration_dub_sec config.max_video_duration_both_sec * 1000
reencode_cap file job config d e heavy probe =
    let h = (admit_source_lem file job config).0 e in
    let same : h.duration ≡ d = ok_inj (sym h.probe ∙ probe) in
    omega (arith, h.within, same, tight_cap config (cap_mode job) (cap_mode_heavy job heavy))
