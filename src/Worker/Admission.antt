-- ===== src/Worker/Admission.antt =====
-- config.py and admission.py of the media worker. Durations and timeouts are whole milliseconds,
-- except for the duration caps, which are whole seconds as in the source.
pub mod Gate
mod Tests
use open_video_trans.Common.{
  ℕ, ◌*◌, ◌/◌, min, String, Bool, true, false, ◌&&◌, ◌||◌, ◌==◌, Option, none, some, List, [], ◌∷◌,
  ltb, if◌then◌else◌, lookup, Result, ok, err, ◌>>=◌,
}
use open_video_trans.Schemas.{ErrorCode, unsupported_format, upload_too_large, over_duration}

pub record WorkerConfig : Type 0 where
  pub heartbeat_interval : ℕ
  pub lease_ttl : ℕ
  pub job_hard_timeout : ℕ
  pub max_attempts : ℕ
  pub max_upload_bytes : ℕ
  pub max_video_duration_subtitle_sec : ℕ
  pub max_video_duration_dub_sec : ℕ
  pub max_video_duration_both_sec : ℕ

-- `caps.get(output_mode, min(caps.values()))`
unfoldable pub duration_cap_sec : WorkerConfig → String → ℕ
duration_cap_sec c output_mode =
    let tightest =
      min c.max_video_duration_subtitle_sec
        (min c.max_video_duration_dub_sec c.max_video_duration_both_sec) in
    if output_mode == "subtitle_only"
    then c.max_video_duration_subtitle_sec
    else if output_mode == "dub_only"
    then c.max_video_duration_dub_sec
    else if output_mode == "both"
    then c.max_video_duration_both_sec
    else tightest

-- DEFAULT_CONFIG
abbrev pub default_config : WorkerConfig
default_config = record {
  heartbeat_interval = 30_000;
  lease_ttl = 180_000;
  job_hard_timeout = 2_700_000;
  max_attempts = 2;
  max_upload_bytes = 524_288_000;
  max_video_duration_subtitle_sec = 1800;
  max_video_duration_dub_sec = 300;
  max_video_duration_both_sec = 300;
}

-- The answer of /internal/config; a key that is missing or null is `none`.
pub record Payload : Type 0 where
  pub heartbeat_interval_ms : Option ℕ
  pub lease_ttl_ms : Option ℕ
  pub job_hard_timeout_ms : Option ℕ
  pub attempts : Option ℕ
  pub upload_bytes : Option ℕ
  pub max_video_duration_ms : Option (List (String × ℕ))

-- `secs` and `count`
abbrev pub or_value : Option ℕ → ℕ → ℕ
or_value none default = default
or_value (some v) default = v

abbrev pub seconds_or : Option ℕ → ℕ → ℕ
seconds_or none default = default
seconds_or (some ms) default = ms / 1000

abbrev pub duration_ms_to_sec : Option (List (String × ℕ)) → String → ℕ → ℕ
duration_ms_to_sec none mode default = default
duration_ms_to_sec (some caps) mode default = seconds_or (lookup mode caps) default

unfoldable pub parse_config : Payload → WorkerConfig
parse_config p = record {
  heartbeat_interval = or_value p.heartbeat_interval_ms default_config.heartbeat_interval;
  lease_ttl = or_value p.lease_ttl_ms default_config.lease_ttl;
  job_hard_timeout = or_value p.job_hard_timeout_ms default_config.job_hard_timeout;
  max_attempts = or_value p.attempts default_config.max_attempts;
  max_upload_bytes = or_value p.upload_bytes default_config.max_upload_bytes;
  max_video_duration_subtitle_sec =
      duration_ms_to_sec p.max_video_duration_ms "subtitle_only"
        default_config.max_video_duration_subtitle_sec;
  max_video_duration_dub_sec =
      duration_ms_to_sec p.max_video_duration_ms "dub_only"
        default_config.max_video_duration_dub_sec;
  max_video_duration_both_sec =
      duration_ms_to_sec p.max_video_duration_ms "both" default_config.max_video_duration_both_sec;
}

-- What the ffmpeg probes raise: FfmpegError, or anything else.
pub data ProbeError : Type 0 where
  ffmpeg_error other_probe_error : ProbeError

-- SourceRejected with its code, or anything else.
pub data AdmitError : Type 0 where
  source_rejected : ErrorCode → AdmitError
  admit_failed : AdmitError

-- The downloaded file: its size, and what the three probes answer for it.
pub record SourceFile : Type 0 where
  pub size : ℕ
  pub allowed_format : Result ProbeError (Unit {0})
  pub duration_ms : Result ProbeError ℕ
  pub dimensions : Result ProbeError (Unit {0})

-- The fields of Job that admission reads.
pub record JobModes : Type 0 where
  pub output_mode : String
  pub subtitle_delivery : String

-- `except FfmpegError` around a probe.
abbrev pub gate_probe {ℓ} : {A : Type ℓ} → Result ProbeError A → Result AdmitError A
gate_probe (ok a) = ok a
gate_probe (err ffmpeg_error) = err (source_rejected unsupported_format)
gate_probe (err other_probe_error) = err admit_failed

abbrev pub burns : JobModes → Bool
burns job =
    (job.subtitle_delivery == "burned" || job.subtitle_delivery == "both")
    && (job.output_mode == "subtitle_only" || job.output_mode == "both")

abbrev pub cap_mode : JobModes → String
cap_mode job =
    if burns job && job.output_mode == "subtitle_only" then "dub_only" else job.output_mode

-- `admit_source(path, job, config)`
unfoldable pub admit_source : SourceFile → JobModes → WorkerConfig → Result AdmitError (Unit {0})
admit_source file job config = do
  allowed ← gate_probe file.allowed_format
  if ltb config.max_upload_bytes file.size then err (source_rejected upload_too_large) else do
    duration ← gate_probe file.duration_ms
    if ltb (duration_cap_sec config (cap_mode job) * 1000) duration
        then err (source_rejected over_duration)
        else do if burns job then gate_probe file.dimensions else ok tt
