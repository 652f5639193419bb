-- ===== src/Worker/Admission/Tests.antt =====
-- admission.py on small files.
use open_video_trans.Common.{ℕ, String, ◌≡◌, refl, ◌↔◌, none, some, [], ◌∷◌, ok, err}
use open_video_trans.Schemas.{unsupported_format, upload_too_large, over_duration}
use open_video_trans.Worker.Admission.{
  duration_cap_sec, default_config, Payload, parse_config, ffmpeg_error, source_rejected,
  SourceFile, JobModes, admit_source,
}
use open_video_trans.Worker.Admission.Gate.{IsAdmissible, admit_source_lem}

program : Unit {0}
unfolding duration_cap_sec parse_config admit_source
program = tt

abbrev file_of : ℕ → ℕ → SourceFile
file_of size duration = record {
  size = size;
  allowed_format = ok tt;
  duration_ms = ok duration;
  dimensions = err ffmpeg_error;
}

abbrev modes : String → String → JobModes
modes mode delivery = record { output_mode = mode; subtitle_delivery = delivery }

audio_talk :
    admit_source (file_of 4000 600_000) (modes "subtitle_only" "srt") default_config ≡ ok tt
unfolding program
audio_talk = refl

burned_talk :
    admit_source (file_of 4000 600_000) (modes "subtitle_only" "burned") default_config
    ≡ err (source_rejected over_duration)
unfolding program
burned_talk = refl

burned_audio :
    admit_source (file_of 4000 60_000) (modes "both" "both") default_config
    ≡ err (source_rejected unsupported_format)
unfolding program
burned_audio = refl

swapped :
    admit_source (file_of 524_288_001 60_000) (modes "dub_only" "srt") default_config
    ≡ err (source_rejected upload_too_large)
unfolding program
swapped = refl

dubbed : admit_source (file_of 4000 60_000) (modes "dub_only" "srt") default_config ≡ ok tt
unfolding program
dubbed = refl

abbrev payload : Payload
payload = record {
  heartbeat_interval_ms = some 10_000;
  lease_ttl_ms = none;
  job_hard_timeout_ms = none;
  attempts = some 3;
  upload_bytes = none;
  max_video_duration_ms = some (("both", 200_999) ∷ []);
}

parsed : parse_config payload ≡ record default_config {
  heartbeat_interval = 10_000;
  max_attempts = 3;
  max_video_duration_both_sec = 200;
}
unfolding program
parsed = refl

unknown_mode : duration_cap_sec (parse_config payload) "karaoke" ≡ 200
unfolding program
unknown_mode = refl

admit_source_lem_example :
    (admit_source (file_of 4000 600_000) (modes "subtitle_only" "srt") default_config ≡ ok tt)
    ↔ IsAdmissible (file_of 4000 600_000) (modes "subtitle_only" "srt") default_config
admit_source_lem_example =
    admit_source_lem (file_of 4000 600_000) (modes "subtitle_only" "srt") default_config
