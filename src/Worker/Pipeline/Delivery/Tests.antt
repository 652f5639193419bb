-- ===== src/Worker/Pipeline/Delivery/Tests.antt =====
-- A job with burned subtitles and a subtitle file.
use open_video_trans.Common.{◌≡◌, refl, true, false, none, some, [], Result, ok, All}
use open_video_trans.Common.Chars.{codes, strip, is_space}
use open_video_trans.Common.Decimal.{show, show_padded}
use open_video_trans.Kernel.Aigc.{
  default_marking, embed_method, metadata_args, subtitle_disclosure, video_watermark_text,
}
use open_video_trans.Kernel.Subtitles.{ts, segment_cues, srt_cues, srt_text}
use open_video_trans.Kernel.Mux.{
  MuxSettings, MuxError, burned_mp4, check_settings, watermark, expected, cache_key, Muxed, muxed,
}
use open_video_trans.Kernel.Mux.Build.{
  Output, Inputs, MuxStep, is_present, build_video, build_srt, build_burn, mux,
}
use open_video_trans.Worker.Pipeline.Stages.{deliverables}
use open_video_trans.Worker.Pipeline.Delivery.{artifact, mux_delivers}

program : Unit {0}
unfolding show show_padded is_space strip ts segment_cues srt_cues srt_text default_marking
    embed_method metadata_args subtitle_disclosure video_watermark_text check_settings watermark
    expected cache_key muxed build_video build_srt build_burn mux deliverables
program = tt

abbrev settings : MuxSettings
settings = record {
  keep_ambient = true;
  output_mode = "both";
  subtitle_lang = "bilingual";
  subtitle_delivery = "both";
  marking = none;
  burn_font = some (codes "Noto Sans");
  watermark_font = none;
}

abbrev inputs : Inputs
inputs = record { segments = ok []; original_video = true; ambient = true; aligned = λ i. true }

abbrev empty : Output
empty = record { dubbed_video = none; burned_video = none; subtitles = none; mux_cache = none }

abbrev succeeds : MuxStep → Result MuxError (Unit {0})
succeeds step = ok tt

abbrev after_run : Output
after_run = (mux true inputs succeeds false settings empty).0

abbrev delivered : Muxed
delivered = record { primary_file = burned_mp4; applied = true }

run_once : mux true inputs succeeds false settings empty ≡ (after_run, ok delivered)
unfolding program
run_once = refl

mux_delivers_example :
    All (λ d. is_present after_run (artifact d) ≡ true) (deliverables "both" "both" true)
mux_delivers_example =
    mux_delivers true inputs succeeds false settings empty after_run delivered run_once
