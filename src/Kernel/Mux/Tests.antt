-- ===== src/Kernel/Mux/Tests.antt =====
-- `mux` on a dub with a visible watermark.
use open_video_trans.Common.{◌≡◌, refl, true, false, none, some, [], ◌∷◌, ◌++◌, Result, ok, err}
use open_video_trans.Common.Chars.{Text, codes, strip, is_space, has}
use open_video_trans.Common.Decimal.{show, show_padded}
use open_video_trans.Kernel.Aigc.{
  default_marking, embed_method, metadata_args, subtitle_disclosure, video_watermark_text,
}
use open_video_trans.Kernel.Subtitles.{ts, segment_cues, srt_cues, srt_text}
use open_video_trans.Kernel.Mux.{
  MuxSettings, MuxError, step_failed, dubbed_mp4, check_settings, watermark, expected, cache_key,
  Muxed, muxed,
}
use open_video_trans.Kernel.Mux.Build.{
  Video, Output, Inputs, MuxStep, build_video, build_srt, build_burn, mux,
}
use open_video_trans.Kernel.Mux.Resume.{mux_resumes}

program : Unit {0}
unfolding show show_padded is_space strip ts segment_cues srt_cues srt_text default_marking
    embed_method metadata_args subtitle_disclosure video_watermark_text check_settings watermark
    expected cache_key muxed build_video build_srt build_burn mux
program = tt

abbrev settings : MuxSettings
settings = record {
  keep_ambient = true;
  output_mode = "dub_only";
  subtitle_lang = "target";
  subtitle_delivery = "srt";
  marking = some (record (default_marking "dub_only") { video_watermark_enabled = true });
  burn_font = none;
  watermark_font = none;
}

abbrev inputs : Inputs
inputs = record { segments = ok []; original_video = true; ambient = false; aligned = λ i. true }

abbrev empty : Output
empty = record { dubbed_video = none; burned_video = none; subtitles = none; mux_cache = none }

abbrev succeeds : MuxStep → Result MuxError (Unit {0})
succeeds step = ok tt

-- The re-encode that paints the watermark times out.
abbrev times_out : MuxStep → Result MuxError (Unit {0})
times_out MuxStep.watermark_video = err (step_failed "timeout")
times_out _ = ok tt

abbrev plain_dub : Video
plain_dub =
    Video.dubbed [] false
      (codes "-metadata" ∷ codes "comment=AIGC: 本视频含 AI 生成配音 (aigc_mark=av_voice_mark)" ∷ [])

abbrev key : Text
key = codes "av_voice_mark|dub_only|target|srt|wm:bottom_right:5:85:#FFFFFF::本视频由 AI 合成"

abbrev first_run : Output
first_run = (mux true inputs succeeds false settings empty).0

abbrev delivered : Muxed
delivered = record { primary_file = dubbed_mp4; applied = true }

first : mux true inputs succeeds false settings empty ≡ (first_run, ok delivered)
unfolding program
first = refl

-- A forced run after it fails in the second pass. It leaves the dub without the watermark, beside
-- the marker of the first run.
abbrev failed_run : Output
failed_run = record {
  dubbed_video = some plain_dub;
  burned_video = none;
  subtitles = none;
  mux_cache = some key;
}

failed :
    mux true inputs times_out true settings first_run ≡ (failed_run, err (step_failed "timeout"))
unfolding program
failed = refl

-- The next run takes it for the finished video and reports the mark as applied.
stale_marker_hit : mux true inputs succeeds false settings failed_run ≡ (failed_run, ok delivered)
unfolding program
stale_marker_hit = refl

-- The text of the watermark has a carriage return: the marker is read back with a line feed, so a run
-- without `force` builds again and fails where ffmpeg does.
abbrev two_lines : MuxSettings
two_lines = record (settings) {
  marking = some (record (default_marking "dub_only") {
    video_watermark_enabled = true;
    video_watermark_text = some (codes "AI" ++ b'\r' ∷ codes "dub");
  });
}

two_lines_never_cached :
    (mux true inputs times_out false two_lines (mux true inputs succeeds false two_lines empty).0).1
    ≡ err (step_failed "timeout")
unfolding program
two_lines_never_cached = refl

one_line : has b'\r' (cache_key true settings) ≡ false
unfolding program
one_line = refl

mux_resumes_example : mux true inputs times_out false settings first_run ≡ (first_run, ok delivered)
mux_resumes_example =
    mux_resumes true inputs inputs succeeds times_out false settings empty first_run delivered first
      one_line
