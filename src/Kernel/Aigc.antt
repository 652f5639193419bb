-- ===== src/Kernel/Aigc.antt =====
-- packages/autodub-core/src/autodub_core/aigc.py
pub mod Marks
mod Tests
use open_video_trans.Common.{
  String, Bool, true, false, not, ◌&&◌, ◌||◌, Option, none, some, List, [], ◌∷◌, ◌++◌,
  if◌then◌else◌, contains,
}
use open_video_trans.Common.Chars.{Text, codes, strip, eq_text}
use open_video_trans.Schemas.{AigcMarking}

-- _DUB_NOTICE, _MT_DISCLOSURE, _WATERMARK_NOTICE
abbrev pub dub_notice : Text
dub_notice = codes "本视频含 AI 生成配音"

abbrev pub mt_disclosure : Text
mt_disclosure = codes "本字幕由机器翻译生成"

abbrev pub watermark_notice : Text
watermark_notice = codes "本视频由 AI 合成"

-- `output_mode in _DUB_MODES`
abbrev pub dubs : String → Bool
dubs output_mode = contains output_mode ("dub_only" ∷ "both" ∷ [])

unfoldable pub default_marking : String → AigcMarking
default_marking output_mode = record {
  enabled = true;
  implicit = true;
  explicit = true;
  form = if dubs output_mode then "tail_notice" else "disclosure_only";
  applied = none;
  subtitle_enabled = true;
  subtitle_text = none;
  video_watermark_enabled = false;
  video_watermark_text = none;
  video_watermark_position = "bottom_right";
  video_watermark_font_size = 5;
  video_watermark_opacity = 85;
  video_watermark_color = "#FFFFFF";
}

unfoldable pub embed_method : Option AigcMarking → String → Option String
embed_method none output_mode = none
embed_method (some m) output_mode =
    if not m.enabled
    then none
    else if dubs output_mode
    then some "av_voice_mark"
    else if m.subtitle_enabled
    then some "mt_disclosure"
    else none

-- `(text or "").strip() or default`
abbrev pub text_or : Option Text → Text → Text
text_or none default = default
text_or (some text) default = if eq_text (strip text) [] then default else strip text

-- `["-metadata", f"comment=AIGC: {notice} (aigc_mark={method})"]`
abbrev pub comment_args : Text → String → List Text
comment_args notice method =
    codes "-metadata"
    ∷ (codes "comment=AIGC: " ++ notice ++ codes " (aigc_mark=" ++ codes method ++ codes ")")
    ∷ []

abbrev pub args_for : AigcMarking → String → Option String → List Text
args_for m output_mode none = []
args_for m output_mode (some method) =
    let notice = if dubs output_mode then dub_notice else text_or m.subtitle_text mt_disclosure in
    comment_args notice method

unfoldable pub metadata_args : Option AigcMarking → String → List Text
metadata_args none output_mode = []
metadata_args (some m) output_mode = args_for m output_mode (embed_method (some m) output_mode)

unfoldable pub subtitle_disclosure : Option AigcMarking → Option Text
subtitle_disclosure none = none
subtitle_disclosure (some m) =
    if not m.enabled || not m.subtitle_enabled
    then none
    else some (text_or m.subtitle_text mt_disclosure)

unfoldable pub video_watermark_text : Option AigcMarking → Option Text
video_watermark_text none = none
video_watermark_text (some m) =
    if not m.enabled || not m.video_watermark_enabled
    then none
    else some (text_or m.video_watermark_text watermark_notice)
