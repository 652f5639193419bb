-- ===== src/Kernel/Aigc/Tests.antt =====
-- aigc.py on some markings.
use open_video_trans.Common.{◌≡◌, refl, inr, true, false, none, some, [], ◌∷◌}
use open_video_trans.Common.Chars.{codes, strip}
use open_video_trans.Schemas.{AigcMarking}
use open_video_trans.Kernel.Aigc.{
  default_marking, embed_method, metadata_args, subtitle_disclosure, video_watermark_text,
}
use open_video_trans.Kernel.Aigc.Marks.{marks_of, dub_mark_kept}

program : Unit {0}
unfolding default_marking embed_method metadata_args subtitle_disclosure video_watermark_text strip
program = tt

abbrev worded : AigcMarking
worded = record (default_marking "subtitle_only") {
  subtitle_text = some (codes " machine translated ");
  video_watermark_enabled = true;
  video_watermark_text = some (codes "  ");
}

abbrev muted : AigcMarking
muted = record (default_marking "both") { subtitle_enabled = false }

cue : subtitle_disclosure (some worded) ≡ some (codes "machine translated")
unfolding program
cue = refl

container :
    metadata_args (some worded) "subtitle_only"
    ≡ codes "-metadata" ∷ codes "comment=AIGC: machine translated (aigc_mark=mt_disclosure)" ∷ []
unfolding program
container = refl

painted : video_watermark_text (some worded) ≡ some (codes "本视频由 AI 合成")
unfolding program
painted = refl

unmarked :
    (embed_method (some muted) "subtitle_only" ≡ none)
    × (embed_method (some muted) "both" ≡ some "av_voice_mark")
unfolding program
unmarked = (refl, refl)

muted_enabled : muted.enabled ≡ true
unfolding program
muted_enabled = refl

dub_mark_kept_example :
    (metadata_args (some muted) "both"
      ≡ codes "-metadata" ∷ codes "comment=AIGC: 本视频含 AI 生成配音 (aigc_mark=av_voice_mark)" ∷ [])
    × (metadata_args (some muted) "subtitle_only" ≡ marks_of (subtitle_disclosure (some muted)))
dub_mark_kept_example = dub_mark_kept muted "both" muted_enabled (inr refl)
