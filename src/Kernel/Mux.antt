-- ===== src/Kernel/Mux.antt =====
-- `mux` of packages/autodub-core/src/autodub_core/stages.py: the settings of the deliverables, the
-- key of the resume cache, and the state of the output directory through a build.
pub mod Build
pub mod Files
pub mod Resume
mod Tests
use open_video_trans.Common.{
  ℕ, String, Bool, true, false, not, ◌&&◌, ◌||◌, ◌==◌, Option, none, some, List, [], ◌∷◌, ◌++◌,
  if◌then◌else◌, contains, Result, ok, err, ◌>>=◌,
}
use open_video_trans.Common.Chars.{Text, codes, eq_text}
use open_video_trans.Common.Decimal.{show}
use open_video_trans.Schemas.{AigcMarking}
use open_video_trans.Kernel.Aigc.{
  dubs, default_marking, embed_method, subtitle_disclosure, video_watermark_text,
}

-- `ff.Watermark`
pub record Watermark : Type 0 where
  pub text : Text
  pub position : String
  pub size_pct : ℕ
  pub opacity_pct : ℕ
  pub color : String
  pub fontfile : Option Text

-- The keyword arguments of `mux` besides `force`.
pub record MuxSettings : Type 0 where
  pub keep_ambient : Bool
  pub output_mode : String
  pub subtitle_lang : String
  pub subtitle_delivery : String
  pub marking : Option AigcMarking
  pub burn_font : Option Text
  pub watermark_font : Option Text

pub data MuxError : Type 0 where
  unknown_output_mode unknown_subtitle_lang unknown_subtitle_delivery : MuxError
  burn_disabled no_original_video : MuxError
  step_failed : String → MuxError

-- The deliverables, by the properties of `JobPaths`.
pub data Artifact : Type 0 where
  burned_mp4 dubbed_mp4 subtitles_srt : Artifact

abbrev pub want_subs : MuxSettings → Bool
want_subs s = contains s.output_mode ("subtitle_only" ∷ "both" ∷ [])

abbrev pub want_video : MuxSettings → Bool
want_video s = dubs s.output_mode

abbrev pub want_srt : MuxSettings → Bool
want_srt s = want_subs s && contains s.subtitle_delivery ("srt" ∷ "both" ∷ [])

abbrev pub burn_requested : MuxSettings → Bool
burn_requested s = want_subs s && contains s.subtitle_delivery ("burned" ∷ "both" ∷ [])

abbrev pub bilingual : MuxSettings → Bool
bilingual s = s.subtitle_lang == "bilingual"

-- `if marking is None: marking = aigc.default_marking(output_mode)`
abbrev pub marking_or_default : Option AigcMarking → String → AigcMarking
marking_or_default none output_mode = default_marking output_mode
marking_or_default (some m) output_mode = m

abbrev pub effective : MuxSettings → AigcMarking
effective s = marking_or_default s.marking s.output_mode

abbrev pub text_or_empty : Option Text → Text
text_or_empty none = []
text_or_empty (some text) = text

abbrev pub join_bars : List Text → Text
join_bars [] = []
join_bars (p ∷ []) = p
join_bars (p ∷ q ∷ ps) = p ++ b'|' ∷ join_bars (q ∷ ps)

abbrev pub wm_part : Watermark → Text
wm_part wm =
    codes "wm:"
    ++ codes wm.position
    ++ (b':' ∷ show wm.size_pct)
    ++ (b':' ∷ show wm.opacity_pct)
    ++ (b':' ∷ codes wm.color)
    ++ (b':' ∷ text_or_empty wm.fontfile)
    ++ (b':' ∷ wm.text)

abbrev pub watermark_of : AigcMarking → Option Text → Option Text → Option Watermark
watermark_of m font none = none
watermark_of m font (some text) = some (record {
  text = text;
  position = m.video_watermark_position;
  size_pct = m.video_watermark_font_size;
  opacity_pct = m.video_watermark_opacity;
  color = m.video_watermark_color;
  fontfile = font;
})

abbrev pub method_text : Option String → Text
method_text none = []
method_text (some method) = codes method

abbrev pub watermark_parts : Option Watermark → List Text
watermark_parts none = []
watermark_parts (some wm) = wm_part wm ∷ []

abbrev pub is_set : Option Watermark → Bool
is_set none = false
is_set (some wm) = true

-- What `mux` returns: the path, and whether it sets `marking.applied`.
pub record Muxed : Type 0 where
  pub primary_file : Artifact
  pub applied : Bool

-- BURN_SUBTITLES_ENABLED
module _ (burn_enabled : Bool) where
  abbrev pub want_burn : MuxSettings → Bool
  want_burn s = burn_requested s && burn_enabled

  -- The guards at the head of `mux`.
  unfoldable pub check_settings : MuxSettings → Result MuxError (Unit {0})
  check_settings s =
      if not (contains s.output_mode ("subtitle_only" ∷ "dub_only" ∷ "both" ∷ []))
      then err unknown_output_mode
      else if not (contains s.subtitle_lang ("target" ∷ "bilingual" ∷ []))
      then err unknown_subtitle_lang
      else if not (contains s.subtitle_delivery ("srt" ∷ "burned" ∷ "both" ∷ []))
      then err unknown_subtitle_delivery
      else if burn_requested s && not (want_burn s)
      then err burn_disabled
      else ok tt

  unfoldable pub watermark : MuxSettings → Option Watermark
  watermark s =
      let text = video_watermark_text (some (effective s)) in
      if want_video s || want_burn s then watermark_of (effective s) s.watermark_font text else none

  -- `deliver_video` and `expected`
  abbrev pub deliver_video : MuxSettings → List Artifact
  deliver_video s =
      if want_burn s then burned_mp4 ∷ [] else if want_video s then dubbed_mp4 ∷ [] else []

  unfoldable pub expected : MuxSettings → List Artifact
  expected s = deliver_video s ++ (if want_srt s then subtitles_srt ∷ [] else [])

  -- `deliver_video if deliver_video is not None else paths.subtitles`
  abbrev pub first_or_srt : List Artifact → Artifact
  first_or_srt [] = subtitles_srt
  first_or_srt (a ∷ rest) = a

  abbrev pub primary : MuxSettings → Artifact
  primary s = first_or_srt (deliver_video s)

  -- `aigc.embed_method(marking, output_mode) or ""`
  abbrev pub want_method : MuxSettings → Text
  want_method s = method_text (embed_method (some (effective s)) s.output_mode)

  unfoldable pub cache_key : MuxSettings → Text
  cache_key s =
      let base =
        want_method s
        ∷ codes s.output_mode
        ∷ codes s.subtitle_lang
        ∷ codes s.subtitle_delivery
        ∷ [] in
      let cue = codes "subcue:" ++ text_or_empty (subtitle_disclosure (some (effective s))) in
      let burn = codes "burn:1920:1080:23:veryfast:" ++ text_or_empty s.burn_font in
      join_bars (
        base
        ++ (if want_srt s || want_burn s then cue ∷ [] else [])
        ++ (if want_burn s then burn ∷ [] else [])
        ++ watermark_parts (watermark s))

  unfoldable pub muxed : MuxSettings → Muxed
  muxed s = record {
    primary_file = primary s;
    applied = not (eq_text (want_method s) []) || is_set (watermark s);
  }
