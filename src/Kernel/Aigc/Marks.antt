-- ===== src/Kernel/Aigc/Marks.antt =====
-- Which legal marks aigc.py puts on an output.
use open_video_trans.Common.{
  String, ◌≡◌, ◌≢◌, refl, sym, ap, ◌∙◌, ◌⊎◌, inl, inr, true, false, Option, none, some, List, [],
  ◌∷◌, ◌++◌, if◌then◌else◌, arith, Bool-cases,
}
use open_video_trans.Common.Chars.{Text, codes}
use open_video_trans.Schemas.{AigcMarking}
use open_video_trans.Kernel.Aigc.{
  dub_notice, mt_disclosure, dubs, default_marking, embed_method, text_or, comment_args, args_for,
  metadata_args, subtitle_disclosure, video_watermark_text,
}

abbrev pub disclosed : Option Text → List Text
disclosed none = []
disclosed (some cue) = comment_args cue "mt_disclosure"

-- Without a dub the container claims a disclosure exactly when the subtitle opens with one, and
-- then in the same words: the audit trail never says more than the subtitle shows.
pub metadata_args-eq-disclosed :
    (marking : Option AigcMarking) (output_mode : String)
    → dubs output_mode ≡ false
    → metadata_args marking output_mode ≡ disclosed (subtitle_disclosure marking)
unfolding metadata_args embed_method subtitle_disclosure
metadata_args-eq-disclosed none output_mode subtitled = refl
metadata_args-eq-disclosed (some m) output_mode subtitled = elim (Bool-cases m.enabled) [
  | inr disabled ↦ ground (arith, disabled)
  | inl marked ↦ elim (Bool-cases m.subtitle_enabled) [
    | inr silent ↦ ground (arith, marked, silent, subtitled)
    | inl shown ↦
        let method : embed_method (some m) output_mode ≡ some "mt_disclosure" =
          ground (arith, marked, shown, subtitled) in
        let cue : subtitle_disclosure (some m) ≡ some (text_or m.subtitle_text mt_disclosure) =
          ground (arith, marked, shown) in
        let notice = text_or m.subtitle_text mt_disclosure in
        ap (args_for m output_mode) method
        ∙ ap (λ b. comment_args (if b then dub_notice else notice) "mt_disclosure") subtitled
        ∙ sym (ap disclosed cue)
  ]
]

-- The modes that deliver a dub.
abbrev pub DubMode : String → Type 0
DubMode output_mode = (output_mode ≡ "dub_only") ⊎ (output_mode ≡ "both")

dubs-DubMode : (output_mode : String) → DubMode output_mode → dubs output_mode ≡ true
dubs-DubMode output_mode (inl e) = rw e refl
dubs-DubMode output_mode (inr e) = rw e refl

dub_args :
    (m : AigcMarking) (output_mode : String)
    → m.enabled ≡ true
    → dubs output_mode ≡ true
    → metadata_args (some m) output_mode ≡ comment_args dub_notice "av_voice_mark"
unfolding metadata_args embed_method
dub_args m output_mode marked dubbed =
    let method : embed_method (some m) output_mode ≡ some "av_voice_mark" =
      ground (arith, marked, dubbed) in
    let notice = text_or m.subtitle_text mt_disclosure in
    ap (args_for m output_mode) method
    ∙ ap (λ b. comment_args (if b then dub_notice else notice) "av_voice_mark") dubbed

-- What the metadata of an output says, against what the output shows: the voice mark of a dub, or
-- the words that open its subtitles.
abbrev pub marks_of : Option Text → List Text
marks_of none = []
marks_of (some cue) =
    codes "-metadata"
    ∷ (codes "comment=AIGC: " ++ cue ++ codes " (aigc_mark=" ++ codes "mt_disclosure" ++ codes ")")
    ∷ []

disclosed_lem : (cue : Option Text) → disclosed cue ≡ marks_of cue
disclosed_lem none = refl
disclosed_lem (some cue) = refl

-- Red line. Under an enabled marking every dub carries the voice mark in its container, in these
-- words, whatever the settings of the subtitle and watermark channels are. An output of subtitles
-- only carries a disclosure in its container exactly when its subtitles open with one, and in the
-- same words, so that the container never claims more than the subtitles show.
pub dub_mark_kept :
    (m : AigcMarking) (dub : String)
    → m.enabled ≡ true
    → DubMode dub
    → (metadata_args (some m) dub
        ≡ codes "-metadata" ∷ codes "comment=AIGC: 本视频含 AI 生成配音 (aigc_mark=av_voice_mark)" ∷ [])
      × (metadata_args (some m) "subtitle_only" ≡ marks_of (subtitle_disclosure (some m)))
dub_mark_kept m dub marked mode = (
  dub_args m dub marked (dubs-DubMode dub mode),
  metadata_args-eq-disclosed (some m) "subtitle_only" refl
      ∙ disclosed_lem (subtitle_disclosure (some m)),
)

-- The default marking marks every output, in whatever mode, and paints no visible watermark.
pub default_marking-marks :
    (output_mode : String)
    → (metadata_args (some (default_marking output_mode)) output_mode ≢ [])
      × (video_watermark_text (some (default_marking output_mode)) ≡ none)
unfolding metadata_args embed_method default_marking video_watermark_text
default_marking-marks output_mode = elim (Bool-cases (dubs output_mode)) [
  | inl dubbed ↦ (λ e. ground (arith, e, dubbed), refl)
  | inr subtitled ↦ (λ e. ground (arith, e, subtitled), refl)
]
