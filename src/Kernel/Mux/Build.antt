-- ===== src/Kernel/Mux/Build.antt =====
-- The build of `mux` as changes of the output directory. What ffmpeg and the disk answer at each
-- step is given; a file appears whole or not at all, as `atomic_output` writes it.
use open_video_trans.Common.{
  ℕ, Bool, true, false, not, ◌&&◌, Option, none, some, List, [], ◌∷◌, ◌++◌, if◌then◌else◌, keep_if,
  map, Result, ok, err,
}
use open_video_trans.Common.Chars.{Text, codes, eq_text, reread}
use open_video_trans.Schemas.{DubbingSegment}
use open_video_trans.Kernel.Aigc.{metadata_args, subtitle_disclosure}
use open_video_trans.Kernel.Subtitles.{srt_text}
use open_video_trans.Kernel.Mux.{
  Watermark, MuxSettings, MuxError, no_original_video, step_failed, Artifact, burned_mp4,
  dubbed_mp4, subtitles_srt, want_video, want_srt, bilingual, effective, want_burn, check_settings,
  watermark, expected, cache_key, Muxed, muxed,
}

-- A video by the arguments of the ffmpeg calls that made it: the placements of the dub, whether the
-- ambient stem is mixed in, the style of the burn, the metadata and the watermark.
pub data Video : Type 0 where
  dubbed : List (ℕ × ℕ) → Bool → List Text → Video
  overlaid : Watermark → Video → Video
  burned_dub : Video → Text → Option Text → List Text → Option Watermark → Video
  burned_original : Text → Option Text → List Text → Option Watermark → Video

-- output/, with `.mux_cache`.
pub record Output : Type 0 where
  pub dubbed_video : Option Video
  pub burned_video : Option Video
  pub subtitles : Option Text
  pub mux_cache : Option Text

-- The rest of the job directory: segments.json, whether there is an original video and an ambient
-- stem, and which segments have an aligned clip.
pub record Inputs : Type 0 where
  pub segments : Result MuxError (List DubbingSegment)
  pub original_video : Bool
  pub ambient : Bool
  pub aligned : ℕ → Bool

-- The calls of a build: the check of the source with the probe of its duration, the others by name.
pub data MuxStep : Type 0 where
  check_source stitch_timeline mux_video watermark_video write_srt burn_subtitles : MuxStep

abbrev pub exists_in {ℓ} : {A : Type ℓ} → Option A → Bool
exists_in none = false
exists_in (some a) = true

abbrev pub is_present : Output → Artifact → Bool
is_present out burned_mp4 = exists_in out.burned_video
is_present out dubbed_mp4 = exists_in out.dubbed_video
is_present out subtitles_srt = exists_in out.subtitles

abbrev pub all_present : Output → List Artifact → Bool
all_present out [] = true
all_present out (a ∷ artifacts) = is_present out a && all_present out artifacts

abbrev pub is_empty : List Artifact → Bool
is_empty [] = true
is_empty (a ∷ artifacts) = false

-- `marker.read_text(encoding="utf-8") if marker.exists() else ""`
abbrev pub cached_key : Option Text → Text
cached_key none = []
cached_key (some written) = reread written

-- `for p in (dubbed_video, subtitles, burned_video): p.unlink(missing_ok=True)`
abbrev pub cleared : Output → Output
cleared out = record {
  dubbed_video = none;
  burned_video = none;
  subtitles = none;
  mux_cache = out.mux_cache;
}

abbrev pub with_dub : Video → Output → Output
with_dub v out = record {
  dubbed_video = some v;
  burned_video = out.burned_video;
  subtitles = out.subtitles;
  mux_cache = out.mux_cache;
}

abbrev pub with_burn : Video → Output → Output
with_burn v out = record {
  dubbed_video = out.dubbed_video;
  burned_video = some v;
  subtitles = out.subtitles;
  mux_cache = out.mux_cache;
}

abbrev pub with_srt : Text → Output → Output
with_srt text out = record {
  dubbed_video = out.dubbed_video;
  burned_video = out.burned_video;
  subtitles = some text;
  mux_cache = out.mux_cache;
}

abbrev pub with_marker : Text → Output → Output
with_marker key out = record {
  dubbed_video = out.dubbed_video;
  burned_video = out.burned_video;
  subtitles = out.subtitles;
  mux_cache = some key;
}

-- A directory after some calls, and the exception that stopped them if one did.
abbrev pub Effect {ℓ} : Type ℓ → Type ℓ
Effect A = Output × Result MuxError A

abbrev pub and_then {ℓ} : {A : Type ℓ} → Effect (Unit {0}) → (Output → Effect A) → Effect A
and_then (out, err e) k = (out, err e)
and_then (out, ok done) k = k out

-- `[(s.start_ms, tts_aligned(s.index)) for s in segments if tts_aligned(s.index).exists()]`
abbrev pub placements : (ℕ → Bool) → List DubbingSegment → List (ℕ × ℕ)
placements aligned segments =
    map (λ (s : DubbingSegment). (s.start_ms, s.index))
      (keep_if (λ (s : DubbingSegment). aligned s.index) segments)

module _ (burn_enabled : Bool) (dir : Inputs) (run : MuxStep → Result MuxError (Unit {0})) where
  -- A call that changes the directory when it succeeds.
  abbrev pub perform : MuxStep → Output → Output → Effect (Unit {0})
  perform step before after = elim (run step) [ err e ↦ (before, err e) | ok done ↦ (after, ok tt) ]

  abbrev pub metadata : MuxSettings → List Text
  metadata s = metadata_args (some (effective s)) s.output_mode

  abbrev pub subtitle_file : MuxSettings → List DubbingSegment → Text
  subtitle_file s segments =
      srt_text segments (bilingual s) (subtitle_disclosure (some (effective s)))

  -- The second pass over a dub that is delivered with a watermark and is not burned.
  abbrev pub overlay : Option Watermark → Bool → Video → Output → Effect (Unit {0})
  overlay none burn v out = (out, ok tt)
  overlay (some wm) burn v out =
      if burn then (out, ok tt) else perform watermark_video out (with_dub (overlaid wm v) out)

  abbrev pub build_dub : MuxSettings → Video → Output → Effect (Unit {0})
  build_dub s v out = and_then (perform check_source out out) λ o.
      and_then (perform stitch_timeline o o) λ o'.
        and_then (perform mux_video o' (with_dub v o'))
          λ o''. overlay (watermark burn_enabled s) (want_burn burn_enabled s) v o''

  unfoldable pub build_video : MuxSettings → List DubbingSegment → Output → Effect (Unit {0})
  build_video s segments out =
      let v =
        dubbed (placements dir.aligned segments) (s.keep_ambient && dir.ambient) (metadata s) in
      if want_video s
      then (if dir.original_video then build_dub s v out else (out, err no_original_video))
      else (out, ok tt)

  unfoldable pub build_srt : MuxSettings → List DubbingSegment → Output → Effect (Unit {0})
  build_srt s segments out =
      if want_srt s
      then perform write_srt out (with_srt (subtitle_file s segments) out)
      else (out, ok tt)

  abbrev pub force_style : Option Text → Option Text
  force_style none = none
  force_style (some font) = if eq_text font [] then none else some (codes "FontName=" ++ font)

  -- The burn over the dub, which has to be there, or over the original.
  abbrev pub burn_over : MuxSettings → Text → Option Video → Output → Effect (Unit {0})
  burn_over s text none out = (out, err (step_failed "burn source missing"))
  burn_over s text (some v) out = perform burn_subtitles out (
      with_burn
        (burned_dub v text (force_style s.burn_font) (metadata s) (watermark burn_enabled s)) out)

  abbrev pub burn_original : MuxSettings → Text → Output → Effect (Unit {0})
  burn_original s text out =
      if dir.original_video
      then perform burn_subtitles out (
          with_burn
            (burned_original text (force_style s.burn_font) (metadata s) (watermark burn_enabled s))
            out)
      else (out, err no_original_video)

  abbrev pub burn_onto : MuxSettings → Text → Output → Effect (Unit {0})
  burn_onto s text out =
      if want_video s then burn_over s text out.dubbed_video out else burn_original s text out

  -- Without a delivered subtitle file the burn writes a throwaway one.
  abbrev pub burn_source : MuxSettings → Output → Effect (Unit {0})
  burn_source s out = if want_srt s then (out, ok tt) else perform write_srt out out

  unfoldable pub build_burn : MuxSettings → List DubbingSegment → Output → Effect (Unit {0})
  build_burn s segments out =
      if want_burn burn_enabled s
      then and_then (burn_source s out) (burn_onto s (subtitle_file s segments))
      else (out, ok tt)

  abbrev pub build_all : MuxSettings → Output → List DubbingSegment → Effect Muxed
  build_all s out segments = and_then (build_video s segments out) λ o.
      and_then (build_srt s segments o) λ o'. and_then (build_burn s segments o') λ o''. (
        if is_empty (expected burn_enabled s)
            then o''
            else with_marker (cache_key burn_enabled s) o'',
        ok (muxed burn_enabled s),
      )

  abbrev pub is_cached : Bool → MuxSettings → Output → Bool
  is_cached force s out =
      not (is_empty (expected burn_enabled s))
      && all_present out (expected burn_enabled s)
      && eq_text (cached_key out.mux_cache) (cache_key burn_enabled s)
      && not force

  abbrev pub rebuild : MuxSettings → Output → Result MuxError (List DubbingSegment) → Effect Muxed
  rebuild s out (err e) = (out, err e)
  rebuild s out (ok segments) = build_all s out segments

  abbrev pub mux_checked : Bool → MuxSettings → Output → Result MuxError (Unit {0}) → Effect Muxed
  mux_checked force s out (err e) = (out, err e)
  mux_checked force s out (ok done) =
      if is_cached force s out
      then (out, ok (muxed burn_enabled s))
      else rebuild s (cleared out) dir.segments

  -- `mux(paths, force=…, …)`
  unfoldable pub mux : Bool → MuxSettings → Output → Effect Muxed
  mux force s out = mux_checked force s out (check_settings burn_enabled s)
