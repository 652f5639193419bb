-- ===== src/Worker/Pipeline/Delivery.antt =====
-- What the worker uploads (`_deliverables` of pipeline.py) against what the kernel's `mux` leaves.
mod Tests
use open_video_trans.Common.{
  String, ◌≡◌, refl, subst, sym, Bool, true, false, not, ◌&&◌, ◌||◌, ◌==◌, List, [], ◌∷◌, ◌++◌, map,
  if◌then◌else◌, arith, Result, ok, All, Bool-cases, inl, inr,
}
use open_video_trans.Kernel.Mux.{
  MuxSettings, MuxError, Artifact, burned_mp4, dubbed_mp4, subtitles_srt, want_video, want_srt,
  want_burn, expected, Muxed,
}
use open_video_trans.Kernel.Mux.Build.{Output, Inputs, MuxStep, is_present, all_present, mux}
use open_video_trans.Kernel.Mux.Resume.{mux-Ready}
use open_video_trans.Worker.Pipeline.Stages.{
  Deliverable, burned_video, dubbed_video, subtitles, deliverables,
}

-- The file behind an artifact field.
abbrev pub artifact : Deliverable → Artifact
artifact burned_video = burned_mp4
artifact dubbed_video = dubbed_mp4
artifact subtitles = subtitles_srt

all_present-All :
    (out : Output) (ds : List Deliverable)
    → all_present out (map artifact ds) ≡ true
    → All (λ d. is_present out (artifact d) ≡ true) ds
all_present-All out [] h = tt
all_present-All out (d ∷ ds) h = (ground (arith, h), all_present-All out ds (ground (arith, h)))

-- The worker works out the same list as the kernel.
expected-deliverables :
    (burn_enabled : Bool) (s : MuxSettings)
    → expected burn_enabled s
      ≡ map artifact (deliverables s.output_mode s.subtitle_delivery burn_enabled)
unfolding expected deliverables
expected-deliverables burn_enabled s = ground arith

-- Once `mux` has returned, from its cache or after a build_all, every file that the worker uploads for
-- the job's output mode and subtitle delivery is in the output directory.
pub mux_delivers :
    (burn_enabled : Bool) (dir : Inputs) (run : MuxStep → Result MuxError (Unit {0})) (force : Bool)
    (s : MuxSettings) (before after : Output) (m : Muxed)
    → mux burn_enabled dir run force s before ≡ (after, ok m)
    → All
        (λ d. is_present after (artifact d) ≡ true)
        (deliverables s.output_mode s.subtitle_delivery burn_enabled)
mux_delivers burn_enabled dir run force s before after m e =
    all_present-All after (deliverables s.output_mode s.subtitle_delivery burn_enabled) (
      subst (λ files. all_present after files ≡ true) (expected-deliverables burn_enabled s)
        (mux-Ready burn_enabled dir run force s before after m e).1)
