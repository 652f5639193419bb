-- ===== src/Kernel/Align/Crash.antt =====
-- A crash of `align` between any two changes of the job directory.
use open_video_trans.Common.{
  ℕ, ◌≡◌, refl, String, Bool, true, not, ◌&&◌, ◌⊎◌, inl, inr, Option, none, some, [], All, Result,
  ok, err,
}
use open_video_trans.Schemas.{DubbingSegment}
use open_video_trans.Kernel.Timeline.{silence_frames, assign_timing}
use open_video_trans.Kernel.Artifacts.{JobDir, skip}
use open_video_trans.Kernel.Artifacts.Durable.{IsDurable, Increasing, TellsPlan, if-TellsPlan}
use open_video_trans.Kernel.Artifacts.Crash.{artifact_loop-IsDurable}
use open_video_trans.Kernel.Align.{
  RawFile, Aligned, silent, converted, is_missing, media_duration_ms, Tools, convert_plan,
  checked_plan, raw_plan, align_plan, align,
}

-- The metadata of a segment tells of its aligned clip: silence is for a kept original or flagged as
-- missing, and a converted clip has the method, the ratio and the flag of its timing.
abbrev pub Tells : DubbingSegment → Aligned → Type 0
Tells s (silent frames) =
    (frames ≡ silence_frames s.target_duration_ms)
    × ((s.align_method ≡ some "silence")
        ⊎ ((s.align_method ≡ some "missing") × (s.needs_review ≡ true)))
Tells s (converted actual_ms chain) =
    let timing = assign_timing actual_ms s.target_duration_ms in
    (chain ≡ timing.atempo_chain)
    × (s.align_method ≡ some timing.method)
    × (s.align_ratio ≡ some timing.align_ratio)
    × (s.needs_review ≡ timing.needs_review)

module _ (tools : Tools) where
  convert_plan-TellsPlan :
      (s : DubbingSegment) (raw : RawFile) (duration : Result String ℕ)
      → TellsPlan Tells s (convert_plan tools s raw duration)
  convert_plan-TellsPlan s raw (err e) = tt
  convert_plan-TellsPlan s raw (ok actual_ms) = (refl, (refl, refl, refl, refl))

  checked_plan-TellsPlan :
      (s : DubbingSegment) (raw : RawFile) (found : Result String (Unit {0}))
      → TellsPlan Tells s (checked_plan tools s raw found)
  checked_plan-TellsPlan s raw (err e) = tt
  checked_plan-TellsPlan s raw (ok found) =
      convert_plan-TellsPlan s raw (media_duration_ms tools.probe_duration_ms raw)

  raw_plan-TellsPlan :
      (s : DubbingSegment) (raw : Option RawFile) → TellsPlan Tells s (raw_plan tools s raw)
  raw_plan-TellsPlan s none = (refl, (refl, inr (refl, refl)))
  raw_plan-TellsPlan s (some raw) = checked_plan-TellsPlan s raw tools.assert_ffmpeg

  align_plan-TellsPlan :
      (force : Bool) (dir : JobDir Aligned) (s : DubbingSegment)
      → TellsPlan Tells s (align_plan tools force dir s)
  align_plan-TellsPlan force dir s =
      if-TellsPlan Tells s (not (is_missing (dir.clips s.index)) && not force) skip _ tt (
        if-TellsPlan Tells s s.keep_original _ _ (refl, (refl, inl refl))
          (raw_plan-TellsPlan s (tools.find_tts_raw s.index)))

  -- If the indexes of the segments grow and segments.json tells of each aligned clip on the disk
  -- (silence is a kept original or flagged as missing, and a converted clip has the method, the
  -- ratio and the review flag of its timing), then that holds in every state the directory goes
  -- through, so after a crash at any point; whichever of the tools fails.
  pub align_crash_safe :
      (force : Bool) (dir : JobDir Aligned)
      → Increasing 0 dir.segments
      → IsDurable Tells dir
      → All (IsDurable Tells) (align tools force dir).0
  unfolding align
  align_crash_safe force dir inc d =
      artifact_loop-IsDurable Tells (align_plan tools force) (align_plan-TellsPlan force) 0 []
        dir.segments dir (tt, inc, tt, d) d
