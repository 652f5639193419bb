-- ===== src/Kernel/Align.antt =====
-- `align` of packages/autodub-core/src/autodub_core/stages.py, with `_media_duration_ms` and
-- `_write_silence`. ffmpeg and ffprobe are parameters. Ratios are in thousandths.
pub mod Crash
mod Tests
use open_video_trans.Common.{
  ℕ, String, Bool, true, false, not, ◌&&◌, Option, none, some, List, [], ◌∷◌, if◌then◌else◌, Result,
  ok, err,
}
use open_video_trans.Schemas.{DubbingSegment}
use open_video_trans.Kernel.Timeline.{
  Wav, Factor, TimingPlan, wav_duration_ms, silence_frames, assign_timing,
}
use open_video_trans.Kernel.Artifacts.{JobDir, Plan, skip, fails, produces, Run, artifact_loop}

-- A raw clip: whether it is named .wav, and what `wave` reads from it, if it can.
pub record RawFile : Type 0 where
  pub named_wav : Bool
  pub wave : Option Wav

-- An aligned clip: silence, by its frames, or a raw clip of a duration, sped up.
pub data Aligned : Type 0 where
  silent : ℕ → Aligned
  converted : ℕ → Option (List Factor) → Aligned

abbrev pub is_missing : Option Aligned → Bool
is_missing none = true
is_missing (some clip) = false

-- `_write_silence(out_wav, ms)`
abbrev pub silence_of : ℕ → Aligned
silence_of ms = silent (silence_frames ms)

abbrev pub kept_original : DubbingSegment → DubbingSegment
kept_original s = record (s) { align_method = some "silence" }

abbrev pub without_clip : DubbingSegment → DubbingSegment
without_clip s = record (s) { align_method = some "missing"; needs_review = true }

-- The unconditional write-back of the timing plan.
abbrev pub with_timing : TimingPlan → DubbingSegment → DubbingSegment
with_timing timing s = record (s) {
  align_method = some timing.method;
  align_ratio = some timing.align_ratio;
  needs_review = timing.needs_review;
}

-- `probe` is `ff.probe_duration_ms`.
module _ (probe : RawFile → Result String ℕ) where
  abbrev pub wave_or_probe : RawFile → Option Wav → Result String ℕ
  wave_or_probe raw none = probe raw
  wave_or_probe raw (some w) = ok (wav_duration_ms w)

  -- `_media_duration_ms(path)`
  abbrev pub media_duration_ms : RawFile → Result String ℕ
  media_duration_ms raw = if raw.named_wav then wave_or_probe raw raw.wave else probe raw

-- What the loop uses: `ff.assert_ffmpeg`, `ff.probe_duration_ms`, `paths.find_tts_raw`, the writer of
-- silence and `ff.to_canonical_wav`, the last two with what they raise.
pub record Tools : Type 0 where
  pub assert_ffmpeg : Result String (Unit {0})
  pub probe_duration_ms : RawFile → Result String ℕ
  pub find_tts_raw : ℕ → Option RawFile
  pub write_silence : ℕ → Result String (Unit {0})
  pub to_canonical_wav : RawFile → Option (List Factor) → Result String (Unit {0})

module _ (tools : Tools) where
  -- The raw clip is measured and converted as its timing says.
  abbrev pub convert_plan : DubbingSegment → RawFile → Result String ℕ → Plan String Aligned
  convert_plan s raw (err e) = fails e
  convert_plan s raw (ok actual_ms) =
      let timing = assign_timing actual_ms s.target_duration_ms in
      produces (with_timing timing s) (converted actual_ms timing.atempo_chain)
        (tools.to_canonical_wav raw timing.atempo_chain)

  abbrev pub checked_plan :
      DubbingSegment → RawFile → Result String (Unit {0}) → Plan String Aligned
  checked_plan s raw (err e) = fails e
  checked_plan s raw (ok found) = convert_plan s raw (media_duration_ms tools.probe_duration_ms raw)

  abbrev pub raw_plan : DubbingSegment → Option RawFile → Plan String Aligned
  raw_plan s none =
      produces (without_clip s) (silence_of s.target_duration_ms)
        (tools.write_silence s.target_duration_ms)
  raw_plan s (some raw) = checked_plan s raw tools.assert_ffmpeg

  -- One segment of the loop.
  abbrev pub align_plan : Bool → JobDir Aligned → DubbingSegment → Plan String Aligned
  align_plan force dir s =
      let kept =
        produces (kept_original s) (silence_of s.target_duration_ms)
          (tools.write_silence s.target_duration_ms) in
      if not (is_missing (dir.clips s.index)) && not force
      then skip
      else if s.keep_original
      then kept
      else raw_plan s (tools.find_tts_raw s.index)

  -- `align(paths, force)`: the states of the job directory.
  unfoldable pub align : Bool → JobDir Aligned → Run String Aligned
  align force dir = artifact_loop (align_plan force) [] dir.segments dir
