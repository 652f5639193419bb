-- ===== src/Kernel/Align/Tests.antt =====
-- `align` on a kept original, a clip that is too long, and a segment without a clip.
use open_video_trans.Common.{
  ℕ, ◌≡◌, refl, Bool, true, false, none, some, List, [], ◌∷◌, Result, ok, err, All, arith, eqb,
  if◌then◌else◌, length, map, String,
}
use open_video_trans.Common.Chars.{codes}
use open_video_trans.Schemas.{DubbingSegment}
use open_video_trans.Kernel.Timeline.{wav_duration_ms, chain_from, atempo_chain_for, assign_timing}
use open_video_trans.Kernel.Artifacts.{JobDir, artifact_loop}
use open_video_trans.Kernel.Artifacts.Durable.{IsDurable}
use open_video_trans.Kernel.Align.{RawFile, Aligned, silent, Tools, align}
use open_video_trans.Kernel.Align.Crash.{Tells, align_crash_safe}

program : Unit {0}
unfolding wav_duration_ms chain_from atempo_chain_for assign_timing artifact_loop align
program = tt

abbrev segment : ℕ → Bool → DubbingSegment
segment index kept = record {
  segment_id = codes "seg";
  index = index;
  speaker_id = "SPEAKER_00";
  start_ms = 0;
  end_ms = 500;
  target_duration_ms = 500;
  source_text = codes "hello";
  target_text = codes "hola";
  voice_id = none;
  tts_provider = none;
  keep_original = kept;
  align_method = none;
  align_ratio = none;
  needs_review = false;
}

-- 3 seconds of speech.
abbrev speech : RawFile
speech = record {
  named_wav = true;
  wave = some (record { channels = 1; sampwidth = 2; rate = 48_000; frames = 144_000 });
}

abbrev tools : Tools
tools = record {
  assert_ffmpeg = ok tt;
  probe_duration_ms = λ raw. err "not probed";
  find_tts_raw = λ i. if eqb i 1 then some speech else none;
  write_silence = λ ms. ok tt;
  to_canonical_wav = λ raw chain. ok tt;
}

abbrev no_ffmpeg : Tools
no_ffmpeg = record (tools) { assert_ffmpeg = err "ffmpeg not found" }

abbrev fresh : JobDir Aligned
fresh = record {
  segments = segment 0 true ∷ segment 1 false ∷ segment 2 false ∷ [];
  clips = λ i. none;
}

abbrev reviewed : Result String (JobDir Aligned) → List Bool
reviewed (err e) = []
reviewed (ok dir) = map (λ (s : DubbingSegment). s.needs_review) dir.segments

all_aligned : reviewed (align tools false fresh).1 ≡ false ∷ true ∷ true ∷ []
unfolding program
all_aligned = refl

-- Without ffmpeg the loop stops at the first raw clip.
stopped :
    ((align no_ffmpeg false fresh).1 ≡ err "ffmpeg not found")
    × (length (align no_ffmpeg false fresh).0 ≡ 4)
unfolding program
stopped = (refl, refl)

-- A directory whose clips are all there is only written once, whatever the tools do.
nothing_to_do :
    length (align no_ffmpeg false (record (fresh) { clips = λ i. some (silent 24_000) })).0 ≡ 1
unfolding program
nothing_to_do = refl

align_crash_safe_example : All (IsDurable Tells) (align tools true fresh).0
align_crash_safe_example =
    align_crash_safe tools true fresh (omega arith, (omega arith, (omega arith, tt)))
      (tt, (tt, (tt, tt)))
