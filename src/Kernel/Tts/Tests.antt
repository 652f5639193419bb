-- ===== src/Kernel/Tts/Tests.antt =====
-- `tts` on two segments, the second of which fails.
use open_video_trans.Common.{
  ℕ, ◌≡◌, refl, String, true, false, none, List, [], ◌∷◌, Result, ok, err, All, arith, eqb,
  if◌then◌else◌, length,
}
use open_video_trans.Common.Chars.{Text, codes, strip, is_space}
use open_video_trans.Schemas.{DubbingSegment}
use open_video_trans.Kernel.Voices.{TtsError, synthesis_failed, spread, assign_voices}
use open_video_trans.Kernel.Artifacts.{JobDir, artifact_loop}
use open_video_trans.Kernel.Tts.{Raw, Synthesis, synth_from, tts}
use open_video_trans.Kernel.Artifacts.Durable.{IsDurable}
use open_video_trans.Kernel.Tts.Crash.{Tells, tts_crash_safe}

program : Unit {0}
unfolding is_space strip spread assign_voices artifact_loop synth_from tts
program = tt

abbrev segment : ℕ → Text → DubbingSegment
segment index target = record {
  segment_id = codes "seg";
  index = index;
  speaker_id = "SPEAKER_00";
  start_ms = 0;
  end_ms = 900;
  target_duration_ms = 900;
  source_text = codes "hello";
  target_text = target;
  voice_id = none;
  tts_provider = none;
  keep_original = false;
  align_method = none;
  align_ratio = none;
  needs_review = false;
}

abbrev fresh : JobDir Raw
fresh = record {
  segments = segment 0 (codes "hola") ∷ segment 1 (codes " ") ∷ segment 2 (codes "dos") ∷ [];
  clips = λ i. none;
}

-- The provider fails at the third segment.
abbrev flaky : Synthesis
flaky s voice = if eqb s.index 2 then err "timeout" else ok tt

abbrev engine : Result TtsError (String × Synthesis × List String)
engine = ok ("piper", flaky, "amy" ∷ [])

stopped :
    ((tts engine none none false fresh).1 ≡ err (synthesis_failed "timeout"))
    × (length (tts engine none none false fresh).0 ≡ 5)
unfolding program
stopped = (refl, refl)

abbrev no_engine : Result TtsError (String × Synthesis × List String)
no_engine = err TtsError.provider_unavailable

abbrev complete : JobDir Raw
complete = record { segments = segment 1 (codes " ") ∷ []; clips = λ i. none }

-- Where no segment has a text to speak, no provider is asked for.
nothing_to_speak : length (tts no_engine none none true complete).0 ≡ 1
unfolding program
nothing_to_speak = refl

tts_crash_safe_example : All (IsDurable Tells) (tts engine none none false fresh).0
tts_crash_safe_example =
    tts_crash_safe engine none none false fresh (omega arith, (omega arith, (omega arith, tt)))
      (tt, (tt, (tt, tt)))
