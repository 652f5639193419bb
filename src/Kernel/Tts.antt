-- ===== src/Kernel/Tts.antt =====
-- `tts` of packages/autodub-core/src/autodub_core/stages.py: which segments are synthesised, and the
-- states that the job directory goes through.
pub mod Crash
mod Tests
use open_video_trans.Common.{
  ℕ, String, Bool, true, false, not, ◌&&◌, ◌||◌, Option, none, some, List, [], ◌∷◌, ◌++◌, map, eqb,
  if◌then◌else◌, lookup, Result, ok, err,
}
use open_video_trans.Common.Chars.{strip, eq_text}
use open_video_trans.Schemas.{DubbingSegment}
use open_video_trans.Kernel.Artifacts.{
  JobDir, Plan, skip, fails, produces, write_segments, Run, artifact_loop,
}
use open_video_trans.Kernel.Voices.{TtsError, unknown_speaker, assign_voices}

-- A raw clip in tts/, by the voice and the provider that made it.
pub record Raw : Type 0 where
  pub voice : String
  pub provider : String

-- `if not seg.target_text.strip(): seg.keep_original = True`
abbrev pub keep_blank : DubbingSegment → DubbingSegment
keep_blank s = record (s) {
  keep_original = if eq_text (strip s.target_text) [] then true else s.keep_original;
}

abbrev pub with_voice : String → String → DubbingSegment → DubbingSegment
with_voice voice provider s = record (s) { voice_id = some voice; tts_provider = some provider }

abbrev pub is_missing : Option Raw → Bool
is_missing none = true
is_missing (some raw) = false

-- The segment is in `to_synth`.
abbrev pub needs_synth : Bool → (ℕ → Option Raw) → DubbingSegment → Bool
needs_synth force raws s = not s.keep_original && (force || is_missing (raws s.index))

abbrev pub any_needs : Bool → (ℕ → Option Raw) → List DubbingSegment → Bool
any_needs force raws [] = false
any_needs force raws (s ∷ segments) = needs_synth force raws s || any_needs force raws segments

-- What a provider answers to a request for a clip.
abbrev pub Synthesis : Type 0
Synthesis = DubbingSegment → String → Result String (Unit {0})

abbrev pub as_failed : Result String (Unit {0}) → Result TtsError (Unit {0})
as_failed (err e) = err (TtsError.synthesis_failed e)
as_failed (ok done) = ok done

module _ (provider : String) (synthesize : Synthesis) (voices : List (String × String))
    (needs : DubbingSegment → Bool) where
  -- One segment of `to_synth`, with `voice_map[seg.speaker_id]`.
  abbrev pub synth_plan : DubbingSegment → Option String → Plan TtsError Raw
  synth_plan s none = fails unknown_speaker
  synth_plan s (some voice) =
      produces (with_voice voice provider s) (record { voice = voice; provider = provider })
        (as_failed (synthesize (with_voice voice provider s) voice))

  abbrev pub tts_plan : JobDir Raw → DubbingSegment → Plan TtsError Raw
  tts_plan dir s = if needs s then synth_plan s (lookup s.speaker_id voices) else skip

  -- The loop over `to_synth` and the last write.
  unfoldable pub synth_from : List DubbingSegment → JobDir Raw → Run TtsError Raw
  synth_from segments dir = artifact_loop tts_plan [] segments dir

abbrev pub speakers : List DubbingSegment → List String
speakers segments = map (λ (s : DubbingSegment). s.speaker_id) segments

module _ (select : Result TtsError (String × Synthesis × List String)) (voice_id : Option String)
    (voice_pool : Option (List String)) where
  abbrev pub synth_all :
      List DubbingSegment
      → (DubbingSegment → Bool)
      → JobDir Raw
      → String
      → Synthesis
      → Result TtsError (List (String × String))
      → Run TtsError Raw
  synth_all segments needs dir provider synthesize (err e) = ([], err e)
  synth_all segments needs dir provider synthesize (ok voices) =
      synth_from provider synthesize voices needs segments dir

  abbrev pub with_engine :
      List DubbingSegment
      → (DubbingSegment → Bool)
      → JobDir Raw
      → Result TtsError (String × Synthesis × List String)
      → Run TtsError Raw
  with_engine segments needs dir (err e) = ([], err e)
  with_engine segments needs dir (ok (provider, synthesize, offered)) =
      synth_all segments needs dir provider synthesize
        (assign_voices offered (speakers segments) voice_id voice_pool)

  -- `tts(paths, resolver, provider, force, voice_id=…, voice_pool=…)`: `select` is what the resolver
  -- answers, the provider's name, its synthesis and its voices for the language.
  unfoldable pub tts : Bool → JobDir Raw → Run TtsError Raw
  tts force dir =
      let segments = map keep_blank dir.segments in
      let final = write_segments segments dir in
      if any_needs force dir.clips segments
      then with_engine segments (needs_synth force dir.clips) dir select
      else (final ∷ [], ok final)
