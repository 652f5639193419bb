-- ===== src/Kernel/Tts/Crash.antt =====
-- A crash of `tts` between any two changes of the job directory.
use open_video_trans.Common.{
  ℕ, ◌+◌, ◌≡◌, refl, String, Bool, Option, none, some, List, [], ◌∷◌, map, All, Bool-cases, inl,
  inr, Result, ok, err, lookup,
}
use open_video_trans.Schemas.{DubbingSegment}
use open_video_trans.Kernel.Voices.{TtsError, assign_voices}
use open_video_trans.Kernel.Artifacts.{JobDir, skip}
use open_video_trans.Kernel.Artifacts.Durable.{
  AllTell, TellsOf, IsDurable, Increasing, TellsPlan, if-TellsPlan,
}
use open_video_trans.Kernel.Artifacts.Crash.{artifact_loop-IsDurable}
use open_video_trans.Kernel.Tts.{
  Raw, keep_blank, needs_synth, any_needs, Synthesis, synth_plan, tts_plan, synth_from, speakers,
  synth_all, with_engine, tts,
}

-- The metadata of a segment tells which voice and which provider made its clip.
abbrev pub Tells : DubbingSegment → Raw → Type 0
Tells s raw = (s.voice_id ≡ some raw.voice) × (s.tts_provider ≡ some raw.provider)

module _ (provider : String) (synthesize : Synthesis) (voices : List (String × String))
    (needs : DubbingSegment → Bool) where
  synth_plan-TellsPlan :
      (s : DubbingSegment) (voice : Option String)
      → TellsPlan Tells s (synth_plan provider synthesize voices needs s voice)
  synth_plan-TellsPlan s none = tt
  synth_plan-TellsPlan s (some voice) = (refl, (refl, refl))

  tts_plan-TellsPlan :
      (dir : JobDir Raw) (s : DubbingSegment)
      → TellsPlan Tells s (tts_plan provider synthesize voices needs dir s)
  tts_plan-TellsPlan dir s =
      if-TellsPlan Tells s (needs s) _ skip (synth_plan-TellsPlan s (lookup s.speaker_id voices)) tt

  synth_from-IsDurable :
      (segments : List DubbingSegment) (dir : JobDir Raw)
      → Increasing 0 segments
      → AllTell Tells dir.clips segments
      → IsDurable Tells dir
      → All (IsDurable Tells) (synth_from provider synthesize voices needs segments dir).0
  unfolding synth_from
  synth_from-IsDurable segments dir inc h d =
      artifact_loop-IsDurable Tells (tts_plan provider synthesize voices needs) tts_plan-TellsPlan 0
        [] segments dir (tt, inc, tt, h) d

TellsOf-keep_blank :
    (s : DubbingSegment) (raw : Option Raw) → TellsOf Tells s raw → TellsOf Tells (keep_blank s) raw
TellsOf-keep_blank s none h = tt
TellsOf-keep_blank s (some raw) h = h

keep_blank-AllTell :
    (clips : ℕ → Option Raw) (segments : List DubbingSegment)
    → AllTell Tells clips segments
    → AllTell Tells clips (map keep_blank segments)
keep_blank-AllTell clips [] h = tt
keep_blank-AllTell clips (s ∷ segments) h =
    (TellsOf-keep_blank s (clips s.index) h.0, keep_blank-AllTell clips segments h.1)

keep_blank-Increasing :
    (n : ℕ) (segments : List DubbingSegment)
    → Increasing n segments
    → Increasing n (map keep_blank segments)
keep_blank-Increasing n [] h = tt
keep_blank-Increasing n (s ∷ segments) h = (h.0, keep_blank-Increasing (s.index + 1) segments h.1)

module _ (select : Result TtsError (String × Synthesis × List String)) (voice_id : Option String)
    (voice_pool : Option (List String)) where
  synth_all-IsDurable :
      (segments : List DubbingSegment) (needs : DubbingSegment → Bool) (dir : JobDir Raw)
      (provider : String) (synthesize : Synthesis)
      (assigned : Result TtsError (List (String × String)))
      → Increasing 0 segments
      → AllTell Tells dir.clips segments
      → IsDurable Tells dir
      → All
          (IsDurable Tells)
          (synth_all select voice_id voice_pool segments needs dir provider synthesize assigned).0
  synth_all-IsDurable segments needs dir provider synthesize (err e) inc h d = tt
  synth_all-IsDurable segments needs dir provider synthesize (ok voices) inc h d =
      synth_from-IsDurable provider synthesize voices needs segments dir inc h d

  with_engine-IsDurable :
      (segments : List DubbingSegment) (needs : DubbingSegment → Bool) (dir : JobDir Raw)
      (engine : Result TtsError (String × Synthesis × List String))
      → Increasing 0 segments
      → AllTell Tells dir.clips segments
      → IsDurable Tells dir
      → All (IsDurable Tells) (with_engine select voice_id voice_pool segments needs dir engine).0
  with_engine-IsDurable segments needs dir (err e) inc h d = tt
  with_engine-IsDurable segments needs dir (ok (provider, synthesize, offered)) inc h d =
      synth_all-IsDurable segments needs dir provider synthesize
        (assign_voices offered (speakers segments) voice_id voice_pool) inc h d

  -- If the indexes of the segments grow and each clip on the disk has its voice and provider in
  -- segments.json, then that holds in every state the directory goes through, so after a crash at
  -- any point; whatever the resolver answers and whichever call to the provider fails.
  pub tts_crash_safe :
      (force : Bool) (dir : JobDir Raw)
      → Increasing 0 dir.segments
      → IsDurable Tells dir
      → All (IsDurable Tells) (tts select voice_id voice_pool force dir).0
  unfolding tts
  tts_crash_safe force dir inc d =
      let segments = map keep_blank dir.segments in
      let kept = keep_blank-AllTell dir.clips dir.segments d in
      elim (Bool-cases (any_needs force dir.clips segments)) [
        | inl some_needed ↦ rw some_needed (
            with_engine-IsDurable segments (needs_synth force dir.clips) dir select
              (keep_blank-Increasing 0 dir.segments inc) kept d)
        | inr nothing ↦ rw nothing (kept, tt)
      ]
