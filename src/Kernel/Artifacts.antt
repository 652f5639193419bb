-- ===== src/Kernel/Artifacts.antt =====
-- The loop that `tts` and `align` of packages/autodub-core/src/autodub_core/stages.py share: for each
-- segment the stale file goes, segments.json is written with the new metadata, and the file of the
-- segment appears. Every change of the job directory is a state, so that a crash between two of
-- them can be studied.
pub mod Durable
pub mod Crash
use open_video_trans.Common.{
  ℕ, Option, none, some, List, [], ◌∷◌, ◌++◌, eqb, if◌then◌else◌, Result, ok, err,
}
use open_video_trans.Schemas.{DubbingSegment}

-- segments.json, and the file of each segment by its index.
pub record JobDir (C : Type 0) : Type 0 where
  pub segments : List DubbingSegment
  pub clips : ℕ → Option C

abbrev pub set_clip {ℓ} : {C : Type ℓ} → ℕ → Option C → (ℕ → Option C) → ℕ → Option C
set_clip i clip clips j = if eqb j i then clip else clips j

-- What happens to a segment: nothing, an exception once the stale file is gone, or new metadata and
-- a file, unless making the file raises.
pub data Plan (X C : Type 0) : Type 0 where
  skip : Plan X C
  fails : X → Plan X C
  produces : DubbingSegment → C → Result X (Unit {0}) → Plan X C

module _ {C : Type 0} where
  abbrev pub drop_clip : ℕ → JobDir C → JobDir C
  drop_clip i dir = record { segments = dir.segments; clips = set_clip i none dir.clips }

  abbrev pub add_clip : ℕ → C → JobDir C → JobDir C
  add_clip i clip dir = record { segments = dir.segments; clips = set_clip i (some clip) dir.clips }

  -- `write_json(paths.segments, result.model_dump())`
  abbrev pub write_segments : List DubbingSegment → JobDir C → JobDir C
  write_segments segments dir = record { segments = segments; clips = dir.clips }

-- The states of the directory after each change, and the last of them or the exception.
abbrev pub Run : Type 0 → Type 0 → Type 0
Run X C = List (JobDir C) × Result X (JobDir C)

module _ {X C : Type 0} where
  abbrev pub preceded : List (JobDir C) → Run X C → Run X C
  preceded states run = (states ++ run.0, run.1)

  -- The file is there, or making it raised before it was.
  abbrev pub if_answered : List (JobDir C) → Run X C → Result X (Unit {0}) → Run X C
  if_answered states later (err e) = (states, err e)
  if_answered states later (ok done) = preceded states later

  -- One segment, and the rest of the loop.
  abbrev pub produce_one :
      List DubbingSegment
      → DubbingSegment
      → List DubbingSegment
      → JobDir C
      → (DubbingSegment → JobDir C → Run X C)
      → Plan X C
      → Run X C
  produce_one before s after dir rest skip = rest s dir
  produce_one before s after dir rest (fails e) = (drop_clip s.index dir ∷ [], err e)
  produce_one before s after dir rest (produces marked clip answer) =
      let dropped = drop_clip s.index dir in
      let written = write_segments (before ++ marked ∷ after) dropped in
      let made = add_clip s.index clip written in
      if_answered (dropped ∷ written ∷ []) (preceded (made ∷ []) (rest marked made)) answer

  module _ (plan : JobDir C → DubbingSegment → Plan X C) where
    -- The loop: the segments before and those to come.
    unfoldable pub artifact_loop : List DubbingSegment → List DubbingSegment → JobDir C → Run X C
    artifact_loop before [] dir = let final = write_segments before dir in (final ∷ [], ok final)
    artifact_loop before (s ∷ after) dir =
        produce_one before s after dir (λ marked d. artifact_loop (before ++ marked ∷ []) after d)
          (plan dir s)
