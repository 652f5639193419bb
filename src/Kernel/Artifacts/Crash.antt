-- ===== src/Kernel/Artifacts/Crash.antt =====
-- A crash of the loop between any two changes of the job directory.
use open_video_trans.Common.{ℕ, ◌+◌, List, [], ◌∷◌, ◌++◌, All, Result, ok, err}
use open_video_trans.Schemas.{DubbingSegment}
use open_video_trans.Kernel.Artifacts.{
  JobDir, Plan, skip, fails, produces, Run, if_answered, produce_one, artifact_loop,
}
use open_video_trans.Kernel.Artifacts.Durable.{
  AllTell-dropped, IsDurable, TellsPlan, Loop, skipped-Loop, written-IsDurable, made-IsDurable,
  made-Loop,
}

module _ {X C : Type 0} (Tells : DubbingSegment → C → Type 0) where
  if_answered-IsDurable :
      (first second : JobDir C) (later : Run X C) (answer : Result X (Unit {0}))
      → All (IsDurable Tells) (first ∷ second ∷ [])
      → All (IsDurable Tells) later.0
      → All (IsDurable Tells) (if_answered (first ∷ second ∷ []) later answer).0
  if_answered-IsDurable first second later (err e) h g = h
  if_answered-IsDurable first second later (ok done) h g = (h.0, ((h.1).0, g))

  -- The rest of the loop, from where one segment leaves it, goes through durable states only.
  abbrev Later :
      List DubbingSegment
      → DubbingSegment
      → List DubbingSegment
      → (DubbingSegment → JobDir C → Run X C)
      → Type 0
  Later before s after rest =
      (n : ℕ) (marked : DubbingSegment) (dir : JobDir C)
      → Loop Tells n (before ++ marked ∷ []) after dir
      → IsDurable Tells dir
      → All (IsDurable Tells) (rest marked dir).0

  produce_one-IsDurable :
      (n : ℕ) (before : List DubbingSegment) (s : DubbingSegment) (after : List DubbingSegment)
      (dir : JobDir C) (rest : DubbingSegment → JobDir C → Run X C) (plan : Plan X C)
      → TellsPlan Tells s plan
      → Loop Tells n before (s ∷ after) dir
      → IsDurable Tells dir
      → Later before s after rest
      → All (IsDurable Tells) (produce_one before s after dir rest plan).0
  produce_one-IsDurable n before s after dir rest skip tells h d later =
      later (s.index + 1) s dir (skipped-Loop Tells n before s after dir h) d
  produce_one-IsDurable n before s after dir rest (fails e) tells h d later =
      (AllTell-dropped Tells s.index dir.clips dir.segments d, tt)
  produce_one-IsDurable n before s after dir rest (produces marked clip answer) tells h d later =
      let dropped = AllTell-dropped Tells s.index dir.clips dir.segments d in
      let on_disk = written-IsDurable Tells n before s after dir marked clip tells.0 tells.1 h in
      let made = made-IsDurable Tells n before s after dir marked clip tells.0 tells.1 h in
      let loop = made-Loop Tells n before s after dir marked clip tells.0 tells.1 h in
      if_answered-IsDurable _ _ _ answer (dropped, (on_disk, tt))
        (made, later (s.index + 1) marked _ loop made)

  module _ (plan : JobDir C → DubbingSegment → Plan X C)
      (tells : (dir : JobDir C) (s : DubbingSegment) → TellsPlan Tells s (plan dir s)) where
    pub artifact_loop-IsDurable :
        (n : ℕ) (before after : List DubbingSegment) (dir : JobDir C)
        → Loop Tells n before after dir
        → IsDurable Tells dir
        → All (IsDurable Tells) (artifact_loop plan before after dir).0
    unfolding artifact_loop
    artifact_loop-IsDurable n before [] dir h d = (h.2, tt)
    artifact_loop-IsDurable n before (s ∷ after) dir h d =
        produce_one-IsDurable n before s after dir
          (λ marked d'. artifact_loop plan (before ++ marked ∷ []) after d') (plan dir s)
          (tells dir s) h d
          (λ m marked d' l g. artifact_loop-IsDurable m (before ++ marked ∷ []) after d' l g)
