-- ===== src/Kernel/Artifacts/Durable.antt =====
-- One segment of the loop: each change of the job directory keeps the metadata of its files.
use open_video_trans.Common.{
  ℕ, ◌+◌, ◌≤◌, ◌<◌, ◌≡◌, Bool, true, false, Option, none, some, List, [], ◌∷◌, ◌++◌, eqb, arith,
  All, All-append, Bool-cases, inl, inr, if◌then◌else◌,
}
use open_video_trans.Schemas.{DubbingSegment}
use open_video_trans.Kernel.Artifacts.{
  JobDir, set_clip, Plan, skip, fails, produces, drop_clip, add_clip, write_segments,
}

-- The indexes grow, from a number on.
abbrev pub Increasing : ℕ → List DubbingSegment → Type 0
Increasing n [] = Unit {0}
Increasing n (s ∷ segments) = (n ≤ s.index) × Increasing (s.index + 1) segments

abbrev pub Below : ℕ → List DubbingSegment → Type 0
Below n segments = All (λ (s : DubbingSegment). s.index < n) segments

pub All-map {ℓ} :
    {A : Type ℓ} (P Q : A → Type 0) (xs : List A) → ((x : A) → P x → Q x) → All P xs → All Q xs
All-map P Q [] f h = tt
All-map P Q (x ∷ xs) f h = (f x h.0, All-map P Q xs f h.1)

Increasing-apart :
    (i n : ℕ) (segments : List DubbingSegment)
    → i < n
    → Increasing n segments
    → All (λ (s : DubbingSegment). eqb s.index i ≡ false) segments
Increasing-apart i n [] lt h = tt
Increasing-apart i n (s ∷ segments) lt h = (
  ground (arith, lt, h.0),
  Increasing-apart i (s.index + 1) segments (omega (arith, lt, h.0)) h.1,
)

eqb_self : (i : ℕ) → eqb i i ≡ true
eqb_self i = ground arith

-- `Tells s c`: the metadata of a segment tells how a file was made.
module _ {C : Type 0} (Tells : DubbingSegment → C → Type 0) where
  abbrev pub TellsOf : DubbingSegment → Option C → Type 0
  TellsOf s none = Unit {0}
  TellsOf s (some c) = Tells s c

  abbrev pub AllTell : (ℕ → Option C) → List DubbingSegment → Type 0
  AllTell clips segments = All (λ (s : DubbingSegment). TellsOf s (clips s.index)) segments

  -- Every file on the disk has its metadata in segments.json.
  abbrev pub IsDurable : JobDir C → Type 0
  IsDurable dir = AllTell dir.clips dir.segments

  -- A plan that makes a file keeps the index of the segment and writes what the file is.
  abbrev pub TellsPlan : {X : Type 0} → DubbingSegment → Plan X C → Type 0
  TellsPlan {X} s skip = Unit {0}
  TellsPlan {X} s (fails e) = Unit {0}
  TellsPlan {X} s (produces marked clip answer) = (marked.index ≡ s.index) × Tells marked clip

  TellsOf-dropped :
      (s : DubbingSegment) (i : ℕ) (clips : ℕ → Option C)
      → TellsOf s (clips s.index)
      → TellsOf s (set_clip i none clips s.index)
  TellsOf-dropped s i clips h = elim (Bool-cases (eqb s.index i)) [
    | inl same ↦ rw same tt
    | inr other ↦ rw other h
  ]

  pub AllTell-dropped :
      (i : ℕ) (clips : ℕ → Option C) (segments : List DubbingSegment)
      → AllTell clips segments
      → AllTell (set_clip i none clips) segments
  AllTell-dropped i clips segments h = All-map _ _ segments (λ s t. TellsOf-dropped s i clips t) h

  AllTell-apart :
      (i : ℕ) (clip : C) (clips : ℕ → Option C) (segments : List DubbingSegment)
      → All (λ (s : DubbingSegment). eqb s.index i ≡ false) segments
      → AllTell clips segments
      → AllTell (set_clip i (some clip) clips) segments
  AllTell-apart i clip clips [] apart h = tt
  AllTell-apart i clip clips (s ∷ segments) apart h =
      (rw apart.0 h.0, AllTell-apart i clip clips segments apart.1 h.1)

  -- What the loop relies on: distinct indexes, and files that their segments tell of.
  abbrev pub Loop : ℕ → List DubbingSegment → List DubbingSegment → JobDir C → Type 0
  Loop n before after dir =
      Below n before × Increasing n after × AllTell dir.clips before × AllTell dir.clips after

  pub skipped-Loop :
      (n : ℕ) (before : List DubbingSegment) (s : DubbingSegment) (after : List DubbingSegment)
      (dir : JobDir C)
      → Loop n before (s ∷ after) dir
      → Loop (s.index + 1) (before ++ s ∷ []) after dir
  skipped-Loop n before s after dir h = (
    All-append (λ (x : DubbingSegment). x.index < s.index + 1) before (s ∷ [])
        (All-map (λ (x : DubbingSegment). x.index < n) _ before (λ x lt. omega (arith, lt, (h.1).0))
          h.0)
        (omega arith, tt),
    (h.1).1,
    All-append (λ (x : DubbingSegment). TellsOf x (dir.clips x.index)) before (s ∷ []) h.2
        ((h.3).0, tt),
    (h.3).1,
  )

  -- The states of one segment that gets a file, and what the loop relies on after it.
  module _ (n : ℕ) (before : List DubbingSegment) (s : DubbingSegment) (after : List DubbingSegment)
      (dir : JobDir C) (marked : DubbingSegment) (clip : C) (here : marked.index ≡ s.index)
      (tells : Tells marked clip) (h : Loop n before (s ∷ after) dir) where
    abbrev pub written : JobDir C
    written = write_segments (before ++ marked ∷ after) (drop_clip s.index dir)

    abbrev pub made : JobDir C
    made = add_clip s.index clip written

    at_mark : eqb marked.index s.index ≡ true
    at_mark = ground (arith, here)

    marked-written : TellsOf marked (set_clip s.index none dir.clips marked.index)
    marked-written = rw at_mark tt

    marked-made : TellsOf marked (made.clips marked.index)
    marked-made = rw at_mark tells

    pub written-IsDurable : IsDurable written
    written-IsDurable =
        All-append (λ (x : DubbingSegment). TellsOf x (set_clip s.index none dir.clips x.index))
          before (marked ∷ after) (AllTell-dropped s.index dir.clips before h.2)
          (marked-written, AllTell-dropped s.index dir.clips after (h.3).1)

    Below-apart : All (λ (x : DubbingSegment). eqb x.index s.index ≡ false) before
    Below-apart =
        All-map (λ (x : DubbingSegment). x.index < n) _ before (λ x lt. ground (arith, lt, (h.1).0))
          h.0

    before-made : AllTell made.clips before
    before-made =
        AllTell-apart s.index clip written.clips before Below-apart
          (AllTell-dropped s.index dir.clips before h.2)

    after-made : AllTell made.clips after
    after-made =
        AllTell-apart s.index clip written.clips after
          (Increasing-apart s.index (s.index + 1) after (omega arith) (h.1).1)
          (AllTell-dropped s.index dir.clips after (h.3).1)

    pub made-IsDurable : IsDurable made
    made-IsDurable =
        All-append (λ (x : DubbingSegment). TellsOf x (made.clips x.index)) before (marked ∷ after)
          before-made (marked-made, after-made)

    pub made-Loop : Loop (s.index + 1) (before ++ marked ∷ []) after made
    made-Loop = (
      All-append (λ (x : DubbingSegment). x.index < s.index + 1) before (marked ∷ [])
          (All-map (λ (x : DubbingSegment). x.index < n) _ before
            (λ x lt. omega (arith, lt, (h.1).0)) h.0)
          (omega (arith, here), tt),
      (h.1).1,
      All-append (λ (x : DubbingSegment). TellsOf x (made.clips x.index)) before (marked ∷ [])
          before-made (marked-made, tt),
      after-made,
    )

pub if-TellsPlan :
    {X C : Type 0} (Tells : DubbingSegment → C → Type 0) (s : DubbingSegment) (b : Bool)
    (p q : Plan X C)
    → TellsPlan Tells s p
    → TellsPlan Tells s q
    → TellsPlan Tells s (if b then p else q)
if-TellsPlan Tells s true p q h g = h
if-TellsPlan Tells s false p q h g = g
