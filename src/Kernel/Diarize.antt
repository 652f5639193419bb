-- ===== src/Kernel/Diarize.antt =====
-- `diarize` of packages/autodub-core/src/autodub_core/stages.py: the speaker of each line by the
-- overlap with the turns that a diarizer found.
pub mod Dominant
mod Tests
use open_video_trans.Common.{
  ℕ, ◌+◌, ◌-◌, min, max, String, Bool, true, false, not, ◌&&◌, Option, none, some, List, [], ◌∷◌,
  map, ◌==◌, ltb, if◌then◌else◌, Result, ok, err,
}
use open_video_trans.Schemas.{TranscriptLine}
use open_video_trans.Kernel.Voices.{sorted_set}

pub record SpeakerTurn : Type 0 where
  pub start_ms : ℕ
  pub end_ms : ℕ
  pub speaker : String

-- `min(end_ms, t_end) - max(start_ms, t_start)`, or 0 where the source has no positive overlap.
abbrev pub overlap : ℕ → ℕ → SpeakerTurn → ℕ
overlap start end t = min end t.end_ms - max start t.start_ms

-- `by_speaker[sid] = by_speaker.get(sid, 0) + ms`
abbrev pub add_overlap : String → ℕ → List (String × ℕ) → List (String × ℕ)
add_overlap sid ms [] = (sid, ms) ∷ []
add_overlap sid ms ((k, n) ∷ by) =
    let later = add_overlap sid ms by in if sid == k then (k, n + ms) ∷ by else (k, n) ∷ later

-- The loop over the turns.
abbrev pub by_speaker : ℕ → ℕ → List (String × ℕ) → List SpeakerTurn → List (String × ℕ)
by_speaker start end by [] = by
by_speaker start end by (t ∷ turns) =
    let ms = overlap start end t in
    by_speaker start end (if ltb 0 ms then add_overlap t.speaker ms by else by) turns

-- `by_speaker[sid]`, 0 for a speaker without an overlap.
abbrev pub ms_of : String → List (String × ℕ) → ℕ
ms_of sid [] = 0
ms_of sid ((k, n) ∷ by) = if sid == k then n else ms_of sid by

-- `max(…, key=…)` keeps the first of the largest.
abbrev pub largest : List (String × ℕ) → String → List String → String
largest by best [] = best
largest by best (s ∷ speakers) =
    largest by (if ltb (ms_of best by) (ms_of s by) then s else best) speakers

abbrev pub first_largest : List (String × ℕ) → List String → Option String
first_largest by [] = none
first_largest by (s ∷ speakers) = some (largest by s speakers)

abbrev pub speaker_keys : List (String × ℕ) → List String
speaker_keys by = map (λ (e : String × ℕ). e.0) by

-- `_dominant_speaker(start_ms, end_ms, turns)`
unfoldable pub dominant_speaker : ℕ → ℕ → List SpeakerTurn → Option String
dominant_speaker start end turns =
    let by = by_speaker start end [] turns in first_largest by (sorted_set (speaker_keys by))

abbrev pub labelled : TranscriptLine → Option String → TranscriptLine
labelled ln none = ln
labelled ln (some sid) = record (ln) { speaker_id = sid }

unfoldable pub relabel : List SpeakerTurn → List TranscriptLine → List TranscriptLine
relabel turns lines =
    map (λ (ln : TranscriptLine). labelled ln (dominant_speaker ln.start_ms ln.end_ms turns)) lines

-- transcript.json, and whether the marker `.diarized` is there.
pub record Diarized : Type 0 where
  pub lines : List TranscriptLine
  pub marked : Bool

abbrev pub label_lines :
    Diarized → Result String (List SpeakerTurn) → Diarized × Result String (List TranscriptLine)
label_lines dir (err e) = (dir, err e)
label_lines dir (ok []) = (record { lines = dir.lines; marked = true }, ok dir.lines)
label_lines dir (ok (t ∷ turns)) =
    let lines = relabel (t ∷ turns) dir.lines in (record { lines = lines; marked = true }, ok lines)

abbrev pub no_lines : List TranscriptLine → Bool
no_lines [] = true
no_lines (ln ∷ lines) = false

-- `diarize(paths, diarizer, force)`, for what the diarizer answers.
unfoldable pub diarize :
    Bool
    → Result String (List SpeakerTurn)
    → Diarized
    → Diarized × Result String (List TranscriptLine)
diarize force turns dir =
    if dir.marked && not force
    then (dir, ok dir.lines)
    else if no_lines dir.lines
    then (dir, ok dir.lines)
    else label_lines dir turns
