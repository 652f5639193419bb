-- ===== src/Kernel/Subtitles/Shown.antt =====
-- What the cues of the segments show, against what the segments say.
use open_video_trans.Common.{
  ℕ, ◌+◌, ◌≡◌, refl, ap, ◌∙◌, Bool, true, false, not, ◌&&◌, ◌||◌, List, [], ◌∷◌, if◌then◌else◌,
}
use open_video_trans.Common.Chars.{Text, strip, eq_text}
use open_video_trans.Schemas.{DubbingSegment}
use open_video_trans.Kernel.Subtitles.{SrtCue, has_text, spoken, cue_body, segment_cues}

-- Windows, with the lines that are shown in them.
abbrev pub Shown : Type 0
Shown = List (ℕ × ℕ × List Text)

-- The texts that are not empty, the translation first.
abbrev pub texts_of : Text → Text → List Text
texts_of [] [] = []
texts_of [] (c ∷ source) = (c ∷ source) ∷ []
texts_of (c ∷ target) [] = (c ∷ target) ∷ []
texts_of (c ∷ target) (d ∷ source) = (c ∷ target) ∷ (d ∷ source) ∷ []

abbrev pub one_of : List Text → List Text
one_of [] = []
one_of (line ∷ lines) = line ∷ []

-- The lines of a segment: both texts if the file is bilingual, else the first of them.
abbrev pub lines_of : Bool → Text → Text → List Text
lines_of true target source = texts_of target source
lines_of false target source = one_of (texts_of target source)

abbrev pub with_lines : ℕ → ℕ → List Text → Shown → Shown
with_lines start_ms end_ms [] shown = shown
with_lines start_ms end_ms (line ∷ lines) shown = (start_ms, end_ms, line ∷ lines) ∷ shown

-- What the segments say, one for one and in order; a segment without a text says nothing.
abbrev pub shown_of : Bool → List DubbingSegment → Shown
shown_of bilingual [] = []
shown_of bilingual (s ∷ segments) =
    with_lines s.start_ms s.end_ms (lines_of bilingual (strip s.target_text) (strip s.source_text))
      (shown_of bilingual segments)

-- What cues show.
abbrev pub contents : List SrtCue → Shown
contents [] = []
contents (c ∷ cues) = (c.start_ms, c.end_ms, c.body) ∷ contents cues

texts_lem :
    (bilingual : Bool) (start_ms end_ms : ℕ) (target source : Text) (shown : Shown)
    → (if not (eq_text target []) || not (eq_text source [])
        then (
          start_ms,
          end_ms,
          (if bilingual && not (eq_text target []) && not (eq_text source [])
              then target ∷ source ∷ []
              else if eq_text target []
              then source ∷ []
              else target ∷ []),
        )
          ∷ shown
        else shown)
      ≡ with_lines start_ms end_ms (lines_of bilingual target source) shown
texts_lem true start_ms end_ms [] [] shown = refl
texts_lem true start_ms end_ms [] (c ∷ source) shown = refl
texts_lem true start_ms end_ms (c ∷ target) [] shown = refl
texts_lem true start_ms end_ms (c ∷ target) (d ∷ source) shown = refl
texts_lem false start_ms end_ms [] [] shown = refl
texts_lem false start_ms end_ms [] (c ∷ source) shown = refl
texts_lem false start_ms end_ms (c ∷ target) [] shown = refl
texts_lem false start_ms end_ms (c ∷ target) (d ∷ source) shown = refl

kept_lem :
    (bilingual : Bool) (n : ℕ) (s : DubbingSegment) (segs : List DubbingSegment) (shown : Shown)
    (kept : Bool)
    → ((m : ℕ) → contents (segment_cues bilingual [] m segs) ≡ shown)
    → contents (segment_cues bilingual [] n (if kept then s ∷ segs else segs))
      ≡ (if kept then (s.start_ms, s.end_ms, cue_body bilingual s) ∷ shown else shown)
unfolding segment_cues
kept_lem bilingual n s segs shown true h =
    ap (λ rest. (s.start_ms, s.end_ms, cue_body bilingual s) ∷ rest) (h (n + 1))
kept_lem bilingual n s segs shown false h = h n

-- The cues of the segments show what the segments say, from whatever number they are counted.
pub contents-segment_cues :
    (bilingual : Bool) (segments : List DubbingSegment) (n : ℕ)
    → contents (segment_cues bilingual [] n (spoken segments)) ≡ shown_of bilingual segments
unfolding segment_cues
contents-segment_cues bilingual [] n = refl
contents-segment_cues bilingual (s ∷ segments) n =
    kept_lem bilingual n s (spoken segments) (shown_of bilingual segments) (has_text s)
      (contents-segment_cues bilingual segments)
    ∙ texts_lem bilingual s.start_ms s.end_ms (strip s.target_text) (strip s.source_text)
        (shown_of bilingual segments)
