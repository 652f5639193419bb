-- ===== src/Kernel/Subtitles.antt =====
-- `_write_srt` of packages/autodub-core/src/autodub_core/stages.py: the cues of a subtitle file and
-- its text.
pub mod RoundTrip
pub mod Shown
pub mod Disclosure
mod Tests
use open_video_trans.Common.{
  ℕ, ◌+◌, ◌/◌, ◌%◌, min, Bool, true, false, not, ◌&&◌, ◌||◌, Option, none, some, List, [], ◌∷◌,
  ◌++◌, leb, if◌then◌else◌, keep_if,
}
use open_video_trans.Common.Chars.{Text, codes, strip, eq_text}
use open_video_trans.Common.Decimal.{show, show_padded}
use open_video_trans.Schemas.{DubbingSegment}

-- `f"{h:02d}:{m:02d}:{s:02d},{ms:03d}"`
abbrev pub clock : ℕ → ℕ → ℕ → ℕ → Text
clock h m s ms =
    show_padded 2 h
    ++ b':' ∷ (show_padded 2 m ++ b':' ∷ (show_padded 2 s ++ b',' ∷ show_padded 3 ms))

-- `ts(ms)`; no time is negative.
unfoldable pub ts : ℕ → Text
ts ms =
    let below_hour = ms % 3_600_000 in
    let below_minute = below_hour % 60_000 in
    clock (ms / 3_600_000) (below_hour / 60_000) (below_minute / 1000) (below_minute % 1000)

-- A cue of the file: its number, its window and the lines of its body.
pub record SrtCue : Type 0 where
  pub number : ℕ
  pub start_ms : ℕ
  pub end_ms : ℕ
  pub body : List Text

abbrev pub is_blank : Text → Bool
is_blank text = eq_text (strip text) []

-- `segs`: the segments that have a text.
abbrev pub has_text : DubbingSegment → Bool
has_text s = not (is_blank s.target_text) || not (is_blank s.source_text)

abbrev pub spoken : List DubbingSegment → List DubbingSegment
spoken segments = keep_if has_text segments

-- `first_start`
abbrev pub first_start : List DubbingSegment → ℕ
first_start [] = 3000
first_start (s ∷ segs) = s.start_ms

-- The body of a cue after the disclosure that may ride on it.
abbrev pub cue_body : Bool → DubbingSegment → List Text
cue_body bilingual s =
    let target = strip s.target_text in
    let source = strip s.source_text in
    if bilingual && not (eq_text target []) && not (eq_text source [])
    then target ∷ source ∷ []
    else if eq_text target []
    then source ∷ []
    else target ∷ []

-- The loop over the segments, after so many cues; `riding` goes on the first of them.
unfoldable pub segment_cues : Bool → List Text → ℕ → List DubbingSegment → List SrtCue
segment_cues bilingual riding n [] = []
segment_cues bilingual riding n (s ∷ segs) =
    record {
      number = n + 1;
      start_ms = s.start_ms;
      end_ms = s.end_ms;
      body = riding ++ cue_body bilingual s;
    }
    ∷ segment_cues bilingual [] (n + 1) segs

-- `disclosure or ""`
abbrev pub disclosure_text : Option Text → Text
disclosure_text none = []
disclosure_text (some text) = text

unfoldable pub srt_cues : List DubbingSegment → Bool → Option Text → List SrtCue
srt_cues segments bilingual disclosure =
    let segs = spoken segments in
    let disc = disclosure_text disclosure in
    let plain = segment_cues bilingual [] 0 segs in
    let riding = segment_cues bilingual (disc ∷ []) 0 segs in
    let leading =
      record { number = 1; start_ms = 0; end_ms = min 3000 (first_start segs); body = disc ∷ [] }
      ∷ segment_cues bilingual [] 1 segs in
    if eq_text disc [] then plain else if leb 500 (first_start segs) then leading else riding

-- The lines of a cue, with the blank line that ends it.
abbrev pub cue_lines : SrtCue → List Text
cue_lines c =
    show c.number ∷ (ts c.start_ms ++ (codes " --> " ++ ts c.end_ms)) ∷ (c.body ++ [] ∷ [])

abbrev pub all_lines : List SrtCue → List Text
all_lines [] = []
all_lines (c ∷ cues) = cue_lines c ++ all_lines cues

-- `"\n".join(lines)`, from a line on and after it.
abbrev pub after_line : List Text → Text
after_line [] = []
after_line (l ∷ lines) = b'\n' ∷ l ++ after_line lines

abbrev pub join_lines : List Text → Text
join_lines [] = []
join_lines (l ∷ lines) = l ++ after_line lines

-- `_write_srt(result, path, bilingual=…, disclosure=…)`: the text of the file.
unfoldable pub srt_text : List DubbingSegment → Bool → Option Text → Text
srt_text segments bilingual disclosure =
    join_lines (all_lines (srt_cues segments bilingual disclosure))
