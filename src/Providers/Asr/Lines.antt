-- ===== src/Providers/Asr/Lines.antt =====
-- The lines that asr.py groups from recognised words.
use open_video_trans.Common.{
  ℕ, ◌+◌, ◌≤◌, ◌≡◌, refl, ap, ◌∙◌, List, [], ◌∷◌, ◌++◌, arith, All, Bool-cases, inl, inr,
}
use open_video_trans.Common.Chars.{Text, strip, eq_text}
use open_video_trans.Schemas.{Word, TranscriptLine}
use open_video_trans.Providers.Asr.{
  line_gap_ms, max_line_ms, last_end, line_from_words, starts_line, group_from,
  group_words_into_lines,
}
use open_video_trans.Providers.Chunker.Merge.{Indexed}

-- Words that follow a word `prev` on a line that began at `start`: no pause is longer than the
-- gap, and none ends later than the longest line allows.
abbrev pub Follow : ℕ → Word → List Word → Type 0
Follow start prev [] = Unit {0}
Follow start prev (w ∷ words) =
    (w.start_ms ≤ prev.end_ms + line_gap_ms)
    × (w.end_ms ≤ start + max_line_ms)
    × Follow start w words

-- A line of words spans from its first word to the last.
abbrev pub Grouped : TranscriptLine → List Word → Type 0
Grouped ln [] = Unit {0}
Grouped ln (w ∷ words) =
    (ln.start_ms ≡ w.start_ms) × (ln.end_ms ≡ last_end w words) × Follow w.start_ms w words

abbrev pub IsLine : TranscriptLine → Type 0
IsLine ln = Grouped ln ln.words

abbrev pub all_words : List TranscriptLine → List Word
all_words [] = []
all_words (ln ∷ lines) = ln.words ++ all_words lines

append-append : (xs ys zs : List Word) → (xs ++ ys) ++ zs ≡ xs ++ (ys ++ zs)
append-append [] ys zs = refl
append-append (x ∷ xs) ys zs = ap (λ r. x ∷ r) (append-append xs ys zs)

Follow-snoc :
    (start : ℕ) (prev : Word) (buf : List Word) (w : Word)
    → Follow start prev buf
    → w.start_ms ≤ last_end prev buf + line_gap_ms
    → w.end_ms ≤ start + max_line_ms
    → Follow start prev (buf ++ w ∷ [])
Follow-snoc start prev [] w f gap long = (gap, long, tt)
Follow-snoc start prev (c ∷ buf) w f gap long = (f.0, f.1, Follow-snoc start c buf w f.2 gap long)

-- What the loop makes of the words it has yet to read.
abbrev Made : ℕ → Word → List Word → List Word → List TranscriptLine → Type 0
Made made b buf words lines =
    Indexed made lines × (all_words lines ≡ (b ∷ buf) ++ words) × All IsLine lines

group_from-Made :
    (made : ℕ) (b : Word) (buf words : List Word)
    → Follow b.start_ms b buf
    → Made made b buf words (group_from made b buf words)
unfolding group_from line_from_words
group_from-Made made b buf [] f = ((refl, tt), refl, ((refl, refl, f), tt))
group_from-Made made b buf (w ∷ words) f =
    let later = group_from-Made (made + 1) w [] words tt in
    elim (Bool-cases (starts_line b buf w)) [
      | inl cut ↦
          rw cut ((refl, later.0), ap (λ r. (b ∷ buf) ++ r) later.1, ((refl, refl, f), later.2))
      | inr on ↦
          let longer =
            group_from-Made made b (buf ++ w ∷ []) words
              (Follow-snoc b.start_ms b buf w f (ground (arith, on)) (ground (arith, on))) in
          rw on (longer.0, longer.1 ∙ ap (λ r. b ∷ r) (append-append buf (w ∷ []) words), longer.2)
    ]

-- Grouping loses, repeats and reorders no word; the lines are numbered from 0, each spans from its
-- first word to its last, and on a line no pause is longer than 700 ms and no word after the first
-- ends more than 12 s after the line began.
pub group_words_into_lines_lem :
    (words : List Word) (full_text : Text) (total : ℕ)
    → Indexed 0 (group_words_into_lines words full_text total)
      × (all_words (group_words_into_lines words full_text total) ≡ words)
      × All IsLine (group_words_into_lines words full_text total)
unfolding group_words_into_lines
group_words_into_lines_lem [] full_text total = elim (Bool-cases (eq_text (strip full_text) [])) [
  | inl silent ↦ rw silent (tt, refl, tt)
  | inr heard ↦ rw heard ((refl, tt), refl, (tt, tt))
]
group_words_into_lines_lem (w ∷ words) full_text total = group_from-Made 0 w [] words tt
