-- ===== src/Providers/Asr.antt =====
-- packages/provider-adapters/src/provider_adapters/asr.py: how an answer of a recogniser becomes
-- the lines of a transcript. The times of an answer are milliseconds already, where the source
-- scales and truncates seconds.
pub mod Lines
pub mod Script
pub mod Requests
mod Tests
use open_video_trans.Common.{
  ℕ, ◌+◌, ◌*◌, ◌/◌, Bool, true, false, not, ◌&&◌, ◌||◌, Option, none, some, List, [], ◌∷◌, ◌++◌,
  map, ltb, leb, if◌then◌else◌, length, keep_if,
}
use open_video_trans.Common.Chars.{Text, codes, strip, is_space, eq_text, text_in}
use open_video_trans.Schemas.{Word, TranscriptLine}
use open_video_trans.Providers.Languages.{CaseMethods, split_dash, first_part, lookup_text}

-- _LINE_GAP_MS and _MAX_LINE_MS
abbrev pub line_gap_ms : ℕ
line_gap_ms = 700

abbrev pub max_line_ms : ℕ
max_line_ms = 12_000

-- The end of the last of some words.
abbrev pub last_end : Word → List Word → ℕ
last_end b [] = b.end_ms
last_end b (c ∷ buf) = last_end c buf

-- `" ".join(w.text.strip() for w in words)`
abbrev pub join_words : List Word → Text
join_words [] = []
join_words (w ∷ []) = strip w.text
join_words (w ∷ v ∷ words) = strip w.text ++ b' ' ∷ join_words (v ∷ words)

-- `_line_from_words(index, words)`, for the first word and the others.
unfoldable pub line_from_words : ℕ → Word → List Word → TranscriptLine
line_from_words index b buf = record {
  index = index;
  start_ms = b.start_ms;
  end_ms = last_end b buf;
  source_text = strip (join_words (b ∷ buf));
  words = b ∷ buf;
  speaker_id = "SPEAKER_00";
}

-- The condition under which a word starts a new line after the words of the buffer.
abbrev pub starts_line : Word → List Word → Word → Bool
starts_line b buf w =
    ltb (last_end b buf + line_gap_ms) w.start_ms || ltb (b.start_ms + max_line_ms) w.end_ms

-- The loop of `_group_words_into_lines`: so many lines are made, and the buffer is not empty.
unfoldable pub group_from : ℕ → Word → List Word → List Word → List TranscriptLine
group_from made b buf [] = line_from_words made b buf ∷ []
group_from made b buf (w ∷ words) =
    let cut = line_from_words made b buf ∷ group_from (made + 1) w [] words in
    let longer = group_from made b (buf ++ w ∷ []) words in
    if starts_line b buf w then cut else longer

unfoldable pub group_words_into_lines : List Word → Text → ℕ → List TranscriptLine
group_words_into_lines [] full_text total_ms =
    let text = strip full_text in
    if eq_text text []
    then []
    else record {
      index = 0;
      start_ms = 0;
      end_ms = total_ms;
      source_text = text;
      words = [];
      speaker_id = "SPEAKER_00";
    }
      ∷ []
group_words_into_lines (w ∷ words) full_text total_ms = group_from 0 w [] words

abbrev pub between : ℕ → ℕ → ℕ → Bool
between low high c = leb low c && leb c high

unfoldable pub is_cjk_char : ℕ → Bool
is_cjk_char c =
    between 0x4E00 0x9FFF c
    || between 0x3400 0x4DBF c
    || between 0x3040 0x30FF c
    || between 0xAC00 0xD7A3 c

-- `_cjk_ratio(text) >= 0.5`, without the division.
unfoldable pub mostly_cjk : Text → Bool
mostly_cjk text =
    let chars = keep_if (λ c. not (is_space c)) text in
    ltb 0 (length chars) && leb (length chars) (2 * length (keep_if is_cjk_char chars))

abbrev pub or_empty : Option Text → Text
or_empty none = []
or_empty (some text) = text

-- _CJK_SOURCE_LANGS
abbrev pub cjk_source_langs : List Text
cjk_source_langs = codes "zh" ∷ codes "ja" ∷ codes "ko" ∷ []

-- `[line.model_copy(update={"index": i}) for i, line in enumerate(kept)]`
abbrev pub renumber : ℕ → List TranscriptLine → List TranscriptLine
renumber i [] = []
renumber i (ln ∷ lines) =
    record {
      index = i;
      start_ms = ln.start_ms;
      end_ms = ln.end_ms;
      source_text = ln.source_text;
      words = ln.words;
      speaker_id = ln.speaker_id;
    }
    ∷ renumber (i + 1) lines

abbrev pub is_cjk_line : TranscriptLine → Bool
is_cjk_line ln = mostly_cjk ln.source_text

module _ (case : CaseMethods) where
  unfoldable pub drop_script_hallucinations :
      List TranscriptLine → Option Text → List TranscriptLine
  drop_script_hallucinations lines source_language =
      let cjk = keep_if is_cjk_line lines in
      let kept = keep_if (λ ln. not (is_cjk_line ln)) lines in
      if text_in (case.lower (first_part (split_dash (or_empty source_language)))) cjk_source_langs
      then lines
      else if leb (length cjk) 0 || leb (length lines) (length cjk * 2)
      then lines
      else renumber 0 kept

  unfoldable pub iso639 : Option Text → Option Text
  iso639 none = none
  iso639 (some lang) =
      if eq_text lang [] then none else some (case.lower (first_part (split_dash lang)))

  -- _WHISPER_NAME_TO_ISO
  abbrev pub whisper_name_to_iso : List (Text × Text)
  whisper_name_to_iso =
      (codes "english", codes "en")
      ∷ (codes "chinese", codes "zh")
      ∷ (codes "spanish", codes "es")
      ∷ (codes "french", codes "fr")
      ∷ (codes "german", codes "de")
      ∷ (codes "japanese", codes "ja")
      ∷ (codes "korean", codes "ko")
      ∷ (codes "portuguese", codes "pt")
      ∷ (codes "italian", codes "it")
      ∷ (codes "russian", codes "ru")
      ∷ (codes "dutch", codes "nl")
      ∷ (codes "arabic", codes "ar")
      ∷ (codes "hindi", codes "hi")
      ∷ (codes "turkish", codes "tr")
      ∷ (codes "polish", codes "pl")
      ∷ (codes "vietnamese", codes "vi")
      ∷ (codes "thai", codes "th")
      ∷ (codes "indonesian", codes "id")
      ∷ (codes "ukrainian", codes "uk")
      ∷ []

  unfoldable pub detected_to_iso : Option Text → Option Text
  detected_to_iso none = none
  detected_to_iso (some detected) =
      let d = case.lower (strip detected) in
      if eq_text detected []
      then none
      else if leb 2 (length d) && leb (length d) 2 && case.is_alpha d
      then some d
      else lookup_text d whisper_name_to_iso

-- `a or b` on texts: an empty text counts as absent.
abbrev pub or_text : Option Text → Text → Text
or_text none other = other
or_text (some text) other = if eq_text text [] then other else text
