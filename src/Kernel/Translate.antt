-- ===== src/Kernel/Translate.antt =====
-- `translate` of packages/autodub-core/src/autodub_core/stages.py. What the resolver and the MT
-- provider answer is given.
pub mod OneToOne
mod Tests
use open_video_trans.Common.{
  ℕ, ◌+◌, ◌-◌, String, Bool, true, false, not, ◌&&◌, Option, none, some, List, [], ◌∷◌, ◌++◌, map,
  eqb, if◌then◌else◌, length, Result, ok, err,
}
use open_video_trans.Common.Chars.{Text, codes, strip, eq_text}
use open_video_trans.Common.Decimal.{show_padded}
use open_video_trans.Schemas.{TranscriptLine, Transcript, DubbingSegment, TranslationResult}
use open_video_trans.Providers.Asr.{or_text}

-- `_line_duration_ms(line)`
abbrev pub line_duration_ms : TranscriptLine → ℕ
line_duration_ms ln = ln.end_ms - ln.start_ms

pub data TranslateError : Type 0 where
  mt_unavailable mt_failed : String → TranslateError
  not_one_to_one : TranslateError

-- A provider: its name, and its answer to the texts, the languages and the budgets.
pub record MtProvider : Type 0 where
  pub name : String
  pub translate_texts : List Text → Text → Text → List ℕ → Result String (List Text)

abbrev pub segment_from : ℕ → TranscriptLine → Text → DubbingSegment
segment_from i ln target = record {
  segment_id = codes "seg_" ++ show_padded 4 i;
  index = i;
  speaker_id = ln.speaker_id;
  start_ms = ln.start_ms;
  end_ms = ln.end_ms;
  target_duration_ms = line_duration_ms ln;
  source_text = ln.source_text;
  target_text = target;
  voice_id = none;
  tts_provider = none;
  keep_original = eq_text target [];
  align_method = none;
  align_ratio = none;
  needs_review = false;
}

-- The loop over the lines: a line past the end of the translations is left without one.
unfoldable pub segments_from : ℕ → List TranscriptLine → List Text → List DubbingSegment
segments_from i [] translations = []
segments_from i (ln ∷ lines) [] = segment_from i ln [] ∷ segments_from (i + 1) lines []
segments_from i (ln ∷ lines) (t ∷ translations) =
    segment_from i ln (strip t) ∷ segments_from (i + 1) lines translations

-- `source_lang or transcript.source_language or "auto"`
abbrev pub source_or_auto : Option Text → Text → Text
source_or_auto source_lang spoken = or_text source_lang (or_text (some spoken) (codes "auto"))

abbrev pub line_texts : List TranscriptLine → List Text
line_texts lines = map (λ (ln : TranscriptLine). ln.source_text) lines

module _ (target_lang : Text) (source_lang : Option Text) where
  abbrev pub checked_segments :
      String → Transcript → Result String (List Text) → Result TranslateError TranslationResult
  checked_segments name t (err e) = err (mt_failed e)
  checked_segments name t (ok translations) =
      if eqb (length translations) (length (line_texts t.lines))
      then ok (record {
        source_language = source_or_auto source_lang t.source_language;
        target_language = target_lang;
        mt_provider = name;
        segments = segments_from 0 t.lines translations;
      })
      else err not_one_to_one

  abbrev pub translated :
      Transcript → Result String MtProvider → Result TranslateError TranslationResult
  translated t (err e) = err (mt_unavailable e)
  translated t (ok mt) = checked_segments mt.name t (
      mt.translate_texts (line_texts t.lines) (source_or_auto source_lang t.source_language)
        target_lang (map line_duration_ms t.lines))

  -- Without lines no provider is selected.
  abbrev pub fresh_translation :
      Transcript
      → List TranscriptLine
      → Result String MtProvider
      → Result TranslateError TranslationResult
  fresh_translation t [] select = ok (record {
    source_language = source_or_auto source_lang t.source_language;
    target_language = target_lang;
    mt_provider = "";
    segments = [];
  })
  fresh_translation t (ln ∷ lines) select = translated t select

  abbrev pub cached_or :
      Bool
      → Option TranslationResult
      → Result TranslateError TranslationResult
      → Result TranslateError TranslationResult
  cached_or force none fresh = fresh
  cached_or force (some cached) fresh = if force then fresh else ok cached

  -- `translate(…)`, for the segments.json that is there and what the resolver answers; a result is
  -- also what the stage writes.
  unfoldable pub translate :
      Bool
      → Option TranslationResult
      → Transcript
      → Result String MtProvider
      → Result TranslateError TranslationResult
  translate force cached t select = cached_or force cached (fresh_translation t t.lines select)
