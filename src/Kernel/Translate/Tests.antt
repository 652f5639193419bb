-- ===== src/Kernel/Translate/Tests.antt =====
-- A transcript of two lines.
use open_video_trans.Common.{ℕ, ◌*◌, ◌+◌, ◌≡◌, refl, String, none, false, [], ◌∷◌, ok, err}
use open_video_trans.Common.Chars.{codes, strip, is_space}
use open_video_trans.Common.Decimal.{show, show_padded}
use open_video_trans.Schemas.{TranscriptLine, Transcript, TranslationResult}
use open_video_trans.Kernel.Translate.{
  MtProvider, not_one_to_one, segment_from, segments_from, translate,
}
use open_video_trans.Kernel.Translate.OneToOne.{OneToOne, translate-OneToOne}

program : Unit {0}
unfolding show show_padded is_space strip segments_from translate
program = tt

abbrev line : ℕ → String → TranscriptLine
line index text = record {
  index = index;
  start_ms = 1000 * index;
  end_ms = 1000 * index + 900;
  source_text = codes text;
  words = [];
  speaker_id = "SPEAKER_00";
}

abbrev heard : Transcript
heard = record {
  source_language = codes "en";
  lines = line 0 "hello" ∷ line 1 "um" ∷ [];
  asr_provider = "groq";
}

abbrev provider : MtProvider
provider = record {
  name = "deepl";
  translate_texts = λ texts source target budgets. ok (codes " hola " ∷ codes " " ∷ []);
}

abbrev short_provider : MtProvider
short_provider = record {
  name = "deepl";
  translate_texts = λ texts source target budgets. ok (codes "hola" ∷ []);
}

abbrev translation : TranslationResult
translation = record {
  source_language = codes "en";
  target_language = codes "es";
  mt_provider = "deepl";
  segments = segment_from 0 (line 0 "hello") (codes "hola") ∷ segment_from 1 (line 1 "um") [] ∷ [];
}

all_translated : translate (codes "es") none false none heard (ok provider) ≡ ok translation
unfolding program
all_translated = refl

truncated : translate (codes "es") none false none heard (ok short_provider) ≡ err not_one_to_one
unfolding program
truncated = refl

translate-OneToOne_example : OneToOne (codes "es") none heard (ok provider) translation
translate-OneToOne_example =
    translate-OneToOne (codes "es") none false heard (ok provider) translation all_translated
