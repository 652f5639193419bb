-- ===== src/Providers/Asr/Tests.antt =====
-- asr.py on short answers.
use open_video_trans.Common.{
  ℕ, ◌*◌, ◌+◌, ◌-◌, ◌≡◌, refl, String, true, false, none, some, List, [], ◌∷◌, Result, ok, All,
}
use open_video_trans.Common.Chars.{codes, strip}
use open_video_trans.Schemas.{Word, TranscriptLine, Transcript}
use open_video_trans.Providers.Languages.{CaseMethods}
use open_video_trans.Providers.Chunker.{
  Codec, AudioConstraints, AudioFile, negotiate_codec, within_limits, fits_estimate,
  chunk_duration_ms, chunks_from, split, plan_requests, merge_words, merge_lines_from, merge_lines,
  run_all, chunked_words,
}
use open_video_trans.Providers.Chunker.Merge.{Indexed, texts}
use open_video_trans.Providers.Asr.{
  line_from_words, group_from, group_words_into_lines, is_cjk_char, mostly_cjk,
  drop_script_hallucinations, iso639, detected_to_iso,
}
use open_video_trans.Providers.Asr.Lines.{IsLine, all_words, group_words_into_lines_lem}
use open_video_trans.Providers.Asr.Requests.{
  Response, words_from_json, lines_of, parse, request_chunks, transcribe_plan, openai_transcribe,
  cloudflare_transcribe,
}

program : Unit {0}
unfolding strip line_from_words group_from group_words_into_lines is_cjk_char mostly_cjk
    drop_script_hallucinations iso639 detected_to_iso words_from_json lines_of parse request_chunks
    transcribe_plan openai_transcribe cloudflare_transcribe negotiate_codec within_limits
    fits_estimate chunk_duration_ms chunks_from split plan_requests merge_words merge_lines_from
    merge_lines run_all chunked_words
program = tt

abbrev plain_case : CaseMethods
plain_case = record { lower = λ s. s; upper = λ s. s; title = λ s. s; is_alpha = λ s. true }

abbrev said : ℕ → ℕ → String → Word
said start end text = record { text = codes text; start_ms = start; end_ms = end }

abbrev three_words : List Word
three_words = said 0 400 "good" ∷ said 500 900 "morning" ∷ said 1700 2000 "all" ∷ []

grouped : texts (group_words_into_lines three_words [] 0) ≡ codes "good morning" ∷ codes "all" ∷ []
unfolding program
grouped = refl

silent : group_words_into_lines [] (codes "  ") 5000 ≡ []
unfolding program
silent = refl

named : detected_to_iso plain_case (some (codes "german")) ≡ some (codes "de")
unfolding program
named = refl

abbrev line : ℕ → String → TranscriptLine
line index text = record {
  index = index;
  start_ms = 1000 * index;
  end_ms = 1000 * index + 900;
  source_text = codes text;
  words = [];
  speaker_id = "SPEAKER_00";
}

abbrev credits : List TranscriptLine
credits = line 0 "hello" ∷ line 1 "字幕由AI" ∷ line 2 "thanks" ∷ []

dropped :
    (drop_script_hallucinations plain_case credits (some (codes "en"))
      ≡ record (line 0 "hello") { index = 0 } ∷ record (line 2 "thanks") { index = 1 } ∷ [])
    × (drop_script_hallucinations plain_case credits (some (codes "zh-Hans")) ≡ credits)
unfolding program
dropped = (refl, refl)

abbrev limits : AudioConstraints
limits = record {
  accepted_formats = "mp3" ∷ "flac" ∷ [];
  max_bytes = some 8_000_000;
  max_duration_ms = some 250_000;
}

abbrev encode : Codec → ℕ → ℕ → Result (Unit {0}) ℕ
encode codec start end = ok (8 * (end - start))

abbrev answer : Response
answer = record {
  words = record { word = codes "hi "; start = some 10; end = some 300 } ∷ [];
  segments = record { start = 0; end = 400; text = codes " hi " } ∷ [];
  text = codes "hi";
  language = some (codes "english");
  duration = 0;
}

abbrev request : AudioFile → Result String Response
request file = ok answer

abbrev heard_line : ℕ → ℕ → TranscriptLine
heard_line index offset = record {
  index = index;
  start_ms = offset;
  end_ms = 400 + offset;
  source_text = codes "hi";
  words = record { text = codes "hi"; start_ms = 10 + offset; end_ms = 300 + offset } ∷ [];
  speaker_id = "SPEAKER_00";
}

abbrev transcript : Transcript
transcript = record {
  source_language = codes "en";
  lines = heard_line 0 0 ∷ heard_line 1 250_000 ∷ heard_line 2 500_000 ∷ [];
  asr_provider = "groq";
}

chunked :
    (openai_transcribe plain_case "groq" false request none encode 600_000 limits).1 ≡ ok transcript
unfolding program
chunked = refl

group_words_into_lines_lem_example :
    Indexed 0 (group_words_into_lines three_words [] 0)
    × (all_words (group_words_into_lines three_words [] 0) ≡ three_words)
    × All IsLine (group_words_into_lines three_words [] 0)
group_words_into_lines_lem_example = group_words_into_lines_lem three_words [] 0
