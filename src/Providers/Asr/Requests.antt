-- ===== src/Providers/Asr/Requests.antt =====
-- The transcriptions of asr.py: one request, or one for each chunk of the plan. What the backend
-- answers to a request, or the exception it raises, is given; a transcription answers with the
-- files it sent, in order, and its outcome.
pub mod Single
use open_video_trans.Common.{
  ℕ, ◌+◌, ◌/◌, String, Bool, true, false, not, ◌&&◌, Option, none, some, List, [], ◌∷◌, leb, eqb,
  if◌then◌else◌, keep_if, length, Result, ok, err, ◌>>=◌,
}
use open_video_trans.Common.Chars.{Text, codes, strip, eq_text}
use open_video_trans.Schemas.{Word, TranscriptLine, Transcript}
use open_video_trans.Providers.Languages.{CaseMethods}
use open_video_trans.Providers.Chunker.{
  Codec, AudioConstraints, AudioFile, Chunk, ChunkError, plan_requests, merge_lines, chunked_words,
}
use open_video_trans.Providers.Asr.{
  last_end, group_words_into_lines, drop_script_hallucinations, iso639, detected_to_iso, or_text,
}

-- A word and a segment of the JSON that the backend answers, and the answer.
pub record RawWord : Type 0 where
  pub word : Text
  pub start : Option ℕ
  pub end : Option ℕ

pub record RawSegment : Type 0 where
  pub start : ℕ
  pub end : ℕ
  pub text : Text

pub record Response : Type 0 where
  pub words : List RawWord
  pub segments : List RawSegment
  pub text : Text
  pub language : Option Text
  pub duration : ℕ

pub data AsrError : Type 0 where
  not_planned : ChunkError → AsrError
  paid_never_batches : AsrError
  request_failed : String → AsrError

abbrev pub word_from : Text → Option ℕ → Option ℕ → List Word → List Word
word_from text (some start) (some end) rest =
    record { text = strip text; start_ms = start; end_ms = end } ∷ rest
word_from text _ _ rest = rest

-- `_words_from_json(j)`
unfoldable pub words_from_json : List RawWord → List Word
words_from_json [] = []
words_from_json (w ∷ words) = word_from w.word w.start w.end (words_from_json words)

-- The words whose middle falls in a segment.
abbrev pub words_within : ℕ → ℕ → List Word → List Word
words_within start end words =
    keep_if
      (λ (w : Word).
        leb start ((w.start_ms + w.end_ms) / 2) && leb ((w.start_ms + w.end_ms) / 2) end)
      words

abbrev pub segment_lines : ℕ → List Word → List RawSegment → List TranscriptLine
segment_lines made words [] = []
segment_lines made words (seg ∷ segments) =
    record {
      index = made;
      start_ms = seg.start;
      end_ms = seg.end;
      source_text = strip seg.text;
      words = words_within seg.start seg.end words;
      speaker_id = "SPEAKER_00";
    }
    ∷ segment_lines (made + 1) words segments

-- `words[-1].end_ms if words else default`
abbrev pub end_of_words : List Word → ℕ → ℕ
end_of_words [] default = default
end_of_words (w ∷ words) default = last_end w words

unfoldable pub lines_of : Response → ℕ → List RawSegment → List TranscriptLine
lines_of j fallback_ms (seg ∷ segments) = segment_lines 0 (words_from_json j.words) (seg ∷ segments)
lines_of j fallback_ms [] =
    let words = words_from_json j.words in
    let spoken = if eqb j.duration 0 then fallback_ms else j.duration in
    group_words_into_lines words j.text (end_of_words words spoken)

module _ (case : CaseMethods) where
  abbrev pub language_or_auto : Option Text → Option Text → Text
  language_or_auto source_lang detected =
      or_text (iso639 case source_lang) (or_text (detected_to_iso case detected) (codes "auto"))

  -- `_OpenAICompatASR._parse`
  unfoldable pub parse : String → Response → Option Text → ℕ → Transcript
  parse name j source_lang fallback_ms = record {
    source_language = language_or_auto source_lang j.language;
    lines = lines_of j fallback_ms j.segments;
    asr_provider = name;
  }

  abbrev pub filtered : Transcript → Transcript
  filtered t = record {
    source_language = t.source_language;
    lines = drop_script_hallucinations case t.lines (some t.source_language);
    asr_provider = t.asr_provider;
  }

  -- `detected` after the loop over the chunks.
  abbrev pub first_detected : List (Transcript × ℕ) → Option Text
  first_detected [] = none
  first_detected ((t, offset) ∷ parts) =
      if eq_text t.source_language (codes "auto")
      then first_detected parts
      else some t.source_language

  abbrev pub part_lines : List (Transcript × ℕ) → List (List TranscriptLine × ℕ)
  part_lines [] = []
  part_lines ((t, offset) ∷ parts) = (t.lines, offset) ∷ part_lines parts

  -- The transcript of the chunks before the script filter.
  abbrev pub merged_transcript : String → Option Text → List (Transcript × ℕ) → Transcript
  merged_transcript name source_lang parts = record {
    source_language =
        or_text (iso639 case source_lang) (or_text (first_detected parts) (codes "auto"));
    lines = merge_lines (part_lines parts);
    asr_provider = name;
  }

  module _ (name : String) (paid : Bool) (request : AudioFile → Result String Response)
      (source_lang : Option Text) where
    abbrev pub heard_chunk : Chunk → Result AsrError Transcript
    heard_chunk c = elim (request c.path) [
      | err e ↦ err (request_failed e)
      | ok j ↦ ok (parse name j source_lang c.duration_ms)
    ]

    -- The loop over the chunks stops at the first request that fails.
    unfoldable pub request_chunks :
        List Chunk → List AudioFile × Result AsrError (List (Transcript × ℕ))
    request_chunks [] = ([], ok [])
    request_chunks (c ∷ plan) =
        let later = request_chunks plan in
        elim (heard_chunk c) [
          | err e ↦ (c.path ∷ [], err e)
          | ok t ↦ (c.path ∷ later.0, do parts ← later.1; ok ((t, c.offset_ms) ∷ parts))
        ]

    unfoldable pub transcribe_plan : List Chunk → List AudioFile × Result AsrError Transcript
    transcribe_plan (c ∷ []) = (c.path ∷ [], do t ← heard_chunk c; ok (filtered t))
    transcribe_plan plan =
        let sent = request_chunks plan in
        if paid
        then ([], err paid_never_batches)
        else (sent.0, do parts ← sent.1; ok (filtered (merged_transcript name source_lang parts)))

    abbrev pub transcribe_planned :
        Result ChunkError (List Chunk) → List AudioFile × Result AsrError Transcript
    transcribe_planned (err e) = ([], err (not_planned e))
    transcribe_planned (ok plan) = transcribe_plan plan

    -- `_OpenAICompatASR.transcribe`
    unfoldable pub openai_transcribe :
        (Codec → ℕ → ℕ → Result (Unit {0}) ℕ)
        → ℕ
        → AudioConstraints
        → List AudioFile × Result AsrError Transcript
    openai_transcribe encode total audio = transcribe_planned (plan_requests encode total audio)

  -- `CloudflareASR.transcribe`, for the backend's answer to one chunk.
  unfoldable pub cloudflare_transcribe :
      (AudioFile → ℕ → Result ChunkError (List Word))
      → (Codec → ℕ → ℕ → Result (Unit {0}) ℕ)
      → ℕ
      → AudioConstraints
      → Option Text
      → Result ChunkError Transcript
  cloudflare_transcribe run_one encode total audio source_lang = do
    words ← chunked_words run_one encode total audio
    ok (
        filtered (record {
          source_language = or_text source_lang (codes "auto");
          lines = group_words_into_lines words [] (end_of_words words 0);
          asr_provider = "cloudflare";
        }))
