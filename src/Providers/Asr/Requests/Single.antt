-- ===== src/Providers/Asr/Requests/Single.antt =====
-- What asr.py sends and how it numbers the lines, on every path of a transcription.
use open_video_trans.Common.{
  ℕ, ◌+◌, ◌≤◌, ◌≡◌, refl, subst, String, Bool, true, false, Option, some, List, [], ◌∷◌, arith,
  length, Result, ok, err, >>=-eq-ok, ok_inj, Result-cases, inl, inr,
}
use open_video_trans.Common.Chars.{Text}
use open_video_trans.Schemas.{Word, Transcript}
use open_video_trans.Providers.Languages.{CaseMethods}
use open_video_trans.Providers.Chunker.{
  Codec, AudioConstraints, AudioFile, Chunk, ChunkError, plan_requests,
}
use open_video_trans.Providers.Chunker.Merge.{Indexed, merge_lines_lem}
use open_video_trans.Providers.Asr.Lines.{group_words_into_lines_lem}
use open_video_trans.Providers.Asr.Script.{drop_script_hallucinations_lem}
use open_video_trans.Providers.Asr.Requests.{
  RawSegment, Response, AsrError, segment_lines, lines_of, parse, filtered, part_lines,
  merged_transcript, heard_chunk, request_chunks, transcribe_plan, transcribe_planned,
  openai_transcribe,
}

segment_lines-Indexed :
    (made : ℕ) (words : List Word) (segments : List RawSegment)
    → Indexed made (segment_lines made words segments)
segment_lines-Indexed made words [] = tt
segment_lines-Indexed made words (seg ∷ segments) =
    (refl, segment_lines-Indexed (made + 1) words segments)

lines_of-Indexed :
    (j : Response) (fallback : ℕ) (segments : List RawSegment)
    → Indexed 0 (lines_of j fallback segments)
unfolding lines_of
lines_of-Indexed j fallback [] = (group_words_into_lines_lem _ _ _).0
lines_of-Indexed j fallback (seg ∷ segments) = segment_lines-Indexed 0 _ (seg ∷ segments)

module _ (case : CaseMethods) (name : String) (request : AudioFile → Result String Response)
    (source_lang : Option Text) where
  filtered-Indexed : (t : Transcript) → Indexed 0 t.lines → Indexed 0 (filtered case t).lines
  filtered-Indexed t indexed =
      (drop_script_hallucinations_lem case t.lines (some t.source_language) indexed).0

  heard-Indexed :
      (paid : Bool) (c : Chunk) (t : Transcript)
      → heard_chunk case name paid request source_lang c ≡ ok t
      → Indexed 0 t.lines
  unfolding parse
  heard-Indexed paid c t e = elim (Result-cases (request c.path)) [
    | inl (j, answered) ↦
        subst (λ (u : Transcript). Indexed 0 u.lines) (ok_inj (rw (answered, heard_chunk) at e))
          (lines_of-Indexed j c.duration_ms j.segments)
    | inr (why, failed) ↦
        let impossible : err (AsrError.request_failed why) ≡ ok t = rw (failed, heard_chunk) at e in
        cc
  ]

  transcribe_plan-Indexed :
      (paid : Bool) (plan : List Chunk) (t : Transcript)
      → (transcribe_plan case name paid request source_lang plan).1 ≡ ok t
      → Indexed 0 t.lines
  unfolding transcribe_plan
  transcribe_plan-Indexed paid (c ∷ []) t e =
      let (u, one, same) = >>=-eq-ok (heard_chunk case name paid request source_lang c) _ e in
      subst (λ (v : Transcript). Indexed 0 v.lines) (ok_inj same)
        (filtered-Indexed u (heard-Indexed paid c u one))
  transcribe_plan-Indexed true [] t e = cc
  transcribe_plan-Indexed true (c ∷ d ∷ plan) t e = cc
  transcribe_plan-Indexed false [] t e =
      let (parts, sent, same) =
        >>=-eq-ok (request_chunks case name false request source_lang []).1 _ e in
      subst (λ (v : Transcript). Indexed 0 v.lines) (ok_inj same)
        (filtered-Indexed (merged_transcript case name source_lang parts)
          (merge_lines_lem (part_lines case parts)).0)
  transcribe_plan-Indexed false (c ∷ d ∷ plan) t e =
      let (parts, sent, same) =
        >>=-eq-ok (request_chunks case name false request source_lang (c ∷ d ∷ plan)).1 _ e in
      subst (λ (v : Transcript). Indexed 0 v.lines) (ok_inj same)
        (filtered-Indexed (merged_transcript case name source_lang parts)
          (merge_lines_lem (part_lines case parts)).0)

  planned-Indexed :
      (paid : Bool) (planned : Result ChunkError (List Chunk)) (t : Transcript)
      → (transcribe_planned case name paid request source_lang planned).1 ≡ ok t
      → Indexed 0 t.lines
  planned-Indexed paid (err e) t raised = cc
  planned-Indexed paid (ok plan) t e = transcribe_plan-Indexed paid plan t e

  -- The transcript of an OpenAI-compatible backend, from one request or merged_transcript from chunks, from
  -- segments, words or text alone, has its lines numbered 0, 1, 2 and so on.
  pub openai_transcribe-Indexed :
      (paid : Bool) (encode : Codec → ℕ → ℕ → Result (Unit {0}) ℕ) (total : ℕ)
      (audio : AudioConstraints) (t : Transcript)
      → (openai_transcribe case name paid request source_lang encode total audio).1 ≡ ok t
      → Indexed 0 t.lines
  unfolding openai_transcribe
  openai_transcribe-Indexed paid encode total audio t e =
      planned-Indexed paid (plan_requests encode total audio) t e

  paid_plan_single :
      (planned : Result ChunkError (List Chunk))
      → length (transcribe_planned case name true request source_lang planned).0 ≤ 1
  unfolding transcribe_plan
  paid_plan_single (err e) = omega arith
  paid_plan_single (ok []) = omega arith
  paid_plan_single (ok (c ∷ [])) = omega arith
  paid_plan_single (ok (c ∷ d ∷ plan)) = omega arith

  -- A paid backend gets one request at most, however long the audio is.
  paid_transcribe_single :
      (encode : Codec → ℕ → ℕ → Result (Unit {0}) ℕ) (total : ℕ) (audio : AudioConstraints)
      → length (openai_transcribe case name true request source_lang encode total audio).0 ≤ 1
  unfolding openai_transcribe
  paid_transcribe_single encode total audio = paid_plan_single (plan_requests encode total audio)
