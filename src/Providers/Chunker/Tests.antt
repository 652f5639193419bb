-- ===== src/Providers/Chunker/Tests.antt =====
-- asr_chunker.py on ten minutes of audio.
use open_video_trans.Common.{
  ℕ, ◌*◌, ◌-◌, ◌≡◌, refl, none, some, List, [], ◌∷◌, Result, ok, err, arith, ok_inj, subst,
}
use open_video_trans.Common.Chars.{codes}
use open_video_trans.Schemas.{Word, TranscriptLine}
use open_video_trans.Providers.Chunker.{
  Codec, flac, AudioConstraints, AudioFile, compressed, chunk_file, Chunk, ChunkError, no_codec,
  negotiate_codec, within_limits, fits_estimate, chunk_duration_ms, chunks_from, split,
  plan_requests, merge_words, merge_lines_from, merge_lines, run_all, chunked_words,
}
use open_video_trans.Providers.Chunker.Tiles.{IsPlan, plan_requests-IsPlan}
use open_video_trans.Providers.Chunker.Merge.{Ordered, IsChunkRelative, chunked_words-Ordered}

program : Unit {0}
unfolding negotiate_codec within_limits fits_estimate chunk_duration_ms chunks_from split
    plan_requests merge_words merge_lines_from merge_lines run_all chunked_words
program = tt

abbrev limits : AudioConstraints
limits = record {
  accepted_formats = "mp3" ∷ "flac" ∷ [];
  max_bytes = some 8_000_000;
  max_duration_ms = some 250_000;
}

abbrev encode : Codec → ℕ → ℕ → Result (Unit {0}) ℕ
encode codec start end = ok (8 * (end - start))

abbrev chunk : ℕ → ℕ → ℕ → Chunk
chunk i start duration = record {
  path = chunk_file i flac;
  offset_ms = start;
  duration_ms = duration;
}

abbrev chunk_plan : List Chunk
chunk_plan = chunk 0 0 250_000 ∷ chunk 1 250_000 250_000 ∷ chunk 2 500_000 100_000 ∷ []

planned : plan_requests encode 600_000 limits ≡ ok chunk_plan
unfolding program
planned = refl

single :
    plan_requests encode 240_000 limits
    ≡ ok (record { path = compressed flac; offset_ms = 0; duration_ms = 240_000 } ∷ [])
unfolding program
single = refl

opus_only_backend :
    negotiate_codec
      (record { accepted_formats = "aac" ∷ []; max_bytes = none; max_duration_ms = none })
    ≡ err no_codec
unfolding program
opus_only_backend = refl

abbrev hello : Word
hello = record { text = codes "hello"; start_ms = 0; end_ms = 700 }

abbrev backend : AudioFile → ℕ → Result ChunkError (List Word)
backend file duration = ok (hello ∷ [])

abbrev heard : List Word
heard =
    hello
    ∷ record { text = codes "hello"; start_ms = 250_000; end_ms = 250_700 }
    ∷ record { text = codes "hello"; start_ms = 500_000; end_ms = 500_700 }
    ∷ []

merged : chunked_words backend encode 600_000 limits ≡ ok heard
unfolding program
merged = refl

backend-IsChunkRelative : IsChunkRelative backend
backend-IsChunkRelative file duration words e =
    subst (Ordered 0 duration) (ok_inj e) (omega arith, omega arith)

plan_requests-IsPlan_example : IsPlan 600_000 limits chunk_plan
plan_requests-IsPlan_example = plan_requests-IsPlan encode 600_000 limits chunk_plan planned

chunked_words-Ordered_example : Ordered 0 600_000 heard
chunked_words-Ordered_example =
    chunked_words-Ordered backend encode 600_000 limits heard backend-IsChunkRelative merged

abbrev line : TranscriptLine
line = record {
  index = 0;
  start_ms = 0;
  end_ms = 700;
  source_text = codes "hello";
  words = hello ∷ [];
  speaker_id = "speaker_1";
}
