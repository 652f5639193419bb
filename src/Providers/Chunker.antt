-- ===== src/Providers/Chunker.antt =====
-- packages/provider-adapters/src/provider_adapters/asr_chunker.py. What ffmpeg and the backend
-- answer is given; times are milliseconds. The byte estimates are exact tenths of a byte per
-- millisecond, where the source computes in floats.
pub mod Tiles
pub mod Merge
mod Tests
use open_video_trans.Common.{
  ℕ, zero, suc, ◌+◌, ◌-◌, ◌*◌, ◌/◌, min, max, String, Bool, true, false, not, ◌&&◌, ◌||◌, Option,
  none, some, List, [], ◌∷◌, ◌++◌, map, ltb, leb, eqb, if◌then◌else◌, contains, length, Result, ok,
  err, ◌>>=◌,
}
use open_video_trans.Schemas.{Word, TranscriptLine}

-- _ENCODERS and _PREFERENCE
pub data Codec : Type 0 where
  opus flac mp3 wav : Codec

abbrev pub codec_name : Codec → String
codec_name opus = "opus"
codec_name flac = "flac"
codec_name mp3 = "mp3"
codec_name wav = "wav"

abbrev pub preference : List Codec
preference = opus ∷ flac ∷ mp3 ∷ wav ∷ []

-- _EST_BYTES_PER_MS, in tenths.
abbrev pub est_bytes_per_ms : Codec → ℕ
est_bytes_per_ms opus = 22
est_bytes_per_ms flac = 180
est_bytes_per_ms mp3 = 88
est_bytes_per_ms wav = 320

pub record AudioConstraints : Type 0 where
  pub accepted_formats : List String
  pub max_bytes : Option ℕ
  pub max_duration_ms : Option ℕ

-- The files that the chunker writes: compressed.<ext> and chunk_<i>.<ext>.
pub data AudioFile : Type 0 where
  compressed : Codec → AudioFile
  chunk_file : ℕ → Codec → AudioFile

pub record Chunk : Type 0 where
  pub path : AudioFile
  pub offset_ms : ℕ
  pub duration_ms : ℕ

pub data ChunkError : Type 0 where
  no_codec encode_failed backend_failed : ChunkError

abbrev pub first_accepted : AudioConstraints → List Codec → Result ChunkError Codec
first_accepted c [] = err no_codec
first_accepted c (codec ∷ codecs) =
    if contains (codec_name codec) c.accepted_formats then ok codec else first_accepted c codecs

unfoldable pub negotiate_codec : AudioConstraints → Result ChunkError Codec
negotiate_codec c = first_accepted c preference

abbrev pub over : ℕ → Option ℕ → Bool
over n none = false
over n (some cap) = ltb cap n

-- `within_limits`, for a file of this size.
unfoldable pub within_limits : ℕ → ℕ → AudioConstraints → Bool
within_limits size total_ms c = not (over size c.max_bytes) && not (over total_ms c.max_duration_ms)

abbrev pub over_estimate : ℕ → Codec → Option ℕ → Bool
over_estimate total_ms codec none = false
over_estimate total_ms codec (some cap) = ltb (10 * cap) (est_bytes_per_ms codec * total_ms)

unfoldable pub fits_estimate : ℕ → AudioConstraints → Codec → Bool
fits_estimate total_ms c codec =
    not (over total_ms c.max_duration_ms || over_estimate total_ms codec c.max_bytes)

-- `int(constraints.max_bytes * _BYTE_SAFETY / bytes_per_ms)`
abbrev pub byte_limit : Codec → ℕ → ℕ
byte_limit codec cap = cap * 9 / est_bytes_per_ms codec

abbrev pub tightest : ℕ → Option ℕ → Option ℕ → ℕ
tightest total_ms none none = total_ms
tightest total_ms (some d) none = max 1 d
tightest total_ms none (some b) = max 1 b
tightest total_ms (some d) (some b) = max 1 (min d b)

abbrev pub limit_of : Codec → Option ℕ → Option ℕ
limit_of codec none = none
limit_of codec (some cap) = some (byte_limit codec cap)

unfoldable pub chunk_duration_ms : ℕ → AudioConstraints → Codec → ℕ
chunk_duration_ms total_ms c codec =
    tightest total_ms c.max_duration_ms (limit_of codec c.max_bytes)

-- `ceil(total_ms / chunk_ms)`
abbrev pub ceil_div : ℕ → ℕ → ℕ
ceil_div total_ms chunk_ms = (total_ms + (chunk_ms - 1)) / chunk_ms

-- `_encode(src, dst, codec, start_ms, end_ms)`: the size of the file, or an error.
module _ (encode : Codec → ℕ → ℕ → Result (Unit {0}) ℕ) where
  abbrev pub encoded : Codec → ℕ → ℕ → Result ChunkError ℕ
  encoded codec start_ms end_ms = elim (encode codec start_ms end_ms) [
    | err _ ↦ err encode_failed
    | ok size ↦ ok size
  ]

  -- The chunks from index `i` on, so many.
  unfoldable pub chunks_from : Codec → ℕ → ℕ → ℕ → ℕ → Result ChunkError (List Chunk)
  chunks_from codec chunk_ms total_ms i zero = ok []
  chunks_from codec chunk_ms total_ms i (suc m) = do
    let start = i * chunk_ms
    let end = min (start + chunk_ms) total_ms
    size ← encoded codec start end
    chunks ← chunks_from codec chunk_ms total_ms (i + 1) m
    ok (record { path = chunk_file i codec; offset_ms = start; duration_ms = end - start } ∷ chunks)

  unfoldable pub split : AudioConstraints → ℕ → Result ChunkError (List Chunk)
  split c total_ms = do
    codec ← negotiate_codec c
    let chunk_ms = chunk_duration_ms total_ms c codec
    chunks_from codec chunk_ms total_ms 0 (max 1 (ceil_div total_ms chunk_ms))

  abbrev pub whole : Codec → ℕ → List Chunk
  whole codec total_ms =
      record { path = compressed codec; offset_ms = 0; duration_ms = total_ms } ∷ []

  -- `plan_requests`, for a source of this duration (0: unreadable).
  unfoldable pub plan_requests : ℕ → AudioConstraints → Result ChunkError (List Chunk)
  plan_requests total_ms c = do
    codec ← negotiate_codec c
    if eqb total_ms 0 then (encoded codec 0 0 >>= λ size. ok (whole codec 0)) else do
      if fits_estimate total_ms c codec
          then (encoded codec 0 total_ms >>= λ size.
              if within_limits size total_ms c then ok (whole codec total_ms) else split c total_ms)
          else split c total_ms

abbrev pub shift_word : ℕ → Word → Word
shift_word offset w = record {
  text = w.text;
  start_ms = w.start_ms + offset;
  end_ms = w.end_ms + offset;
}

unfoldable pub merge_words : List (List Word × ℕ) → List Word
merge_words [] = []
merge_words ((words, offset) ∷ parts) = map (shift_word offset) words ++ merge_words parts

abbrev pub shift_lines : ℕ → ℕ → List TranscriptLine → List TranscriptLine
shift_lines at offset [] = []
shift_lines at offset (ln ∷ lines) =
    record {
      index = at;
      start_ms = ln.start_ms + offset;
      end_ms = ln.end_ms + offset;
      source_text = ln.source_text;
      words = map (shift_word offset) ln.words;
      speaker_id = ln.speaker_id;
    }
    ∷ shift_lines (at + 1) offset lines

-- `merge_lines`, after so many lines.
unfoldable pub merge_lines_from : ℕ → List (List TranscriptLine × ℕ) → List TranscriptLine
merge_lines_from at [] = []
merge_lines_from at ((lines, offset) ∷ parts) =
    shift_lines at offset lines ++ merge_lines_from (at + length lines) parts

unfoldable pub merge_lines : List (List TranscriptLine × ℕ) → List TranscriptLine
merge_lines parts = merge_lines_from 0 parts

module _ (run_one : AudioFile → ℕ → Result ChunkError (List Word)) where
  unfoldable pub run_all : List Chunk → Result ChunkError (List (List Word × ℕ))
  run_all [] = ok []
  run_all (c ∷ plan) = do
    words ← run_one c.path c.duration_ms
    parts ← run_all plan
    ok ((words, c.offset_ms) ∷ parts)

  unfoldable pub chunked_words :
      (Codec → ℕ → ℕ → Result (Unit {0}) ℕ) → ℕ → AudioConstraints → Result ChunkError (List Word)
  chunked_words encode total_ms c = do
    plan ← plan_requests encode total_ms c
    parts ← run_all plan
    ok (merge_words parts)
