-- ===== src/Kernel/Ingest.antt =====
-- `ingest` of packages/autodub-core/src/autodub_core/stages.py and the format guard of
-- ffmpeg_utils.py. What ffprobe, ffmpeg and the disk answer is given.
pub mod Paired
mod Tests
use open_video_trans.Common.{
  ℕ, String, Bool, true, false, not, ◌&&◌, ◌||◌, Option, none, some, List, [], ◌∷◌, ◌++◌, map, eqb,
  if◌then◌else◌, keep_if, Result, ok, err, ◌>>=◌,
}
use open_video_trans.Common.Chars.{Text, codes, strip, eq_text, text_in}

-- ALLOWED_INPUT_FORMATS
abbrev pub allowed_input_formats : List Text
allowed_input_formats = map codes (
    "mov" ∷ "mp4" ∷ "m4a" ∷ "m4v" ∷ "m4b" ∷ "3gp" ∷ "3g2" ∷ "mj2" ∷ "matroska" ∷ "webm" ∷ "avi"
    ∷ "mpegts" ∷ "mpeg" ∷ "mpegvideo" ∷ "flv" ∷ "asf" ∷ "mxf" ∷ "mp3" ∷ "mp2" ∷ "wav" ∷ "w64"
    ∷ "flac" ∷ "ogg" ∷ "oga" ∷ "opus" ∷ "aac" ∷ "ac3" ∷ "aiff" ∷ [])

-- _PLAYLIST_EXTENSIONS
abbrev pub playlist_extensions : List Text
playlist_extensions = map codes (
    ".m3u" ∷ ".m3u8" ∷ ".pls" ∷ ".xspf" ∷ ".asx" ∷ ".smil" ∷ ".wpl" ∷ ".cue" ∷ ".concat"
    ∷ ".ffconcat" ∷ [])

pub data IngestError : Type 0 where
  missing_ffmpeg no_format not_a_local_path source_not_found : IngestError
  playlist_extension : Text → IngestError
  disallowed_format : Text → IngestError
  probe_failed extraction_failed : String → IngestError

-- `s.split(",")`
abbrev pub comma_parts : Text → Text → List Text
comma_parts current [] = current ∷ []
comma_parts current (c ∷ s) =
    let cut = current ∷ comma_parts [] s in
    let longer = comma_parts (current ++ c ∷ []) s in if eqb c b',' then cut else longer

abbrev pub all_allowed : List Text → Bool
all_allowed [] = true
all_allowed (t ∷ tokens) = text_in t allowed_input_formats && all_allowed tokens

abbrev pub no_tokens : List Text → Bool
no_tokens [] = true
no_tokens (t ∷ tokens) = false

-- A file of video/: its extension and its content.
pub record Media : Type 0 where
  pub suffix : Text
  pub content : ℕ

-- What stands in the job directory: video/original.*, and the content that audio/original.wav was
-- extracted from.
pub record Staged : Type 0 where
  pub original : Option Media
  pub audio : Option ℕ

-- The `source` argument: a URL, a path to no file, or a file.
pub data Source : Type 0 where
  url missing_file : Source
  file : Media → Source

module _ (lower : Text → Text) (probe : Media → Result String Text) (have_ffmpeg : Bool)
    (extract : Media → Result String (Unit {0})) where
  abbrev pub tokens : Text → List Text
  tokens format_name =
      map (λ t. lower (strip t))
        (keep_if (λ t. not (eq_text (strip t) [])) (comma_parts [] format_name))

  unfoldable pub validate_format_name : Text → Result IngestError (Unit {0})
  validate_format_name format_name =
      if no_tokens (tokens format_name)
      then err no_format
      else if all_allowed (tokens format_name)
      then ok tt
      else err (disallowed_format format_name)

  abbrev pub validate_probed : Result String Text → Result IngestError (Unit {0})
  validate_probed (err e) = err (probe_failed e)
  validate_probed (ok format_name) = validate_format_name format_name

  unfoldable pub assert_allowed_input_format : Media → Result IngestError (Unit {0})
  assert_allowed_input_format m =
      let guarded = validate_probed (probe m) in
      if text_in (lower m.suffix) playlist_extensions
      then err (playlist_extension m.suffix)
      else guarded

  abbrev pub assert_ffmpeg : Result IngestError (Unit {0})
  assert_ffmpeg = if have_ffmpeg then ok tt else err missing_ffmpeg

  -- The directory and the outcome.
  abbrev pub Ingested : Type 0
  Ingested = Staged × Result IngestError (Unit {0})

  -- A cached original is validated again.
  abbrev pub use_cached : Staged → Media → Ingested
  use_cached st m = (st, do found ← assert_ffmpeg; assert_allowed_input_format m)

  -- `src.suffix.lower() or '.mp4'`
  abbrev pub dst_suffix : Text → Text
  dst_suffix suffix = if eq_text suffix [] then codes ".mp4" else lower suffix

  abbrev pub extracted : Media → Result String (Unit {0}) → Ingested
  extracted m (err e) = (record { original = some m; audio = none }, err (extraction_failed e))
  extracted m (ok done) = (record { original = some m; audio = some m.content }, ok tt)

  abbrev pub validated : Media → Result IngestError (Unit {0}) → Ingested
  validated m (err e) = (record { original = some m; audio = none }, err e)
  validated m (ok done) = extracted m (extract m)

  -- The new original is in place before the check of ffmpeg, and the old audio goes after it.
  abbrev pub ingest_file : Staged → Media → Ingested
  ingest_file st m =
      let dst : Media = record { suffix = dst_suffix m.suffix; content = m.content } in
      if have_ffmpeg
      then validated dst (assert_allowed_input_format dst)
      else (record { original = some dst; audio = st.audio }, err missing_ffmpeg)

  abbrev pub ingest_source : Staged → Source → Ingested
  ingest_source st url = (st, err not_a_local_path)
  ingest_source st missing_file = (st, err source_not_found)
  ingest_source st (file m) = ingest_file st m

  abbrev pub ingest_unless : Bool → Staged → Source → Option Media → Option ℕ → Ingested
  ingest_unless force st source (some m) (some c) =
      if force then ingest_source st source else use_cached st m
  ingest_unless force st source _ _ = ingest_source st source

  -- `ingest(paths, source, force)`
  unfoldable pub ingest : Bool → Staged → Source → Ingested
  ingest force st source = ingest_unless force st source st.original st.audio
