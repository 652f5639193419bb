-- ===== src/Schemas.antt =====
-- packages/schemas/src/ovt_schemas/contracts.py: the contracts that the packages share. Times are
-- milliseconds from the start of the media, which no source makes negative.
use open_video_trans.Common.{ℕ, String, Bool, Option, List}
use open_video_trans.Common.Chars.{Text}

pub data ErrorCode : Type 0 where
  over_duration unsupported_format upload_too_large source_verify_failed source_fetch_failed :
      ErrorCode
  unsupported_language_pair no_tts_model_for_language tts_provider_unavailable : ErrorCode
  free_pool_exhausted worker_lost processing_timeout daily_cap_reached internal_error : ErrorCode
  deadline_exceeded taken_down : ErrorCode

pub record Word : Type 0 where
  pub text : Text
  pub start_ms : ℕ
  pub end_ms : ℕ

pub record TranscriptLine : Type 0 where
  pub index : ℕ
  pub start_ms : ℕ
  pub end_ms : ℕ
  pub source_text : Text
  pub words : List Word
  pub speaker_id : String

pub record LanguageCapability : Type 0 where
  pub mt_supported : Bool
  pub subtitle_supported : Bool
  pub tts_supported : Bool
  pub tts_models : List String
  pub burn_font : String
  pub license_status : String
  pub quality_tier : String
  pub default_voice : Option String

-- The form of the mark and the position of the watermark are the literals' strings.
pub record AigcMarking : Type 0 where
  pub enabled : Bool
  pub implicit : Bool
  pub explicit : Bool
  pub form : String
  pub applied : Option Bool
  pub subtitle_enabled : Bool
  pub subtitle_text : Option Text
  pub video_watermark_enabled : Bool
  pub video_watermark_text : Option Text
  pub video_watermark_position : String
  pub video_watermark_font_size : ℕ
  pub video_watermark_opacity : ℕ
  pub video_watermark_color : String

pub record Transcript : Type 0 where
  pub source_language : Text
  pub lines : List TranscriptLine
  pub asr_provider : String

-- A ratio counts thousandths, to which the source rounds it.
pub record DubbingSegment : Type 0 where
  pub segment_id : Text
  pub index : ℕ
  pub speaker_id : String
  pub start_ms : ℕ
  pub end_ms : ℕ
  pub target_duration_ms : ℕ
  pub source_text : Text
  pub target_text : Text
  pub voice_id : Option String
  pub tts_provider : Option String
  pub keep_original : Bool
  pub align_method : Option String
  pub align_ratio : Option ℕ
  pub needs_review : Bool

pub record TranslationResult : Type 0 where
  pub source_language : Text
  pub target_language : Text
  pub mt_provider : String
  pub segments : List DubbingSegment
