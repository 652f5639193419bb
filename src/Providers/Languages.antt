-- ===== src/Providers/Languages.antt =====
-- packages/provider-adapters/src/provider_adapters/languages.py
pub mod Gate
mod Tests
use open_video_trans.Common.{
  ℕ, String, Bool, true, false, not, ◌&&◌, ◌||◌, Option, none, some, List, [], ◌∷◌, ◌++◌, ◌==◌, map,
  Result, ok, err, eqb, if◌then◌else◌, contains, keep_if, length,
}
use open_video_trans.Common.Chars.{Text, codes, eq_text, strip}
use open_video_trans.Schemas.{
  ErrorCode, unsupported_language_pair, no_tts_model_for_language, LanguageCapability,
}

-- _DUB_MODES, _SUBTITLE_MODES, _OUTPUT_MODES
abbrev pub dub_modes : List String
dub_modes = "dub_only" ∷ "both" ∷ []

abbrev pub subtitle_modes : List String
subtitle_modes = "subtitle_only" ∷ "both" ∷ []

abbrev pub output_modes : List String
output_modes = "subtitle_only" ∷ "dub_only" ∷ "both" ∷ []

-- COMMERCIAL_SAFE_TTS
abbrev pub commercial_safe_tts : List String
commercial_safe_tts = "piper" ∷ "cloudflare" ∷ []

-- ValueError, and LanguageError with its code.
pub data GateError : Type 0 where
  value_error : GateError
  language_error : ErrorCode → GateError

-- `_cap(...)`; every entry leaves mt, sub and license_status at their defaults.
abbrev pub cap : Bool → List String → String → String → Option String → LanguageCapability
cap tts models font tier voice = record {
  mt_supported = true;
  subtitle_supported = true;
  tts_supported = tts;
  tts_models = models;
  burn_font = font;
  license_status = "free";
  quality_tier = tier;
  default_voice = voice;
}

-- CAPABILITIES
abbrev pub capabilities : List (Text × LanguageCapability)
capabilities =
    (
      codes "en",
      cap true ("piper" ∷ "edge_tts" ∷ "cloudflare" ∷ []) "Noto Sans" "high"
          (some "en-US-AriaNeural"),
    )
    ∷ (
      codes "zh-Hans",
      cap true ("edge_tts" ∷ "cloudflare" ∷ "piper" ∷ []) "Noto Sans CJK SC" "high"
          (some "zh-CN-XiaoxiaoNeural"),
    )
    ∷ (
      codes "es",
      cap true ("piper" ∷ "edge_tts" ∷ "cloudflare" ∷ []) "Noto Sans" "high"
          (some "es-ES-ElviraNeural"),
    )
    ∷ (
      codes "fr",
      cap true ("piper" ∷ "edge_tts" ∷ "cloudflare" ∷ []) "Noto Sans" "high"
          (some "fr-FR-DeniseNeural"),
    )
    ∷ (
      codes "de",
      cap true ("piper" ∷ "edge_tts" ∷ []) "Noto Sans" "standard" (some "de-DE-KatjaNeural"),
    )
    ∷ (
      codes "ja",
      cap true ("edge_tts" ∷ "cloudflare" ∷ "piper" ∷ []) "Noto Sans CJK JP" "standard"
          (some "ja-JP-NanamiNeural"),
    )
    ∷ (
      codes "ko",
      cap true ("edge_tts" ∷ "cloudflare" ∷ "piper" ∷ []) "Noto Sans CJK KR" "standard"
          (some "ko-KR-SunHiNeural"),
    )
    ∷ (
      codes "pt-BR",
      cap true ("edge_tts" ∷ "piper" ∷ []) "Noto Sans" "standard" (some "pt-BR-FranciscaNeural"),
    )
    ∷ (
      codes "ru",
      cap true ("edge_tts" ∷ "piper" ∷ []) "Noto Sans" "standard" (some "ru-RU-SvetlanaNeural"),
    )
    ∷ (
      codes "it",
      cap true ("edge_tts" ∷ "piper" ∷ []) "Noto Sans" "standard" (some "it-IT-ElsaNeural"),
    )
    ∷ (
      codes "hi",
      cap false ("edge_tts" ∷ []) "Noto Sans Devanagari" "standard" (some "hi-IN-SwaraNeural"),
    )
    ∷ (
      codes "ar",
      cap false ("edge_tts" ∷ []) "Noto Sans Arabic" "basic" (some "ar-EG-SalmaNeural"),
    )
    ∷ (codes "eo", cap false [] "Noto Sans" "basic" none)
    ∷ []

-- The methods of Python's str that depend on the Unicode tables.
pub record CaseMethods : Type 0 where
  pub lower : Text → Text
  pub upper : Text → Text
  pub title : Text → Text
  pub is_alpha : Text → Bool

abbrev pub split_from : Text → Text → List Text
split_from current [] = current ∷ []
split_from current (c ∷ s) =
    let cut = current ∷ split_from [] s in
    let longer = split_from (current ++ c ∷ []) s in if eqb c b'-' then cut else longer

-- `s.split("-")`
abbrev pub split_dash : Text → List Text
split_dash s = split_from [] s

-- `"-".join(parts)`
abbrev pub join_dash : List Text → Text
join_dash [] = []
join_dash (p ∷ []) = p
join_dash (p ∷ q ∷ ps) = p ++ b'-' ∷ join_dash (q ∷ ps)

abbrev pub first_part : List Text → Text
first_part [] = []
first_part (p ∷ ps) = p

-- `d.get(k)`, and the first value whose key satisfies a test.
abbrev pub lookup_text {ℓ} : {V : Type ℓ} → Text → List (Text × V) → Option V
lookup_text k [] = none
lookup_text k ((j, v) ∷ m) = if eq_text k j then some v else lookup_text k m

abbrev pub first_value {ℓ} : {V : Type ℓ} → (Text → Bool) → List (Text × V) → Option V
first_value p [] = none
first_value p ((j, v) ∷ m) = if p j then some v else first_value p m

abbrev pub or_else {ℓ} : {A : Type ℓ} → Option A → Option A → Option A
or_else (some a) other = some a
or_else none other = other

-- The rule that `get_capability` and `deepl_target_code` share: the exact key, else the generic
-- entry of the base language, else for a bare base the first entry of that language.
abbrev pub resolve_key {ℓ} : {V : Type ℓ} → List (Text × V) → Text → Option V
resolve_key table norm =
    let base = first_part (split_dash norm) in
    or_else (lookup_text norm table) (
      or_else (lookup_text base table) (
        if eq_text norm base
        then first_value (λ key. eq_text (first_part (split_dash key)) base) table
        else none))

abbrev pub not_nil : List String → Bool
not_nil [] = false
not_nil (m ∷ ms) = true

-- `commercial_safe` of `assert_language_pair` is not empty.
abbrev pub has_safe_voice : LanguageCapability → Bool
has_safe_voice c = not_nil (keep_if (λ m. contains m commercial_safe_tts) c.tts_models)

abbrev pub check_layers : Option LanguageCapability → String → Result GateError LanguageCapability
check_layers none output_mode = err (language_error unsupported_language_pair)
check_layers (some c) output_mode =
    if not c.mt_supported
    then err (language_error unsupported_language_pair)
    else if contains output_mode subtitle_modes && not c.subtitle_supported
    then err (language_error unsupported_language_pair)
    else if contains output_mode dub_modes && not (c.tts_supported && has_safe_voice c)
    then err (language_error no_tts_model_for_language)
    else ok c

-- _DEEPL_TARGETS
abbrev pub deepl_targets : List (Text × String)
deepl_targets =
    (codes "en", "EN-US")
    ∷ (codes "en-US", "EN-US")
    ∷ (codes "en-GB", "EN-GB")
    ∷ (codes "zh-Hans", "ZH")
    ∷ (codes "es", "ES")
    ∷ (codes "fr", "FR")
    ∷ (codes "de", "DE")
    ∷ (codes "ja", "JA")
    ∷ (codes "ko", "KO")
    ∷ (codes "pt-BR", "PT-BR")
    ∷ (codes "ru", "RU")
    ∷ (codes "it", "IT")
    ∷ []

abbrev pub or_unsupported : Option String → Result GateError String
or_unsupported none = err (language_error unsupported_language_pair)
or_unsupported (some code) = ok code

module _ (case : CaseMethods) where
  abbrev pub canonical_subtag : Text → Text
  canonical_subtag sub =
      if eqb (length sub) 4 && case.is_alpha sub
      then case.title sub
      else if eqb (length sub) 2 && case.is_alpha sub
      then case.upper sub
      else sub

  abbrev pub normalize_parts : Text → List Text → Text
  normalize_parts locale [] = strip locale
  normalize_parts locale ([] ∷ subtags) = strip locale
  normalize_parts locale (language ∷ subtags) =
      join_dash (case.lower language ∷ map canonical_subtag subtags)

  unfoldable pub normalize_locale : Text → Text
  normalize_locale locale =
      normalize_parts locale (split_dash (map (λ c. if eqb c b'_' then b'-' else c) (strip locale)))

  unfoldable pub get_capability : Text → Option LanguageCapability
  get_capability locale = resolve_key capabilities (normalize_locale locale)

  -- The source language is not read.
  unfoldable pub assert_language_pair :
      Option Text → Text → String → Result GateError LanguageCapability
  assert_language_pair source_lang target_lang output_mode =
      if not (contains output_mode output_modes)
      then err value_error
      else check_layers (get_capability target_lang) output_mode

  abbrev pub known_language : Option Text → Option Text
  known_language none = none
  known_language (some cand) =
      let text = strip cand in
      if eq_text text [] || eq_text (case.lower text) (codes "auto") then none else some text

  unfoldable pub resolve_source_language : Option Text → Option Text → Text
  resolve_source_language hint detected =
      elim (or_else (known_language hint) (known_language detected)) [
        | none ↦ codes "auto"
        | some text ↦ text
      ]

  unfoldable pub deepl_target_code : Text → Result GateError String
  deepl_target_code target_lang =
      or_unsupported (resolve_key deepl_targets (normalize_locale target_lang))
