-- ===== src/Worker/Pipeline/Offers.antt =====
-- `_available_free_providers` and `_tts_pin_serviceable` of pipeline.py: what the box offers. The
-- rows are the answer of `probe`; which voices are installed is given.
pub mod Safe
mod Tests
use open_video_trans.Common.{
  String, Bool, true, false, not, ◌&&◌, ◌||◌, ◌==◌, Option, none, some, List, [], ◌∷◌,
  if◌then◌else◌, contains, keep_if, Result, ok, err,
}
use open_video_trans.Common.Chars.{Text}
use open_video_trans.Schemas.{LanguageCapability}
use open_video_trans.Providers.Select.{ProviderInfo}
use open_video_trans.Providers.Languages.{
  CaseMethods, commercial_safe_tts, get_capability, deepl_target_code,
}

abbrev pub Rows : Type 0
Rows = List (String × Bool × ProviderInfo)

-- `name for name, avail, info in probe(kind) if avail and not info.paid`
abbrev pub unpaid_names : Rows → List String
unpaid_names [] = []
unpaid_names ((name, avail, info) ∷ rows) =
    if avail && not info.paid then name ∷ unpaid_names rows else unpaid_names rows

abbrev pub safe_models : Option LanguageCapability → List String
safe_models none = []
safe_models (some c) = keep_if (λ m. contains m commercial_safe_tts) c.tts_models

abbrev pub is_ok {ℓ κ} : {E : Type ℓ} {A : Type κ} → Result E A → Bool
is_ok (ok a) = true
is_ok (err e) = false

module _ (case : CaseMethods) where
  unfoldable pub locale_commercial_safe_tts : Text → List String
  locale_commercial_safe_tts target_lang = safe_models (get_capability case target_lang)

  unfoldable pub deepl_supports : Text → Bool
  deepl_supports target_lang = is_ok (deepl_target_code case target_lang)

  -- The second argument is `piper_model_covers(target_lang)`.
  unfoldable pub available_free_providers : Bool → Rows → String → Text → List String
  available_free_providers piper_covers rows kind target_lang =
      let free = unpaid_names rows in
      if kind == "tts"
      then keep_if
          (λ n.
            contains n (locale_commercial_safe_tts target_lang)
            && (not (n == "piper") || piper_covers))
          free
      else if kind == "mt"
      then keep_if (λ n. not (n == "deepl") || deepl_supports target_lang) free
      else free

  abbrev pub lists : Option LanguageCapability → String → Bool
  lists none provider = false
  lists (some c) provider = contains provider c.tts_models

  -- The last argument is `tts_preset_voices(provider, target_lang)`.
  unfoldable pub tts_pin_serviceable : Bool → Rows → String → String → Text → List String → Bool
  tts_pin_serviceable piper_covers rows provider voice_id target_lang presets =
      if not (contains provider (unpaid_names rows))
      then false
      else if not (lists (get_capability case target_lang) provider)
      then false
      else if provider == "piper" && not piper_covers
      then false
      else contains voice_id presets
