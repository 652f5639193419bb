-- ===== src/Worker/Pipeline/Offers/Tests.antt =====
-- pipeline.py on a box with Piper, Cloudflare and edge_tts.
use open_video_trans.Common.{String, ◌≡◌, refl, Bool, true, false, some, [], ◌∷◌, contains, Any}
use open_video_trans.Common.Chars.{codes, strip}
use open_video_trans.Schemas.{LanguageCapability}
use open_video_trans.Providers.Select.{ProviderInfo}
use open_video_trans.Providers.Languages.{
  CaseMethods, commercial_safe_tts, normalize_locale, get_capability, deepl_target_code,
}
use open_video_trans.Worker.Pipeline.Offers.{
  Rows, locale_commercial_safe_tts, deepl_supports, available_free_providers, tts_pin_serviceable,
}
use open_video_trans.Worker.Pipeline.Offers.Safe.{IsFreeRow, offered_tts_safe}

program : Unit {0}
unfolding normalize_locale get_capability deepl_target_code locale_commercial_safe_tts
    deepl_supports available_free_providers tts_pin_serviceable strip
program = tt

-- Locales that are written canonically need no case methods.
abbrev canonical : CaseMethods
canonical = record { lower = λ s. s; upper = λ s. s; title = λ s. s; is_alpha = λ s. false }

abbrev row : String → String → Bool → String × Bool × ProviderInfo
row name kind paid = (
  name,
  true,
  record { name = name; kind = kind; paid = paid; requires = ""; languages = ""; notes = "" },
)

abbrev voices : Rows
voices =
    row "edge_tts" "tts" false
    ∷ row "cloudflare" "tts" false
    ∷ row "piper" "tts" false
    ∷ row "elevenlabs" "tts" true
    ∷ []

german : available_free_providers canonical true voices "tts" (codes "de") ≡ "piper" ∷ []
unfolding program
german = refl

german_without_model : available_free_providers canonical false voices "tts" (codes "de") ≡ []
unfolding program
german_without_model = refl

hindi :
    available_free_providers canonical true
      (row "deepl" "mt" false ∷ row "groq" "mt" false ∷ [])
      "mt"
      (codes "hi")
    ≡ "groq" ∷ []
unfolding program
hindi = refl

edge_pin :
    tts_pin_serviceable canonical true voices "edge_tts" "de-DE-KatjaNeural"
      (codes "de")
      ("de-DE-KatjaNeural" ∷ [])
    ≡ true
unfolding program
edge_pin = refl

german_piper :
    contains "piper" (available_free_providers canonical true voices "tts" (codes "de")) ≡ true
unfolding program
german_piper = refl

abbrev piper_name : String
piper_name = "piper"

offered_tts_safe_example :
    Any (IsFreeRow "piper") voices
    × ((c : LanguageCapability) × (get_capability canonical (codes "de") ≡ some c)
        × (contains "piper" c.tts_models ≡ true))
    × (contains "piper" commercial_safe_tts ≡ true)
    × ((piper_name ≡ piper_name) → true ≡ true)
offered_tts_safe_example = offered_tts_safe canonical true voices (codes "de") "piper" german_piper
