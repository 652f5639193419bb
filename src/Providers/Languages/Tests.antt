-- ===== src/Providers/Languages/Tests.antt =====
-- languages.py on some locales. Over ASCII the methods of str are these.
use open_video_trans.Common.{
  ℕ, ◌≡◌, ◌↔◌, refl, ◌+◌, ◌-◌, ◌&&◌, Bool, true, none, some, [], ◌∷◌, map, ok, err, leb,
  if◌then◌else◌,
}
use open_video_trans.Common.Chars.{Text, codes, strip}
use open_video_trans.Schemas.{
  unsupported_language_pair, no_tts_model_for_language, LanguageCapability,
}
use open_video_trans.Providers.Languages.{
  CaseMethods, value_error, language_error, cap, normalize_locale, get_capability,
  assert_language_pair, resolve_source_language, deepl_target_code,
}
use open_video_trans.Providers.Languages.Gate.{Serves, assert_language_pair_iff}

program : Unit {0}
unfolding normalize_locale get_capability assert_language_pair resolve_source_language
    deepl_target_code strip
program = tt

abbrev lower_code : ℕ → ℕ
lower_code c = if leb b'A' c && leb c b'Z' then c + 32 else c

abbrev upper_code : ℕ → ℕ
upper_code c = if leb b'a' c && leb c b'z' then c - 32 else c

abbrev is_letter : ℕ → Bool
is_letter c = leb b'a' (lower_code c) && leb (lower_code c) b'z'

abbrev title_text : Text → Text
title_text [] = []
title_text (c ∷ s) = upper_code c ∷ map lower_code s

abbrev letters : Text → Bool
letters [] = true
letters (c ∷ s) = is_letter c && letters s

abbrev ascii : CaseMethods
ascii = record {
  lower = map lower_code;
  upper = map upper_code;
  title = title_text;
  is_alpha = λ s. letters s;
}

normalized :
    (normalize_locale ascii (codes " zh_hans ") ≡ codes "zh-Hans")
    × (normalize_locale ascii (codes "PT-br") ≡ codes "pt-BR")
    × (normalize_locale ascii (codes "_x") ≡ codes "_x")
unfolding program
normalized = (refl, refl, refl)

abbrev german : LanguageCapability
german = cap true ("piper" ∷ "edge_tts" ∷ []) "Noto Sans" "standard" (some "de-DE-KatjaNeural")

german_found : get_capability ascii (codes "DE_de") ≡ some german
unfolding program
german_found = refl

german_both : assert_language_pair ascii (some (codes "en")) (codes "de") "both" ≡ ok german
unfolding program
german_both = refl

esperanto_silent :
    assert_language_pair ascii none (codes "eo") "both"
    ≡ err (language_error no_tts_model_for_language)
unfolding program
esperanto_silent = refl

rejected :
    (assert_language_pair ascii none (codes "zh-Hant-TW") "bothh" ≡ err value_error)
    × (assert_language_pair ascii none (codes "xx") "subtitle_only"
        ≡ err (language_error unsupported_language_pair))
unfolding program
rejected = (refl, refl)

sources :
    (resolve_source_language ascii (some (codes " AUTO ")) (some (codes "fr ")) ≡ codes "fr")
    × (resolve_source_language ascii none (some (codes " ")) ≡ codes "auto")
unfolding program
sources = (refl, refl)

deepl :
    (deepl_target_code ascii (codes "pt") ≡ ok "PT-BR")
    × (deepl_target_code ascii (codes "hi") ≡ err (language_error unsupported_language_pair))
unfolding program
deepl = (refl, refl)

assert_language_pair_iff_example :
    (assert_language_pair ascii (some (codes "en")) (codes "de") "both" ≡ ok german)
    ↔ (get_capability ascii (codes "de") ≡ some german) × Serves "both" german
assert_language_pair_iff_example =
    assert_language_pair_iff ascii (some (codes "en")) (codes "de") "both" german
