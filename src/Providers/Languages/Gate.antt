-- ===== src/Providers/Languages/Gate.antt =====
-- What the language gate of languages.py lets through.
use open_video_trans.Common.{
  String, ◌≡◌, refl, ap, ◌∙◌, inl, inr, ◌↔◌, Bool, true, Option, some, List, [], ◌∷◌, ok, err,
  arith, contains, keep_if, ◌==◌, eq_iff, ◌⊎◌, All, Option-cases, Bool-cases, subst,
}
use open_video_trans.Common.Chars.{Text, eq_text}
use open_video_trans.Schemas.{no_tts_model_for_language, LanguageCapability}
use open_video_trans.Providers.Languages.{
  CaseMethods, language_error, dub_modes, output_modes, capabilities, lookup_text, first_value,
  resolve_key, has_safe_voice, normalize_locale, get_capability, assert_language_pair, first_part,
  split_dash, check_layers, commercial_safe_tts, not_nil,
}

-- A property of every value of a table holds of what a lookup finds.
module _ {V : Type 0} (P : V → Type 0) where
  abbrev OfValues : List (Text × V) → Type 0
  OfValues table = All (λ (entry : Text × V). P entry.1) table

  lookup_text-P :
      (k : Text) (table : List (Text × V)) (v : V)
      → OfValues table
      → lookup_text k table ≡ some v
      → P v
  lookup_text-P k [] v all e = cc
  lookup_text-P k ((j, w) ∷ table) v all e = elim (Bool-cases (eq_text k j)) [
    | inl hit ↦ let same : w ≡ v = ground arith in subst P same all.0
    | inr miss ↦ lookup_text-P k table v all.1 (ground arith)
  ]

  first_value-P :
      (p : Text → Bool) (table : List (Text × V)) (v : V)
      → OfValues table
      → first_value p table ≡ some v
      → P v
  first_value-P p [] v all e = cc
  first_value-P p ((j, w) ∷ table) v all e = elim (Bool-cases (p j)) [
    | inl hit ↦ let same : w ≡ v = ground arith in subst P same all.0
    | inr miss ↦ first_value-P p table v all.1 (ground arith)
  ]

  pub resolve_key-P :
      (table : List (Text × V)) (norm : Text) (v : V)
      → OfValues table
      → resolve_key table norm ≡ some v
      → P v
  resolve_key-P table norm v all e =
      let base = first_part (split_dash norm) in
      let bare = λ (key : Text). eq_text (first_part (split_dash key)) base in
      elim (Option-cases (lookup_text norm table)) [
        | inr (w, exact) ↦ lookup_text-P norm table v all (ground arith)
        | inl inexact ↦ elim (Option-cases (lookup_text base table)) [
          | inr (w, generic) ↦ lookup_text-P base table v all (ground arith)
          | inl specific ↦ first_value-P bare table v all (ground arith)
        ]
      ]

-- For whatever locale, the capability's flag `tts_supported` says exactly whether one of its voices
-- is commercial-safe: an edge_tts-only locale never claims a dub voice.
pub tts_supported-eq-has_safe_voice :
    (case : CaseMethods) (locale : Text) (c : LanguageCapability)
    → get_capability case locale ≡ some c
    → c.tts_supported ≡ has_safe_voice c
unfolding get_capability
tts_supported-eq-has_safe_voice case locale c e =
    resolve_key-P (λ c. c.tts_supported ≡ has_safe_voice c) capabilities
      (normalize_locale case locale) c (ground arith) e

-- The gate is layered. A target is accepted for "both" exactly when it is accepted for each layer
-- alone, and then with the same capability.
pub both_iff_layers :
    (case : CaseMethods) (source_lang : Option Text) (target : Text) (c : LanguageCapability)
    → (assert_language_pair case source_lang target "both" ≡ ok c)
      ↔ (assert_language_pair case source_lang target "subtitle_only" ≡ ok c)
        × (assert_language_pair case source_lang target "dub_only" ≡ ok c)
unfolding assert_language_pair
both_iff_layers case source_lang target c = elim (Option-cases (get_capability case target)) [
  | inl unknown ↦ (λ e. ground arith, λ e. ground arith)
  | inr (found, known) ↦ (λ e. ground arith, λ e. ground arith)
]

-- A voice model that may be used commercially is offered.
abbrev pub OffersSafe : List String → Type 0
OffersSafe [] = ⊥
OffersSafe (m ∷ models) = ((m ≡ "piper") ⊎ (m ≡ "cloudflare")) ⊎ OffersSafe models

abbrev pub DubMode : String → Type 0
DubMode mode = (mode ≡ "dub_only") ⊎ (mode ≡ "both")

-- What a job in a mode needs of its target: a dub needs a safe voice, subtitles alone nothing more.
abbrev pub Serves : String → LanguageCapability → Type 0
Serves mode c = (mode ≡ "subtitle_only") ⊎ (DubMode mode × OffersSafe c.tts_models)

OffersSafe-iff :
    (models : List String)
    → (not_nil (keep_if (λ m. contains m commercial_safe_tts) models) ≡ true) ↔ OffersSafe models
OffersSafe-iff [] = (λ e. cc, λ none_there. absurd none_there)
OffersSafe-iff (m ∷ models) = elim (Bool-cases (m == "piper")) [
  | inl piper ↦ (λ e. inl (inl ((eq_iff m "piper").0 piper)), λ h. ground (arith, piper))
  | inr other ↦ elim (Bool-cases (m == "cloudflare")) [
    | inl cloudflare ↦
        (λ e. inl (inr ((eq_iff m "cloudflare").0 cloudflare)), λ h. ground (arith, cloudflare))
    | inr unsafe ↦ (
      λ e. inr ((OffersSafe-iff models).0 (ground (arith, e, other, unsafe))),
      λ h. elim h [
        | inl (inl e) ↦ absurd (ground (arith, other, (eq_iff m "piper").1 e))
        | inl (inr e) ↦ absurd (ground (arith, unsafe, (eq_iff m "cloudflare").1 e))
        | inr later ↦ ground (arith, other, unsafe, (OffersSafe-iff models).1 later)
      ],
    )
  ]
]

-- What the table says of every entry.
abbrev Entry : LanguageCapability → Type 0
Entry c =
    (c.mt_supported ≡ true) × (c.subtitle_supported ≡ true) × (c.tts_supported ≡ has_safe_voice c)

get_capability-Entry :
    (case : CaseMethods) (locale : Text) (c : LanguageCapability)
    → get_capability case locale ≡ some c
    → Entry c
unfolding get_capability
get_capability-Entry case locale c e =
    resolve_key-P Entry capabilities (normalize_locale case locale) c (ground arith) e

mode-Serves :
    (mode : String) (c : LanguageCapability)
    → contains mode output_modes ≡ true
    → (contains mode dub_modes ≡ true → has_safe_voice c ≡ true)
    → Serves mode c
mode-Serves mode c known voiced = elim (Bool-cases (mode == "subtitle_only")) [
  | inl subtitles ↦ inl ((eq_iff mode "subtitle_only").0 subtitles)
  | inr other ↦
      let safe = (OffersSafe-iff c.tts_models).0 (voiced (ground (arith, known, other))) in
      elim (Bool-cases (mode == "dub_only")) [
        | inl dub ↦ inr (inl ((eq_iff mode "dub_only").0 dub), safe)
        | inr last ↦ inr (inr ((eq_iff mode "both").0 (ground (arith, known, other, last))), safe)
      ]
]

check_layers-Serves :
    (c : LanguageCapability) (mode : String)
    → Entry c
    → Serves mode c
    → (contains mode output_modes ≡ true) × (check_layers (some c) mode ≡ ok c)
check_layers-Serves c mode entry (inl e) = rw e (refl, ground (arith, entry))
check_layers-Serves c mode entry (inr (inl e, safe)) =
    rw e (refl, ground (arith, entry, (OffersSafe-iff c.tts_models).1 safe))
check_layers-Serves c mode entry (inr (inr e, safe)) =
    rw e (refl, ground (arith, entry, (OffersSafe-iff c.tts_models).1 safe))

-- The gate lets a job through exactly when its target has a capability, which it returns, and its
-- mode is one of the three: subtitles alone, or a dub or both where one of the voice models of the
-- target is piper or cloudflare. The source language plays no part.
pub assert_language_pair_iff :
    (case : CaseMethods) (source_lang : Option Text) (target : Text) (mode : String)
    (c : LanguageCapability)
    → (assert_language_pair case source_lang target mode ≡ ok c)
      ↔ (get_capability case target ≡ some c) × Serves mode c
unfolding assert_language_pair
assert_language_pair_iff case source_lang target mode c = (
  λ e. elim (Option-cases (get_capability case target)) [
    | inl unknown ↦ absurd (ground arith)
    | inr (found, known) ↦
        let same : found ≡ c = ground arith in
        (known ∙ ap some same, mode-Serves mode c (ground arith) (λ dub. ground arith))
  ],
  λ h.
      let passed = check_layers-Serves c mode (get_capability-Entry case target c h.0) h.1 in
      rw (passed.0, h.0) passed.1,
)

-- A rejection for the missing voice means that the job dubs, and that the same target is accepted
-- for subtitles alone.
pub no_voice_keeps_subtitles :
    (case : CaseMethods) (source_lang : Option Text) (target : Text) (mode : String)
    → assert_language_pair case source_lang target mode
      ≡ err (language_error no_tts_model_for_language)
    → (contains mode dub_modes ≡ true)
      × ((c : LanguageCapability) × (assert_language_pair case source_lang target "subtitle_only"
            ≡ ok c))
unfolding assert_language_pair
no_voice_keeps_subtitles case source_lang target mode e =
    elim (Option-cases (get_capability case target)) [
      | inl unknown ↦ absurd (ground arith)
      | inr (found, known) ↦ (
        ground arith,
        (
          found,
          ground (
            arith,
            resolve_key-P (λ c. c.subtitle_supported ≡ true) capabilities
                (normalize_locale case target) found (ground arith)
                (unfold get_capability in known),
          ),
        ),
      )
    ]
