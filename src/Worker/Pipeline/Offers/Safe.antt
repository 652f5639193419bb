-- ===== src/Worker/Pipeline/Offers/Safe.antt =====
-- What pipeline.py offers to routing, and which voice pins it accepts.
use open_video_trans.Common.{
  String, ◌≡◌, sym, subst, inl, inr, Bool, true, false, not, ◌&&◌, ◌||◌, ◌==◌, eq_iff, none, some,
  List, [], ◌∷◌, contains, keep_if, Any, arith, Bool-cases, Option-cases,
}
use open_video_trans.Common.Chars.{Text}
use open_video_trans.Schemas.{LanguageCapability}
use open_video_trans.Providers.Select.{ProviderInfo}
use open_video_trans.Providers.Languages.{CaseMethods, commercial_safe_tts, get_capability}
use open_video_trans.Worker.Pipeline.Offers.{
  Rows, unpaid_names, safe_models, locale_commercial_safe_tts, available_free_providers,
  tts_pin_serviceable,
}

-- A row of the probe: the adapter answers, and is not flagged as paid.
abbrev pub IsFreeRow : String → String × Bool × ProviderInfo → Type 0
IsFreeRow name row = (row.0 ≡ name) × (row.1 ≡ true) × (row.2.paid ≡ false)

unpaid_names-Any :
    (p : String) (rows : Rows) → contains p (unpaid_names rows) ≡ true → Any (IsFreeRow p) rows
unpaid_names-Any p [] h = cc
unpaid_names-Any p ((name, avail, info) ∷ rows) h = elim (Bool-cases (avail && not info.paid)) [
  | inr unusable ↦ inr (unpaid_names-Any p rows (rw unusable at h))
  | inl usable ↦ elim (Bool-cases (p == name)) [
    | inl same ↦ inl (sym ((eq_iff p name).0 same), ground arith, ground arith)
    | inr other ↦ inr (unpaid_names-Any p rows (ground arith))
  ]
]

contains-keep_if :
    (keep : String → Bool) (p : String) (names : List String)
    → contains p (keep_if keep names) ≡ true
    → (contains p names ≡ true) × (keep p ≡ true)
contains-keep_if keep p [] h = cc
contains-keep_if keep p (n ∷ names) h = elim (Bool-cases (p == n)) [
  | inr other ↦ ground (arith, contains-keep_if keep p names)
  | inl same ↦
      let e : p ≡ n = (eq_iff p n).0 same in
      elim (Bool-cases (keep n)) [
        | inl kept ↦ (ground arith, rw e kept)
        | inr dropped ↦
            let later = contains-keep_if keep p names (rw dropped at h) in (ground arith, later.1)
      ]
]

abbrev dub_filter : CaseMethods → Bool → Text → String → Bool
dub_filter case piper_covers target n =
    contains n (locale_commercial_safe_tts case target) && (not (n == "piper") || piper_covers)

-- A provider offered for the dub is an available adapter without the paid flag, a commercial-safe
-- voice that the target's capability lists, and Piper only with a model of that language.
pub offered_tts_safe :
    (case : CaseMethods) (piper_covers : Bool) (rows : Rows) (target : Text) (p : String)
    → contains p (available_free_providers case piper_covers rows "tts" target) ≡ true
    → Any (IsFreeRow p) rows
      × ((c : LanguageCapability) × (get_capability case target ≡ some c)
          × (contains p c.tts_models ≡ true))
      × (contains p commercial_safe_tts ≡ true)
      × ((p ≡ "piper") → piper_covers ≡ true)
unfolding available_free_providers locale_commercial_safe_tts
offered_tts_safe case piper_covers rows target p h =
    let (free, kept) =
      contains-keep_if (dub_filter case piper_covers target) p (unpaid_names rows) h in
    elim (Option-cases (get_capability case target)) [
      | inl unknown ↦
          let listed : contains p (safe_models none) ≡ true =
            subst (λ o. contains p (safe_models o) ≡ true) unknown (ground (arith, kept)) in
          absurd (ground (arith, listed))
      | inr (c, known) ↦
          let listed : contains p (safe_models (some c)) ≡ true =
            subst (λ o. contains p (safe_models o) ≡ true) known (ground (arith, kept)) in
          let (model, safe) =
            contains-keep_if (λ m. contains m commercial_safe_tts) p c.tts_models listed in
          (
            unpaid_names-Any p rows free,
            (c, known, model),
            safe,
            λ piper. ground (arith, kept, eq_iff p "piper"),
          )
    ]

-- A pin that is accepted names an available adapter without the paid flag, which the target's
-- capability lists, and one of the adapter's preset voices.
pub serviceable_pin_safe :
    (case : CaseMethods) (piper_covers : Bool) (rows : Rows) (p voice : String) (target : Text)
    (presets : List String)
    → tts_pin_serviceable case piper_covers rows p voice target presets ≡ true
    → Any (IsFreeRow p) rows
      × ((c : LanguageCapability) × (get_capability case target ≡ some c)
          × (contains p c.tts_models ≡ true))
      × (contains voice presets ≡ true)
unfolding tts_pin_serviceable
serviceable_pin_safe case piper_covers rows p voice target presets h =
    elim (Option-cases (get_capability case target)) [
      | inl unknown ↦ absurd (ground arith)
      | inr (c, known) ↦
          (unpaid_names-Any p rows (ground arith), (c, known, ground arith), ground arith)
    ]
