-- ===== src/Providers/Circuit/Tests.antt =====
-- circuit.py on small inputs.
use open_video_trans.Common.{
  ℕ, ◌<◌, String, ◌≡◌, refl, true, false, Option, none, some, List, [], ◌∷◌, contains,
}
use open_video_trans.Providers.Ladder.{is_paid_provider}
use open_video_trans.Providers.Circuit.{
  ProviderAvailability, is_exhausted, free_pool_exhausted, no_free_provider, routed, failure,
  permitted, free_ladder_providers, configured_free_providers, route_loop, route_free,
}
use open_video_trans.Providers.Circuit.Routing.{
  ladder_of, first_usable, any_candidate, resets_of, route_spec, route_free_lem,
  route_free_never_paid,
}
use open_video_trans.Providers.Circuit.Routing.Recovery.{at, retry_at_exact}

program : Unit {0}
unfolding is_paid_provider is_exhausted configured_free_providers free_ladder_providers route_loop
    route_free
program = tt

-- groq is circuit-broken, deepl is not configured.
abbrev busy : ProviderAvailability
busy = record { now_ms = 100; exhausted_until = ("groq", 250) ∷ ("cloudflare", 180) ∷ [] }

abbrev keys : Option (List String)
keys = some ("groq" ∷ "cloudflare" ∷ "ollama" ∷ [])

abbrev cloud_only : Option (List String)
cloud_only = some ("cloudflare" ∷ "groq" ∷ [])

route_mt : route_free "mt" busy keys ≡ routed "ollama" "mt"
unfolding program
route_mt = refl

route_asr : route_free "asr" busy cloud_only ≡ failure "asr" free_pool_exhausted (some 180)
unfolding program
route_asr = refl

route_unknown : route_free "video" busy none ≡ failure "video" no_free_provider none
unfolding program
route_unknown = refl

configured_drops_paid :
    configured_free_providers ("openai" ∷ "deepl" ∷ "nobody" ∷ []) ≡ "deepl" ∷ []
unfolding program
configured_drops_paid = refl

route_free_never_paid_example :
    (is_paid_provider "ollama" ≡ false)
    × (contains "ollama" (ladder_of "mt") ≡ true)
    × (permitted keys "ollama" ≡ true)
    × (is_exhausted busy "ollama" ≡ false)
    × (◌≡◌ {A = String} "mt" "mt")
route_free_never_paid_example = route_free_never_paid "mt" busy keys "ollama" "mt" route_mt

retry_at_exact_example :
    ((now : ℕ)
      → now < 180
      → route_free "asr" (at busy now) cloud_only ≡ failure "asr" free_pool_exhausted (some 180))
    × ((p : String) × (route_free "asr" (at busy 180) cloud_only ≡ routed p "asr"))
retry_at_exact_example = retry_at_exact "asr" busy cloud_only "asr" 180 route_asr

route_free_lem_example :
    route_free "asr" busy cloud_only
    ≡ route_spec "asr" busy cloud_only
        (first_usable busy cloud_only (ladder_of "asr"))
        (any_candidate cloud_only (ladder_of "asr"))
        (resets_of cloud_only busy.exhausted_until (ladder_of "asr"))
route_free_lem_example = route_free_lem "asr" busy cloud_only
