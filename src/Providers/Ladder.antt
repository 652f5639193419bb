-- ===== src/Providers/Ladder.antt =====
-- packages/provider-adapters/src/provider_adapters/ladder.py
use open_video_trans.Common.{String, Bool, List, [], ◌∷◌, contains}

-- AUTO_LADDER
abbrev pub auto_ladder : List (String × List String)
auto_ladder =
    ("asr", "groq" ∷ "cloudflare" ∷ "faster_whisper" ∷ [])
    ∷ ("mt", "groq" ∷ "deepl" ∷ "ollama" ∷ "cloudflare" ∷ [])
    ∷ ("tts", "piper" ∷ "edge_tts" ∷ "cloudflare" ∷ [])
    ∷ []

-- PAID_PROVIDERS
abbrev pub paid_providers : List String
paid_providers =
    "openai" ∷ "deepgram" ∷ "assemblyai" ∷ "deepseek" ∷ "gemini" ∷ "elevenlabs" ∷ "minimax"
    ∷ "backend" ∷ []

unfoldable pub is_paid_provider : String → Bool
is_paid_provider name = contains name paid_providers
