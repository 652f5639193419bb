-- ===== src/Kernel/Voices.antt =====
-- `_assign_voices` of packages/autodub-core/src/autodub_core/stages.py.
pub mod Spread
mod Tests
use Prim.Native.String.{compare}
use Prim.Native.Nat.{Ordering}
use open_video_trans.Common.{
  ℕ, zero, suc, ◌+◌, ◌%◌, String, Bool, true, false, Option, none, some, List, [], ◌∷◌, map, length,
  Result, ok, err, ◌==◌, if◌then◌else◌,
}

-- `sorted(set(xs))`: Python and `compare` order texts by their code points.
abbrev pub placed : Ordering → String → String → List String → List String → List String
placed Ordering.lt s t ts later = s ∷ t ∷ ts
placed Ordering.eq s t ts later = t ∷ ts
placed Ordering.gt s t ts later = t ∷ later

abbrev pub insert_speaker : String → List String → List String
insert_speaker s [] = s ∷ []
insert_speaker s (t ∷ ts) = placed (compare s t) s t ts (insert_speaker s ts)

abbrev pub sorted_set : List String → List String
sorted_set [] = []
sorted_set (s ∷ xs) = insert_speaker s (sorted_set xs)

-- `voices[i]`; the callers keep `i` in range.
abbrev pub voice_at : List String → ℕ → String
voice_at [] i = ""
voice_at (v ∷ voices) zero = v
voice_at (v ∷ voices) (suc i) = voice_at voices i

-- `{sid: voices[i % len(voices)] for i, sid in enumerate(speakers)}`
unfoldable pub spread : List String → ℕ → List String → List (String × String)
spread voices i [] = []
spread voices i (sid ∷ speakers) =
    (sid, voice_at voices (i % length voices)) ∷ spread voices (i + 1) speakers

abbrev pub pin_all : String → List String → List (String × String)
pin_all voice speakers = map (λ (sid : String). (sid, voice)) speakers

pub data TtsError : Type 0 where
  no_voice provider_unavailable unknown_speaker : TtsError
  synthesis_failed : String → TtsError

abbrev pub offered_voices : List String → List String → Result TtsError (List (String × String))
offered_voices [] speakers = err no_voice
offered_voices (v ∷ voices) speakers = ok (spread (v ∷ voices) 0 speakers)

abbrev pub pinned_or_offered :
    List String → List String → Option String → Result TtsError (List (String × String))
pinned_or_offered offered speakers none = offered_voices offered speakers
pinned_or_offered offered speakers (some voice) =
    if voice == "" then offered_voices offered speakers else ok (pin_all voice speakers)

-- `_assign_voices(provider, lang, speaker_ids, pinned_voice=…, voice_pool=…)`, for the voices that
-- the provider has for the language.
unfoldable pub assign_voices :
    List String
    → List String
    → Option String
    → Option (List String)
    → Result TtsError (List (String × String))
assign_voices offered speaker_ids pinned_voice none =
    pinned_or_offered offered (sorted_set speaker_ids) pinned_voice
assign_voices offered speaker_ids pinned_voice (some []) =
    pinned_or_offered offered (sorted_set speaker_ids) pinned_voice
assign_voices offered speaker_ids pinned_voice (some (v ∷ pool)) =
    ok (spread (v ∷ pool) 0 (sorted_set speaker_ids))
