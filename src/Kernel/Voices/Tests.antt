-- ===== src/Kernel/Voices/Tests.antt =====
-- Voices for two speakers.
use open_video_trans.Common.{◌≡◌, refl, String, some, List, [], ◌∷◌, ok, err}
use open_video_trans.Kernel.Voices.{no_voice, spread, assign_voices}
use open_video_trans.Kernel.Voices.Spread.{HasVoice, assign_voices-HasVoice}

program : Unit {0}
unfolding spread assign_voices
program = tt

abbrev ids : List String
ids = "SPEAKER_01" ∷ "SPEAKER_00" ∷ "SPEAKER_01" ∷ "SPEAKER_02" ∷ []

abbrev cast : List (String × String)
cast = ("SPEAKER_00", "a") ∷ ("SPEAKER_01", "b") ∷ ("SPEAKER_02", "a") ∷ []

pooled : assign_voices [] ids (some "c") (some ("a" ∷ "b" ∷ [])) ≡ ok cast
unfolding program
pooled = refl

voiceless : assign_voices [] ids (some "") (some []) ≡ err no_voice
unfolding program
voiceless = refl

assign_voices-HasVoice_example : HasVoice ("a" ∷ "b" ∷ []) "SPEAKER_02" cast
assign_voices-HasVoice_example =
    assign_voices-HasVoice [] ids (some "c") (some ("a" ∷ "b" ∷ [])) cast "SPEAKER_02" refl pooled
