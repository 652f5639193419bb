-- ===== src/Kernel/Diarize/Tests.antt =====
-- Two speakers in one line.
use open_video_trans.Common.{ℕ, ◌≡◌, refl, String, none, some, List, [], ◌∷◌}
use open_video_trans.Kernel.Diarize.{SpeakerTurn, dominant_speaker, relabel, diarize}
use open_video_trans.Kernel.Diarize.Dominant.{IsDominant, dominant_speaker_lem}

program : Unit {0}
unfolding dominant_speaker relabel diarize
program = tt

abbrev turn : ℕ → ℕ → String → SpeakerTurn
turn start end speaker = record { start_ms = start; end_ms = end; speaker = speaker }

abbrev turns : List SpeakerTurn
turns = turn 0 400 "S1" ∷ turn 400 900 "S0" ∷ turn 900 1100 "S1" ∷ turn 3000 4000 "S2" ∷ []

longest :
    (dominant_speaker 0 1000 turns ≡ some "S0")
    × (dominant_speaker 0 1100 turns ≡ some "S1")
    × (dominant_speaker 1200 2000 turns ≡ none)
unfolding program
longest = (refl, refl, refl)

dominant_speaker_lem_example : IsDominant 0 1000 turns (dominant_speaker 0 1000 turns)
dominant_speaker_lem_example = dominant_speaker_lem 0 1000 turns
