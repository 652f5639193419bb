-- ===== src/Kernel/Timeline/Tests.antt =====
-- Two clips on a track of five seconds.
use open_video_trans.Common.{
  ℕ, ◌+◌, ◌*◌, ◌≤◌, ◌≡◌, refl, max, some, false, List, [], ◌∷◌, ok, length,
}
use mathlib.Core.List.{Perm}
use open_video_trans.Kernel.Timeline.Order.{InOrder}
use open_video_trans.Kernel.Timeline.{
  Wav, Piece, silence, sound, wav_duration_ms, stitch_from, stitch_timeline, chain_from,
  atempo_chain_for, assign_timing,
}
use open_video_trans.Kernel.Timeline.Drift.{
  track_frames, end_ms, sounds, due, IsClose, stitch_timeline_near,
}
use open_video_trans.Kernel.Timeline.Fit.{IsPlanFor, assign_timing_lem}

program : Unit {0}
unfolding wav_duration_ms stitch_from stitch_timeline chain_from atempo_chain_for assign_timing
program = tt

abbrev clip : ℕ → Wav
clip frames = record { channels = 1; sampwidth = 2; rate = 48_000; frames = frames }

abbrev clips : List (ℕ × Wav)
clips = (1500, clip 96_010) ∷ (1000, clip 48_000) ∷ []

abbrev track : List Piece
track = silence 48_000 ∷ sound (clip 48_000) ∷ sound (clip 96_010) ∷ silence 48_000 ∷ []

stitched : stitch_timeline clips 5000 ≡ ok track
unfolding program
stitched = refl

stitch_timeline_near_example :
    (order : List (ℕ × Wav)) × Perm order clips
    × InOrder 0 order
    × IsClose 0 (sounds 0 track) (due 0 order)
    × (48 * max 5000 (end_ms 0 order) ≤ track_frames track + 24 * length clips)
    × (track_frames track ≤ 48 * max 5000 (end_ms 0 order) + 24 * length clips)
stitch_timeline_near_example = stitch_timeline_near clips 5000 track stitched

sped_up : assign_timing 1500 1000 ≡ record {
  method = "dsp";
  atempo_chain = some ((1500, 1000) ∷ []);
  align_ratio = 1500;
  needs_review = false;
}
unfolding program
sped_up = refl

assign_timing_lem_example : IsPlanFor 2500 (max 1 1000) (assign_timing 2500 1000)
assign_timing_lem_example = assign_timing_lem 2500 1000
