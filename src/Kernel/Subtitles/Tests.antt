-- ===== src/Kernel/Subtitles/Tests.antt =====
-- The subtitle file of two segments.
use open_video_trans.Common.{◌≡◌, refl, true, false, none, some, List, [], ◌∷◌, ◌++◌, ℕ}
use open_video_trans.Common.Chars.{Text, codes, strip, is_space}
use open_video_trans.Common.Decimal.{show, show_padded}
use open_video_trans.Schemas.{DubbingSegment}
use open_video_trans.Kernel.Subtitles.{
  ts, SrtCue, segment_cues, srt_cues, cue_lines, after_line, join_lines, srt_text,
}
use open_video_trans.Kernel.Subtitles.RoundTrip.{read_cue, read_cue-cue_lines}
use open_video_trans.Kernel.Subtitles.Shown.{shown_of}
use open_video_trans.Kernel.Subtitles.Disclosure.{IsDisclosed, Numbered, srt_cues-IsDisclosed}

program : Unit {0}
unfolding show show_padded is_space strip ts segment_cues srt_cues srt_text
program = tt

abbrev segment : ℕ → ℕ → ℕ → Text → Text → DubbingSegment
segment index start end source target = record {
  segment_id = codes "seg";
  index = index;
  speaker_id = "SPEAKER_00";
  start_ms = start;
  end_ms = end;
  target_duration_ms = 900;
  source_text = source;
  target_text = target;
  voice_id = none;
  tts_provider = none;
  keep_original = false;
  align_method = none;
  align_ratio = none;
  needs_review = false;
}

abbrev two_segments : List DubbingSegment
two_segments =
    segment 0 1200 2100 (codes "hello") (codes " hola ")
    ∷ segment 1 2100 2200 (codes "um") []
    ∷ segment 2 2300 2400 [] (codes " ")
    ∷ []

late_time : ts 3_723_045 ≡ codes "01:02:03,045"
unfolding program
late_time = refl

abbrev plain_file : Text
plain_file =
    codes "1"
    ++ b'\n'
      ∷ (codes "00:00:01,200 --> 00:00:02,100"
          ++ b'\n'
            ∷ (codes "hola"
                ++ b'\n'
                  ∷ b'\n'
                  ∷ (codes "2"
                      ++ b'\n'
                        ∷ (codes "00:00:02,100 --> 00:00:02,200"
                            ++ b'\n' ∷ (codes "um" ++ b'\n' ∷ [])))))

plain : srt_text two_segments false none ≡ plain_file
unfolding program
plain = refl

abbrev first_cue : SrtCue
first_cue = record { number = 7; start_ms = 1200; end_ms = 360_000_000; body = codes "hola" ∷ [] }

read_cue-cue_lines_example :
    read_cue (join_lines (cue_lines first_cue ++ codes "8" ∷ []))
    ≡ some (7, 1200, 360_000_000, after_line (codes "hola" ∷ [] ∷ codes "8" ∷ []))
read_cue-cue_lines_example = read_cue-cue_lines first_cue (codes "8" ∷ [])

srt_cues-IsDisclosed_example :
    IsDisclosed
      (codes "AI")
      (shown_of true two_segments)
      (srt_cues two_segments true (some (codes "AI")))
    × Numbered 1 (srt_cues two_segments true (some (codes "AI")))
srt_cues-IsDisclosed_example = srt_cues-IsDisclosed two_segments true (codes "AI") refl
