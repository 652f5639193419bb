-- ===== src/Kernel/Ingest/Tests.antt =====
-- A source that is ingested, and one that replaces it where ffmpeg is gone.
use open_video_trans.Common.{
  ℕ, ◌≡◌, refl, String, true, false, none, some, Result, ok, err, eqb, if◌then◌else◌,
}
use open_video_trans.Common.Chars.{Text, codes, strip, is_space}
use open_video_trans.Kernel.Ingest.{
  Media, Staged, file, missing_ffmpeg, disallowed_format, validate_format_name,
  assert_allowed_input_format, ingest,
}
use open_video_trans.Kernel.Ingest.Paired.{IsAdmitted, ingest-IsAdmitted}

program : Unit {0}
unfolding is_space strip validate_format_name assert_allowed_input_format ingest
program = tt

abbrev as_is : Text → Text
as_is s = s

-- The file with content 9 is a playlist in disguise.
abbrev probe : Media → Result String Text
probe m = ok (if eqb m.content 9 then codes "hls,applehttp" else codes "mov,mp4,m4a")

abbrev extract : Media → Result String (Unit {0})
extract m = ok tt

abbrev video : ℕ → Media
video content = record { suffix = codes ".mp4"; content = content }

abbrev empty : Staged
empty = record { original = none; audio = none }

abbrev staged_first : Staged
staged_first = record { original = some (video 1); audio = some 1 }

first : ingest as_is probe true extract false empty (file (video 1)) ≡ (staged_first, ok tt)
unfolding program
first = refl

disguised : ingest as_is probe true extract true staged_first (file (video 9)) ≡ (
  record { original = some (video 9); audio = none },
  err (disallowed_format (codes "hls,applehttp")),
)
unfolding program
disguised = refl

-- Without ffmpeg a forced ingest replaces the original and keeps the audio of the one before.
abbrev mismatched : Staged
mismatched = record { original = some (video 2); audio = some 1 }

replaced :
    ingest as_is probe false extract true staged_first (file (video 2))
    ≡ (mismatched, err missing_ffmpeg)
unfolding program
replaced = refl

-- The next run takes the audio of the first source for that of the second.
stale_audio_hit :
    ingest as_is probe true extract false mismatched (file (video 2)) ≡ (mismatched, ok tt)
unfolding program
stale_audio_hit = refl

ingest-IsAdmitted_example : IsAdmitted as_is probe true extract staged_first
ingest-IsAdmitted_example =
    ingest-IsAdmitted as_is probe true extract false empty staged_first (file (video 1)) tt first
