-- ===== src/Kernel/Prepare.antt =====
-- `prepare` and `_demucs_split` of packages/autodub-core/src/autodub_core/stages.py: the speech track
-- and the ambient track, with every change of the two files as a state. demucs, ffmpeg and the copy
-- are parameters.
pub mod Stems
mod Tests
use open_video_trans.Common.{
  String, Bool, true, false, not, ◌&&◌, Option, none, some, List, [], ◌∷◌, ◌++◌, if◌then◌else◌,
  Result, ok, err,
}

-- speech.wav: the whole sound of a source, or its voices.
pub data Speech (A : Type 0) : Type 0 where
  full_mix : A → Speech A
  vocals : A → Speech A

-- speech.wav and ambient.wav, with the source that the ambient sound is from.
pub record Tracks (A : Type 0) : Type 0 where
  pub speech : Option (Speech A)
  pub ambient : Option A

-- `ff.have("demucs")`, the run of demucs that leaves both stems, the writers of the two tracks, and
-- the copy of the original audio, with what they raise.
pub record Tools : Type 0 where
  pub have_demucs : Bool
  pub demucs : Result String (Unit {0})
  pub to_canonical_wav : Result String (Unit {0})
  pub extract_audio : Result String (Unit {0})
  pub copy : Result String (Unit {0})

module _ {A : Type 0} where
  abbrev pub write_speech : Speech A → Tracks A → Tracks A
  write_speech speech tracks = record { speech = some speech; ambient = tracks.ambient }

  abbrev pub write_ambient : A → Tracks A → Tracks A
  write_ambient original tracks = record { speech = tracks.speech; ambient = some original }

  abbrev pub unlink_ambient : Tracks A → Tracks A
  unlink_ambient tracks = record { speech = tracks.speech; ambient = none }

  abbrev pub is_written : Option (Speech A) → Bool
  is_written none = false
  is_written (some speech) = true

  module _ (tools : Tools) (original : A) where
    -- `_demucs_split(paths)`: whether it returns, and the states of the tracks after each change,
    -- the last one first.
    abbrev pub split_speech : Tracks A → Result String (Unit {0}) → Bool × List (Tracks A)
    split_speech tracks (err e) = (false, tracks ∷ [])
    split_speech tracks (ok done) = (true, write_speech (vocals original) tracks ∷ tracks ∷ [])

    abbrev pub split_ambient : Tracks A → Result String (Unit {0}) → Bool × List (Tracks A)
    split_ambient tracks (err e) = (false, [])
    split_ambient tracks (ok done) =
        split_speech (write_ambient original tracks) tools.extract_audio

    abbrev pub split_stems : Tracks A → Result String (Unit {0}) → Bool × List (Tracks A)
    split_stems tracks (err e) = (false, [])
    split_stems tracks (ok done) = split_ambient tracks tools.to_canonical_wav

    abbrev pub demucs_split : Tracks A → Bool × List (Tracks A)
    demucs_split tracks = split_stems tracks tools.demucs

    abbrev pub last_state : Tracks A → List (Tracks A) → Tracks A
    last_state tracks [] = tracks
    last_state tracks (t ∷ states) = t

    -- The copy, and the ambient track of a former run that goes: the states, the last one first,
    -- and what is raised.
    abbrev pub full_copy :
        Tracks A
        → List (Tracks A)
        → Result String (Unit {0})
        → List (Tracks A) × Result String (Tracks A)
    full_copy tracks states (err e) = (states, err e)
    full_copy tracks states (ok done) =
        let copied = write_speech (full_mix original) tracks in
        (unlink_ambient copied ∷ copied ∷ states, ok (unlink_ambient copied))

    -- The speech track is separated, or the split has raised.
    abbrev pub after_split :
        Tracks A → Bool × List (Tracks A) → List (Tracks A) × Result String (Tracks A)
    after_split tracks (true, states) = (states, ok (last_state tracks states))
    after_split tracks (false, states) = full_copy (last_state tracks states) states tools.copy

    -- `prepare(paths, separate, force)`
    unfoldable pub prepare : Bool → Bool → Tracks A → List (Tracks A) × Result String (Tracks A)
    prepare separate force tracks =
        if is_written tracks.speech && not force
        then ([], ok tracks)
        else if separate && tools.have_demucs
        then after_split tracks (demucs_split tracks)
        else full_copy tracks [] tools.copy
