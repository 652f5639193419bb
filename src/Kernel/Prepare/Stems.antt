-- ===== src/Kernel/Prepare/Stems.antt =====
-- The two tracks that `prepare` leaves belong together.
use open_video_trans.Common.{
  ◌≡◌, refl, String, Bool, true, false, not, ◌&&◌, ◌⊎◌, inl, inr, Option, none, some, List, [], ◌∷◌,
  if◌then◌else◌, Result, ok, err,
}
use open_video_trans.Kernel.Prepare.{
  Speech, full_mix, vocals, Tracks, Tools, is_written, split_speech, split_ambient, split_stems,
  full_copy, after_split, prepare,
}

module _ {A : Type 0} where
  -- The voices come with the ambient sound of the same source, and the whole sound with none.
  abbrev pub SpeechOf : A → Option (Speech A) → Option A → Type 0
  SpeechOf original none ambient = ⊥
  SpeechOf original (some (full_mix a)) ambient = (a ≡ original) × (ambient ≡ none)
  SpeechOf original (some (vocals a)) ambient = (a ≡ original) × (ambient ≡ some original)

  abbrev pub IsPrepared : A → Tracks A → Type 0
  IsPrepared original tracks = SpeechOf original tracks.speech tracks.ambient

  -- What is left by a run that returns.
  abbrev pub ReturnsPrepared : A → Result String (Tracks A) → Type 0
  ReturnsPrepared original (err e) = Unit {0}
  ReturnsPrepared original (ok tracks) = IsPrepared original tracks

  module _ (tools : Tools) (original : A) where
    full_copy-ReturnsPrepared :
        (tracks : Tracks A) (states : List (Tracks A)) (copied : Result String (Unit {0}))
        → ReturnsPrepared original (full_copy tools original tracks states copied).1
    full_copy-ReturnsPrepared tracks states (err e) = tt
    full_copy-ReturnsPrepared tracks states (ok done) = (refl, refl)

    split_speech-ReturnsPrepared :
        (before tracks : Tracks A) (extracted : Result String (Unit {0}))
        → tracks.ambient ≡ some original
        → ReturnsPrepared original
            (after_split tools original before (split_speech tools original tracks extracted)).1
    split_speech-ReturnsPrepared before tracks (err e) h =
        full_copy-ReturnsPrepared tracks (tracks ∷ []) tools.copy
    split_speech-ReturnsPrepared before tracks (ok done) h = (refl, h)

    split_ambient-ReturnsPrepared :
        (tracks : Tracks A) (converted : Result String (Unit {0}))
        → ReturnsPrepared original
            (after_split tools original tracks (split_ambient tools original tracks converted)).1
    split_ambient-ReturnsPrepared tracks (err e) = full_copy-ReturnsPrepared tracks [] tools.copy
    split_ambient-ReturnsPrepared tracks (ok done) =
        split_speech-ReturnsPrepared tracks _ tools.extract_audio refl

    split_stems-ReturnsPrepared :
        (tracks : Tracks A) (separated : Result String (Unit {0}))
        → ReturnsPrepared original
            (after_split tools original tracks (split_stems tools original tracks separated)).1
    split_stems-ReturnsPrepared tracks (err e) = full_copy-ReturnsPrepared tracks [] tools.copy
    split_stems-ReturnsPrepared tracks (ok done) =
        split_ambient-ReturnsPrepared tracks tools.to_canonical_wav

    if-ReturnsPrepared :
        (b : Bool) (run other : List (Tracks A) × Result String (Tracks A))
        → ReturnsPrepared original run.1
        → ReturnsPrepared original other.1
        → ReturnsPrepared original (if b then run else other).1
    if-ReturnsPrepared true run other h g = h
    if-ReturnsPrepared false run other h g = g

    -- A run that returns leaves the voices of the original with its ambient sound, or its whole
    -- sound and no ambient track, whichever step of the separation fails; provided that the tracks
    -- were so before, or there was no speech track, or the run is forced.
    pub prepare-ReturnsPrepared :
        (separate force : Bool) (tracks : Tracks A)
        → (is_written tracks.speech && not force ≡ false) ⊎ IsPrepared original tracks
        → ReturnsPrepared original (prepare tools original separate force tracks).1
    unfolding prepare
    prepare-ReturnsPrepared separate force tracks h =
        let anew =
          if-ReturnsPrepared (separate && tools.have_demucs) _ _
            (split_stems-ReturnsPrepared tracks tools.demucs)
            (full_copy-ReturnsPrepared tracks [] tools.copy) in
        elim h [
          | inl fresh ↦ rw fresh anew
          | inr prepared ↦
              if-ReturnsPrepared (is_written tracks.speech && not force) ([], ok tracks) _ prepared
                anew
        ]
