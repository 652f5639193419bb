-- ===== src/Kernel/Ingest/Paired.antt =====
-- The original and the audio that `ingest` leaves belong together.
use open_video_trans.Common.{
  ℕ, ◌≡◌, refl, sym, ap, ◌∙◌, subst, String, Bool, true, false, Option, none, some, Result, ok, err,
  >>=-eq-ok, if◌then◌else◌, some_inj,
}
use open_video_trans.Common.Chars.{Text}
use open_video_trans.Kernel.Ingest.{
  IngestError, Media, Staged, Source, url, missing_file, file, assert_allowed_input_format,
  assert_ffmpeg, use_cached, dst_suffix, extracted, validated, ingest_source, ingest_unless, ingest,
}

-- Audio is there only beside the original that it was extracted from.
abbrev pub AudioOf : Option Media → Option ℕ → Type 0
AudioOf original none = Unit {0}
AudioOf original (some c) = (m : Media) × (original ≡ some m) × (m.content ≡ c)

abbrev pub IsPaired : Staged → Type 0
IsPaired st = AudioOf st.original st.audio

module _ (lower : Text → Text) (probe : Media → Result String Text) (have_ffmpeg : Bool)
    (extract : Media → Result String (Unit {0})) where
  -- The original has an allowed format, and the audio is its own.
  abbrev pub IsAdmitted : Staged → Type 0
  IsAdmitted st =
      (m : Media) × (st.original ≡ some m)
      × (assert_allowed_input_format lower probe have_ffmpeg extract m ≡ ok tt)
      × (st.audio ≡ some m.content)

  -- The directory of an outcome is admitted if the outcome is not an exception.
  abbrev Admits : Staged × Result IngestError (Unit {0}) → Type 0
  Admits (st, err e) = Unit {0}
  Admits (st, ok done) = IsAdmitted st

  extracted-Admits :
      (m : Media) (answer : Result String (Unit {0}))
      → assert_allowed_input_format lower probe have_ffmpeg extract m ≡ ok tt
      → Admits (extracted lower probe have_ffmpeg extract m answer)
  extracted-Admits m (err e) fine = tt
  extracted-Admits m (ok done) fine = (m, refl, fine, refl)

  validated-Admits :
      (m : Media) (guard : Result IngestError (Unit {0}))
      → assert_allowed_input_format lower probe have_ffmpeg extract m ≡ guard
      → Admits (validated lower probe have_ffmpeg extract m guard)
  validated-Admits m (err e) fine = tt
  validated-Admits m (ok done) fine = extracted-Admits m (extract m) fine

  if-Admits :
      (b : Bool) (x y : Staged × Result IngestError (Unit {0}))
      → Admits x
      → Admits y
      → Admits (if b then x else y)
  if-Admits true x y h g = h
  if-Admits false x y h g = g

  ingest_source-Admits :
      (st : Staged) (source : Source)
      → Admits (ingest_source lower probe have_ffmpeg extract st source)
  ingest_source-Admits st url = tt
  ingest_source-Admits st missing_file = tt
  ingest_source-Admits st (file m) =
      if-Admits have_ffmpeg
        (validated lower probe have_ffmpeg extract
          (record {
            suffix = dst_suffix lower probe have_ffmpeg extract m.suffix;
            content = m.content;
          })
          _)
        _ (validated-Admits _ _ refl) tt

  cached-Admits :
      (st : Staged) (m : Media) (c : ℕ) (outcome : Result IngestError (Unit {0}))
      → st.original ≡ some m
      → st.audio ≡ some c
      → IsPaired st
      → (use_cached lower probe have_ffmpeg extract st m).1 ≡ outcome
      → Admits (st, outcome)
  cached-Admits st m c (err e) original audio paired same = tt
  cached-Admits st m c (ok done) original audio paired same =
      let (found, ffmpeg, fine) =
        >>=-eq-ok (assert_ffmpeg lower probe have_ffmpeg extract)
          (λ u. assert_allowed_input_format lower probe have_ffmpeg extract m) same in
      let (m', there, content) = subst (AudioOf st.original) audio paired in
      let same_media : m' ≡ m = some_inj (sym there ∙ original) in
      (
        m,
        original,
        fine,
        audio ∙ ap some (sym content) ∙ ap (λ (n : Media). some n.content) same_media,
      )

  ingest_unless-Admits :
      (force : Bool) (st : Staged) (source : Source) (original : Option Media) (audio : Option ℕ)
      → st.original ≡ original
      → st.audio ≡ audio
      → IsPaired st
      → Admits (ingest_unless lower probe have_ffmpeg extract force st source original audio)
  ingest_unless-Admits force st source none audio e f paired = ingest_source-Admits st source
  ingest_unless-Admits force st source (some m) none e f paired = ingest_source-Admits st source
  ingest_unless-Admits true st source (some m) (some c) e f paired = ingest_source-Admits st source
  ingest_unless-Admits false st source (some m) (some c) e f paired =
      cached-Admits st m c (use_cached lower probe have_ffmpeg extract st m).1 e f paired refl

  -- If audio was there only beside the original it was extracted from, then an ingest that returns,
  -- cached or not, leaves an original whose format was admitted in this run, and its own audio.
  pub ingest-IsAdmitted :
      (force : Bool) (before after : Staged) (source : Source)
      → IsPaired before
      → ingest lower probe have_ffmpeg extract force before source ≡ (after, ok tt)
      → IsAdmitted after
  unfolding ingest
  ingest-IsAdmitted force before after source paired e =
      subst Admits e
        (ingest_unless-Admits force before source before.original before.audio refl refl paired)
