-- ===== src/Kernel/Mux/Resume.antt =====
-- A run of `mux` after one that succeeded.
use open_video_trans.Common.{
  ◌≡◌, refl, ap, sym, ◌∙◌, subst, Bool, true, false, Option, none, some, List, [], ◌∷◌, ◌++◌,
  if◌then◌else◌, arith, Bool-cases, inl, inr, Result, ok, err,
}
use open_video_trans.Common.Chars.{Text, eq_text, eq_text_iff, has, reread_kept}
use open_video_trans.Schemas.{DubbingSegment}
use open_video_trans.Kernel.Mux.{
  MuxSettings, MuxError, burned_mp4, dubbed_mp4, subtitles_srt, want_video, want_srt, text_or_empty,
  want_burn, check_settings, expected, cache_key, Muxed, muxed,
}
use open_video_trans.Kernel.Mux.Build.{
  Output, Inputs, MuxStep, all_present, is_empty, cached_key, cleared, Effect, build_all, is_cached,
  rebuild, mux_checked, mux,
}
use open_video_trans.Kernel.Mux.Files.{Holds, HasFiles, Built, build-Built}

Holds-map {ℓ} :
    {A : Type ℓ} (P Q : Output → A → Type 0) (e : Effect A)
    → ((o : Output) (a : A) → P o a → Q o a)
    → Holds P e
    → Holds Q e
Holds-map P Q (out, err e) f h = tt
Holds-map P Q (out, ok a) f h = f out a h

expected-present :
    (v b t : Bool) (out : Output)
    → HasFiles v b t out
    → all_present out (
        (if b then burned_mp4 ∷ [] else if v then dubbed_mp4 ∷ [] else [])
        ++ (if t then subtitles_srt ∷ [] else []))
      ≡ true
expected-present true true true out h = rw (h.1, h.2) refl
expected-present true true false out h = rw h.1 refl
expected-present true false true out h = rw (h.0, h.2) refl
expected-present true false false out h = rw h.0 refl
expected-present false true true out h = rw (h.1, h.2) refl
expected-present false true false out h = rw h.1 refl
expected-present false false true out h = rw h.2 refl
expected-present false false false out h = refl

-- A marker without a carriage return is read as it was written.
cached_key-written :
    (marker : Option Text) (key : Text)
    → text_or_empty marker ≡ key
    → has b'\r' key ≡ false
    → cached_key marker ≡ key
cached_key-written none key e one_line = e
cached_key-written (some written) key e one_line =
    reread_kept written (ap (has b'\r') e ∙ one_line) ∙ e

module _ (burn_enabled : Bool) where
  -- Settings that pass the guards ask for a file.
  check_settings-expected :
      (s : MuxSettings)
      → check_settings burn_enabled s ≡ ok tt
      → is_empty (expected burn_enabled s) ≡ false
  unfolding check_settings expected
  check_settings-expected s h = ground (arith, h)

  -- The directory is one that a run without `force` takes as it is.
  abbrev pub Ready : MuxSettings → Output → Muxed → Type 0
  Ready s out m =
      (check_settings burn_enabled s ≡ ok tt)
      × (all_present out (expected burn_enabled s) ≡ true)
      × (has b'\r' (cache_key burn_enabled s) ≡ false
          → eq_text (cached_key out.mux_cache) (cache_key burn_enabled s) ≡ true)
      × (m ≡ muxed burn_enabled s)

  module _ (dir : Inputs) (run : MuxStep → Result MuxError (Unit {0})) where
    Built-Ready :
        (s : MuxSettings)
        → check_settings burn_enabled s ≡ ok tt
        → (out : Output) (m : Muxed) → Built burn_enabled dir run s out m
        → Ready s out m
    unfolding expected
    Built-Ready s fine out m h = (
      fine,
      expected-present (want_video s) (want_burn burn_enabled s) (want_srt s) out h.0,
      λ one_line.
          (eq_text_iff (cached_key out.mux_cache) (cache_key burn_enabled s)).1
            (cached_key-written out.mux_cache (cache_key burn_enabled s) h.1 one_line),
      h.2,
    )

    rebuild-Ready :
        (s : MuxSettings) (out : Output) (read : Result MuxError (List DubbingSegment))
        → check_settings burn_enabled s ≡ ok tt
        → Holds (Ready s) (rebuild burn_enabled dir run s (cleared out) read)
    rebuild-Ready s out (err e) fine = tt
    rebuild-Ready s out (ok segments) fine =
        Holds-map (Built burn_enabled dir run s) (Ready s)
          (build_all burn_enabled dir run s (cleared out) segments) (Built-Ready s fine)
          (build-Built burn_enabled dir run s segments (cleared out)
            (check_settings-expected s fine) (refl, refl, refl))

    cached-Ready :
        (force : Bool) (s : MuxSettings) (out : Output)
        → check_settings burn_enabled s ≡ ok tt
        → is_cached burn_enabled dir run force s out ≡ true
        → Ready s out (muxed burn_enabled s)
    cached-Ready force s out fine h = (fine, ground (arith, h), λ one_line. ground (arith, h), refl)

    mux_checked-Ready :
        (force : Bool) (s : MuxSettings) (out : Output) (checked : Result MuxError (Unit {0}))
        → check_settings burn_enabled s ≡ checked
        → Holds (Ready s) (mux_checked burn_enabled dir run force s out checked)
    mux_checked-Ready force s out (err e) h = tt
    mux_checked-Ready force s out (ok done) h =
        elim (Bool-cases (is_cached burn_enabled dir run force s out)) [
          | inl hit ↦ rw hit (cached-Ready force s out h hit)
          | inr miss ↦ rw miss (rebuild-Ready s out dir.segments h)
        ]

    pub mux-Ready :
        (force : Bool) (s : MuxSettings) (before after : Output) (m : Muxed)
        → mux burn_enabled dir run force s before ≡ (after, ok m)
        → Ready s after m
    unfolding mux
    mux-Ready force s before after m e =
        subst (Holds (Ready s)) e
          (mux_checked-Ready force s before (check_settings burn_enabled s) refl)

  -- Once `mux` has returned, if the key of its settings has no carriage return, a run with the same
  -- settings and without `force` returns the same and leaves the output directory as it is,
  -- whatever its calls to ffmpeg would answer and whatever
  -- became of the other files of the job.
  pub mux_resumes :
      (dir dir' : Inputs) (run run' : MuxStep → Result MuxError (Unit {0})) (force : Bool)
      (s : MuxSettings) (before after : Output) (m : Muxed)
      → mux burn_enabled dir run force s before ≡ (after, ok m)
      → has b'\r' (cache_key burn_enabled s) ≡ false
      → mux burn_enabled dir' run' false s after ≡ (after, ok m)
  unfolding mux
  mux_resumes dir dir' run run' force s before after m e one_line =
      let (fine, files, key, same) = mux-Ready dir run force s before after m e in
      let hit : is_cached burn_enabled dir' run' false s after ≡ true =
        ground (arith, check_settings-expected s fine, files, key one_line) in
      rw (fine, hit) (ap (λ n. (after, ok n)) (sym same))
