-- ===== src/Kernel/Mux/Files.antt =====
-- Which files a build of `mux` leaves in the output directory.
use open_video_trans.Common.{
  ◌≡◌, refl, Bool, true, false, Option, none, some, List, if◌then◌else◌, Result, ok, err,
}
use open_video_trans.Common.Chars.{Text}
use open_video_trans.Schemas.{DubbingSegment}
use open_video_trans.Kernel.Mux.{
  Watermark, MuxSettings, MuxError, burned_mp4, dubbed_mp4, subtitles_srt, want_video, want_srt,
  text_or_empty, want_burn, watermark, expected, cache_key, Muxed, muxed,
}
use open_video_trans.Kernel.Mux.Build.{
  Video, Output, Inputs, MuxStep, is_present, is_empty, with_dub, Effect, and_then, perform,
  overlay, build_dub, build_video, build_srt, burn_over, burn_original, burn_onto, burn_source,
  build_burn, build_all,
}

-- A predicate of the directory and the answer, where no exception was raised.
abbrev pub Holds {ℓ} : {A : Type ℓ} → (Output → A → Type 0) → Effect A → Type 0
Holds P (out, err e) = Unit {0}
Holds P (out, ok a) = P out a

and_then-Holds {ℓ} :
    {A : Type ℓ} (Q : Output → Type 0) (P : Output → A → Type 0) (m : Effect (Unit {0}))
    (k : Output → Effect A)
    → Holds (λ o u. Q o) m
    → ((o : Output) → Q o → Holds P (k o))
    → Holds P (and_then m k)
and_then-Holds Q P (out, err e) k h next = tt
and_then-Holds Q P (out, ok done) k h next = next out h

-- A test whose outcome the predicate may speak of.
if-Holds {ℓ} :
    {A : Type ℓ} (P : Bool → Output → A → Type 0) (b : Bool) (m n : Effect A)
    → Holds (P true) m
    → Holds (P false) n
    → Holds (P b) (if b then m else n)
if-Holds P true m n hm hn = hm
if-Holds P false m n hm hn = hn

-- The files that are there: the dub, the burn and the subtitles.
abbrev pub HasFiles : Bool → Bool → Bool → Output → Type 0
HasFiles dub burn srt out =
    (is_present out dubbed_mp4 ≡ dub)
    × (is_present out burned_mp4 ≡ burn)
    × (is_present out subtitles_srt ≡ srt)

module _ (burn_enabled : Bool) (dir : Inputs) (run : MuxStep → Result MuxError (Unit {0})) where
  perform-Holds :
      (Q : Output → Type 0) (step : MuxStep) (before after : Output)
      → Q after
      → Holds (λ o u. Q o) (perform burn_enabled dir run step before after)
  perform-Holds Q step before after h =
      elim (run step)
        as (λ r.
          Holds (λ o (u : Unit {0}). Q o)
            (elim r [ err e ↦ (before, err e) | ok done ↦ (after, ok tt) ])) [
              | err e ↦ tt
              | ok done ↦ h
            ]

  overlay-HasFiles :
      (mark : Option Watermark) (burn : Bool) (v : Video) (out : Output)
      → HasFiles true false false out
      → Holds (λ o u. HasFiles true false false o) (overlay burn_enabled dir run mark burn v out)
  overlay-HasFiles none burn v out h = h
  overlay-HasFiles (some wm) true v out h = h
  overlay-HasFiles (some wm) false v out h =
      perform-Holds (HasFiles true false false) MuxStep.watermark_video out
        (with_dub (Video.overlaid wm v) out) (refl, h.1, h.2)

  build_dub-HasFiles :
      (s : MuxSettings) (v : Video) (out : Output)
      → HasFiles false false false out
      → Holds (λ o u. HasFiles true false false o) (build_dub burn_enabled dir run s v out)
  build_dub-HasFiles s v out h =
      let before = HasFiles false false false in
      let after : Output → Unit {0} → Type 0 = λ o u. HasFiles true false false o in
      and_then-Holds before after (perform burn_enabled dir run MuxStep.check_source out out) _
        (perform-Holds before MuxStep.check_source out out h)
        λ o h1.
          and_then-Holds before after (perform burn_enabled dir run MuxStep.stitch_timeline o o) _
            (perform-Holds before MuxStep.stitch_timeline o o h1)
            λ o' h2.
              and_then-Holds (HasFiles true false false) after
                (perform burn_enabled dir run MuxStep.mux_video o' (with_dub v o')) _
                (perform-Holds (HasFiles true false false) MuxStep.mux_video o' (with_dub v o')
                  (refl, h2.1, h2.2))
                λ o'' h3.
                  overlay-HasFiles (watermark burn_enabled s) (want_burn burn_enabled s) v o'' h3

  build_video-HasFiles :
      (s : MuxSettings) (segments : List DubbingSegment) (out : Output)
      → HasFiles false false false out
      → Holds
          (λ o u. HasFiles (want_video s) false false o)
          (build_video burn_enabled dir run s segments out)
  unfolding build_video
  build_video-HasFiles s segments out h =
      if-Holds (λ b o u. HasFiles b false false o) (want_video s) _ (out, ok tt)
        (if-Holds (λ b o u. HasFiles true false false o) dir.original_video
          (build_dub burn_enabled dir run s _ out) (out, err MuxError.no_original_video)
          (build_dub-HasFiles s _ out h) tt)
        h

  build_srt-HasFiles :
      (s : MuxSettings) (segments : List DubbingSegment) (dub : Bool) (out : Output)
      → HasFiles dub false false out
      → Holds
          (λ o u. HasFiles dub false (want_srt s) o)
          (build_srt burn_enabled dir run s segments out)
  unfolding build_srt
  build_srt-HasFiles s segments dub out h =
      if-Holds (λ b o u. HasFiles dub false b o) (want_srt s) _ (out, ok tt)
        (perform-Holds (HasFiles dub false true) MuxStep.write_srt out _ (h.0, h.1, refl)) h

  burn_over-HasFiles :
      (s : MuxSettings) (text : Text) (dub srt : Bool) (out : Output) (v : Option Video)
      → HasFiles dub false srt out
      → Holds (λ o u. HasFiles dub true srt o) (burn_over burn_enabled dir run s text v out)
  burn_over-HasFiles s text dub srt out none h = tt
  burn_over-HasFiles s text dub srt out (some v) h =
      perform-Holds (HasFiles dub true srt) MuxStep.burn_subtitles out _ (h.0, refl, h.2)

  burn_source-HasFiles :
      (s : MuxSettings) (dub srt : Bool) (out : Output)
      → HasFiles dub false srt out
      → Holds (λ o u. HasFiles dub false srt o) (burn_source burn_enabled dir run s out)
  burn_source-HasFiles s dub srt out h =
      if-Holds (λ b o u. HasFiles dub false srt o) (want_srt s) (out, ok tt) _ h
        (perform-Holds (HasFiles dub false srt) MuxStep.write_srt out out h)

  burn_onto-HasFiles :
      (s : MuxSettings) (text : Text) (dub srt : Bool) (out : Output)
      → HasFiles dub false srt out
      → Holds (λ o u. HasFiles dub true srt o) (burn_onto burn_enabled dir run s text out)
  burn_onto-HasFiles s text dub srt out h =
      let burnt = HasFiles dub true srt in
      if-Holds (λ b o u. burnt o) (want_video s)
        (burn_over burn_enabled dir run s text out.dubbed_video out)
        (burn_original burn_enabled dir run s text out)
        (burn_over-HasFiles s text dub srt out out.dubbed_video h)
        (if-Holds (λ b o u. burnt o) dir.original_video _ (out, err MuxError.no_original_video)
          (perform-Holds burnt MuxStep.burn_subtitles out _ (h.0, refl, h.2)) tt)

  build_burn-HasFiles :
      (s : MuxSettings) (segments : List DubbingSegment) (dub srt : Bool) (out : Output)
      → HasFiles dub false srt out
      → Holds
          (λ o u. HasFiles dub (want_burn burn_enabled s) srt o)
          (build_burn burn_enabled dir run s segments out)
  unfolding build_burn
  build_burn-HasFiles s segments dub srt out h =
      if-Holds (λ b o u. HasFiles dub b srt o) (want_burn burn_enabled s) _ (out, ok tt)
        (and_then-Holds (HasFiles dub false srt) (λ o u. HasFiles dub true srt o)
          (burn_source burn_enabled dir run s out) _ (burn_source-HasFiles s dub srt out h)
          λ o h1. burn_onto-HasFiles s _ dub srt o h1)
        h

  -- What a build leaves, given the key of the cache that was there.
  abbrev pub Built : MuxSettings → Output → Muxed → Type 0
  Built s out m =
      HasFiles (want_video s) (want_burn burn_enabled s) (want_srt s) out
      × (text_or_empty out.mux_cache ≡ cache_key burn_enabled s)
      × (m ≡ muxed burn_enabled s)

  pub build-Built :
      (s : MuxSettings) (segments : List DubbingSegment) (out : Output)
      → is_empty (expected burn_enabled s) ≡ false
      → HasFiles false false false out
      → Holds (Built s) (build_all burn_enabled dir run s out segments)
  build-Built s segments out some_file h =
      and_then-Holds (HasFiles (want_video s) false false) (Built s)
        (build_video burn_enabled dir run s segments out) _ (build_video-HasFiles s segments out h)
        λ o h1.
          and_then-Holds (HasFiles (want_video s) false (want_srt s)) (Built s)
            (build_srt burn_enabled dir run s segments o) _
            (build_srt-HasFiles s segments (want_video s) o h1)
            λ o' h2.
              and_then-Holds (HasFiles (want_video s) (want_burn burn_enabled s) (want_srt s))
                (Built s) (build_burn burn_enabled dir run s segments o') _
                (build_burn-HasFiles s segments (want_video s) (want_srt s) o' h2)
                λ o'' h3. rw some_file (h3, refl, refl)
