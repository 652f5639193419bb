-- ===== src/Kernel/Translate/OneToOne.antt =====
-- The segments of `translate` stand for the lines of the transcript, one for one.
use open_video_trans.Common.{
  ℕ, ◌+◌, ◌≡◌, refl, sym, subst, String, Bool, Option, none, map, ◌⊎◌, List, [], ◌∷◌, arith, length,
  Result, ok, err, ok_inj, Bool-cases, inl, inr, eqb,
}
use open_video_trans.Common.Chars.{Text, eq_text, strip}
use open_video_trans.Schemas.{TranscriptLine, Transcript, DubbingSegment, TranslationResult}
use open_video_trans.Kernel.Artifacts.Durable.{Increasing}
use open_video_trans.Kernel.Translate.{
  line_duration_ms, TranslateError, MtProvider, segments_from, source_or_auto, line_texts,
  checked_segments, translated, fresh_translation, translate,
}

-- A segment keeps the speaker, the window and the text of its line, its text is the translation of
-- that line without the white space around it, and it keeps the original sound exactly when that
-- is empty.
abbrev pub Stands : TranscriptLine → Text → DubbingSegment → Type 0
Stands ln translation s =
    (s.speaker_id ≡ ln.speaker_id)
    × (s.start_ms ≡ ln.start_ms)
    × (s.end_ms ≡ ln.end_ms)
    × (s.target_duration_ms ≡ line_duration_ms ln)
    × (s.source_text ≡ ln.source_text)
    × (s.target_text ≡ strip translation)
    × (s.keep_original ≡ eq_text (strip translation) [])

-- One translation and one segment for each line.
abbrev pub StandFor : List TranscriptLine → List Text → List DubbingSegment → Type 0
StandFor [] [] [] = Unit {0}
StandFor (ln ∷ lines) (t ∷ translations) (s ∷ segments) =
    Stands ln t s × StandFor lines translations segments
StandFor _ _ _ = ⊥

segments_from-StandFor :
    (i : ℕ) (lines : List TranscriptLine) (translations : List Text)
    → length translations ≡ length (line_texts lines)
    → StandFor lines translations (segments_from i lines translations)
unfolding segments_from
segments_from-StandFor i [] [] full = tt
segments_from-StandFor i [] (t ∷ translations) full = absurd (omega (arith, full))
segments_from-StandFor i (ln ∷ lines) [] full = absurd (omega (arith, full))
segments_from-StandFor i (ln ∷ lines) (t ∷ translations) full = (
  (refl, refl, refl, refl, refl, refl, refl),
  segments_from-StandFor (i + 1) lines translations (omega (arith, full)),
)

segments_from-Increasing :
    (i : ℕ) (lines : List TranscriptLine) (translations : List Text)
    → Increasing i (segments_from i lines translations)
unfolding segments_from
segments_from-Increasing i [] translations = tt
segments_from-Increasing i (ln ∷ lines) [] =
    (omega arith, segments_from-Increasing (i + 1) lines [])
segments_from-Increasing i (ln ∷ lines) (t ∷ translations) =
    (omega arith, segments_from-Increasing (i + 1) lines translations)

module _ (target_lang : Text) (source_lang : Option Text) where
  -- Where the translations are from: the provider's answer to the texts of all lines, in order, or
  -- there are no lines.
  abbrev pub AnsweredBy :
      Transcript → Result String MtProvider → List Text → TranslationResult → Type 0
  AnsweredBy t select translations r =
      ((t.lines ≡ []) × (translations ≡ []))
      ⊎ ((mt : MtProvider) × (select ≡ ok mt)
          × (mt.translate_texts (line_texts t.lines) r.source_language target_lang
                (map line_duration_ms t.lines)
              ≡ ok translations)
          × (r.mt_provider ≡ mt.name))

  abbrev pub OneToOne : Transcript → Result String MtProvider → TranslationResult → Type 0
  OneToOne t select r =
      (translations : List Text) × AnsweredBy t select translations r
      × StandFor t.lines translations r.segments
      × Increasing 0 r.segments

  checked-OneToOne :
      (mt : MtProvider) (t : Transcript) (answer : Result String (List Text))
      (r : TranslationResult)
      → mt.translate_texts
          (line_texts t.lines)
          (source_or_auto source_lang t.source_language)
          target_lang
          (map line_duration_ms t.lines)
        ≡ answer
      → checked_segments target_lang source_lang mt.name t answer ≡ ok r
      → OneToOne t (ok mt) r
  checked-OneToOne mt t (err e) r asked raised = cc
  checked-OneToOne mt t (ok translations) r asked e =
      elim (Bool-cases (eqb (length translations) (length (line_texts t.lines)))) [
        | inr short ↦ let raised : err TranslateError.not_one_to_one ≡ ok r = rw short at e in cc
        | inl full ↦ subst (OneToOne t (ok mt)) (ok_inj (rw full at e)) (
          translations,
          inr (mt, refl, asked, refl),
          segments_from-StandFor 0 t.lines translations (ground (arith, full)),
          segments_from-Increasing 0 t.lines translations,
        )
      ]

  translated-OneToOne :
      (t : Transcript) (select : Result String MtProvider) (r : TranslationResult)
      → translated target_lang source_lang t select ≡ ok r
      → OneToOne t select r
  translated-OneToOne t (err e) r raised = cc
  translated-OneToOne t (ok mt) r e = checked-OneToOne mt t _ r refl e

  fresh-StandFor :
      (t : Transcript) (lines : List TranscriptLine) (select : Result String MtProvider)
      (r : TranslationResult)
      → t.lines ≡ lines
      → fresh_translation target_lang source_lang t lines select ≡ ok r
      → OneToOne t select r
  fresh-StandFor t [] select r none_there e =
      subst (OneToOne t select) (ok_inj e)
        ([], inl (none_there, refl), subst (λ lines. StandFor lines [] []) (sym none_there) tt, tt)
  fresh-StandFor t (ln ∷ lines) select r some_there e = translated-OneToOne t select r e

  -- A translation that was not cached has one segment for each line, in order, with the speaker,
  -- the window and the text of the line, with growing indexes, and with the translation that the
  -- selected provider gave for that line, as one of exactly as many as there are lines; a segment
  -- keeps the original sound exactly when its translation is empty.
  pub translate-OneToOne :
      (force : Bool) (t : Transcript) (select : Result String MtProvider) (r : TranslationResult)
      → translate target_lang source_lang force none t select ≡ ok r
      → OneToOne t select r
  unfolding translate
  translate-OneToOne force t select r e = fresh-StandFor t t.lines select r refl e
