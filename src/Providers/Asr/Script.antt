-- ===== src/Providers/Asr/Script.antt =====
-- What the script filter of asr.py leaves of a transcript.
use open_video_trans.Common.{
  ℕ, ◌+◌, ◌*◌, ◌≤◌, ◌≡◌, refl, ap, ◌∙◌, Bool, not, ◌||◌, Option, List, [], ◌∷◌, arith, length,
  keep_if, Bool-cases, inl, inr, leb,
}
use open_video_trans.Common.Chars.{Text, text_in}
use open_video_trans.Schemas.{TranscriptLine}
use open_video_trans.Providers.Languages.{CaseMethods, split_dash, first_part}
use open_video_trans.Providers.Asr.{
  mostly_cjk, or_empty, cjk_source_langs, renumber, is_cjk_line, drop_script_hallucinations,
}
use open_video_trans.Providers.Chunker.Merge.{Indexed, texts}

abbrev is_other_line : TranscriptLine → Bool
is_other_line ln = not (is_cjk_line ln)

-- The texts that are not mostly Chinese, Japanese or Korean.
abbrev pub other_texts : List TranscriptLine → List Text
other_texts lines = keep_if (λ t. not (mostly_cjk t)) (texts lines)

length-keep_if_both :
    (lines : List TranscriptLine)
    → length (keep_if is_cjk_line lines) + length (keep_if is_other_line lines) ≡ length lines
length-keep_if_both [] = omega arith
length-keep_if_both (ln ∷ lines) = ground (arith, length-keep_if_both lines)

renumber-Indexed : (i : ℕ) (lines : List TranscriptLine) → Indexed i (renumber i lines)
renumber-Indexed i [] = tt
renumber-Indexed i (ln ∷ lines) = (refl, renumber-Indexed (i + 1) lines)

texts-renumber : (i : ℕ) (lines : List TranscriptLine) → texts (renumber i lines) ≡ texts lines
texts-renumber i [] = refl
texts-renumber i (ln ∷ lines) = ap (λ ts. ln.source_text ∷ ts) (texts-renumber (i + 1) lines)

length-renumber : (i : ℕ) (lines : List TranscriptLine) → length (renumber i lines) ≡ length lines
length-renumber i [] = refl
length-renumber i (ln ∷ lines) = omega (arith, length-renumber (i + 1) lines)

other_texts-kept :
    (lines : List TranscriptLine) → other_texts (keep_if is_other_line lines) ≡ other_texts lines
other_texts-kept [] = refl
other_texts-kept (ln ∷ lines) = elim (Bool-cases (mostly_cjk ln.source_text)) [
  | inl cjk ↦ rw (cjk, other_texts-kept lines) refl
  | inr other ↦ rw (other, other, other_texts-kept lines) refl
]

-- At least half of the lines stay, numbered from 0, and every text in another script stays.
abbrev pub IsKept : List TranscriptLine → List TranscriptLine → Type 0
IsKept lines left =
    Indexed 0 left × (length lines ≤ 2 * length left) × (other_texts left ≡ other_texts lines)

-- The script filter, given lines numbered from 0, leaves lines numbered from 0, at least half of
-- them, and loses or reorders no text that is not mostly Chinese, Japanese or Korean.
pub drop_script_hallucinations_lem :
    (case : CaseMethods) (lines : List TranscriptLine) (source_language : Option Text)
    → Indexed 0 lines
    → IsKept lines (drop_script_hallucinations case lines source_language)
unfolding drop_script_hallucinations
drop_script_hallucinations_lem case lines source_language indexed =
    let same : IsKept lines lines = (indexed, omega arith, refl) in
    let few = length (keep_if is_cjk_line lines) in
    elim (Bool-cases (
      text_in (case.lower (first_part (split_dash (or_empty source_language)))) cjk_source_langs)) [
        | inl declared ↦ rw declared same
        | inr undeclared ↦ elim (Bool-cases (leb few 0 || leb (length lines) (few * 2))) [
          | inl keep ↦ rw (undeclared, keep) same
          | inr minority ↦
              rw (undeclared, minority)
                (
                  renumber-Indexed 0 (keep_if is_other_line lines),
                  ground (
                    arith,
                    length-keep_if_both lines,
                    length-renumber 0 (keep_if is_other_line lines),
                  ),
                  ap (keep_if (λ t. not (mostly_cjk t)))
                        (texts-renumber 0 (keep_if is_other_line lines))
                      ∙ other_texts-kept lines,
                )
        ]
      ]
