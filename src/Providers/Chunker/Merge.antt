-- ===== src/Providers/Chunker/Merge.antt =====
-- The merged transcript of asr_chunker.py has one global timeline.
use open_video_trans.Common.{
  ℕ, ◌+◌, ◌≤◌, ◌≡◌, refl, ap, subst, ◌∙◌, List, [], ◌∷◌, ◌++◌, map, Result, ok, >>=-eq-ok, ok_inj,
  arith, length,
}
use open_video_trans.Schemas.{Word, TranscriptLine}
use open_video_trans.Providers.Chunker.{
  Codec, AudioConstraints, AudioFile, Chunk, ChunkError, plan_requests, shift_word, merge_words,
  shift_lines, merge_lines_from, merge_lines, run_all, chunked_words,
}
use open_video_trans.Providers.Chunker.Tiles.{Tiles, plan_requests-IsPlan}

-- The words start in the order of time, from one time to another.
abbrev pub Ordered : ℕ → ℕ → List Word → Type 0
Ordered from to [] = from ≤ to
Ordered from to (w ∷ words) = (from ≤ w.start_ms) × Ordered w.start_ms to words

Ordered-from :
    (early late to : ℕ) (words : List Word)
    → early ≤ late
    → Ordered late to words
    → Ordered early to words
Ordered-from early late to [] h o = omega (arith, h, o)
Ordered-from early late to (w ∷ words) h o = (omega (arith, h, o.0), o.1)

Ordered-append :
    (from mid to : ℕ) (before after : List Word)
    → Ordered from mid before
    → Ordered mid to after
    → Ordered from to (before ++ after)
Ordered-append from mid to [] after h o = Ordered-from from mid to after h o
Ordered-append from mid to (w ∷ before) after h o =
    (h.0, Ordered-append w.start_ms mid to before after h.1 o)

Ordered-shift :
    (offset from to : ℕ) (words : List Word)
    → Ordered from to words
    → Ordered (from + offset) (to + offset) (map (shift_word offset) words)
Ordered-shift offset from to [] h = omega (arith, h)
Ordered-shift offset from to (w ∷ words) h =
    (omega (arith, h.0), Ordered-shift offset w.start_ms to words h.1)

module _ (run_one : AudioFile → ℕ → Result ChunkError (List Word)) where
  -- The backend answers each chunk with words that start in order within its duration.
  abbrev pub IsChunkRelative : Type 0
  IsChunkRelative =
      (file : AudioFile) (duration : ℕ) (words : List Word)
      → run_one file duration ≡ ok words
      → Ordered 0 duration words

  run_all-Ordered :
      (plan : List Chunk) (parts : List (List Word × ℕ)) (from to : ℕ)
      → IsChunkRelative
      → Tiles from to plan
      → run_all run_one plan ≡ ok parts
      → Ordered from to (merge_words parts)
  unfolding run_all merge_words
  run_all-Ordered [] parts from to honest tiles e =
      let none_left : [] ≡ parts = ok_inj e in
      subst (λ ps. Ordered from to (merge_words ps)) none_left (omega (arith, tiles))
  run_all-Ordered (c ∷ plan) parts from to honest tiles e =
      let (words, heard, rest) = >>=-eq-ok (run_one c.path c.duration_ms) _ e in
      let (tail, later, same) = >>=-eq-ok (run_all run_one plan) _ rest in
      let inside =
        Ordered-shift c.offset_ms 0 c.duration_ms words (honest c.path c.duration_ms words heard) in
      let mine : Ordered from (from + c.duration_ms) (map (shift_word c.offset_ms) words) =
        subst (λ i. Ordered i (from + c.duration_ms) (map (shift_word c.offset_ms) words))
          (omega (arith, tiles.0))
          (subst (λ j. Ordered (0 + c.offset_ms) j (map (shift_word c.offset_ms) words))
            (omega (arith, tiles.0)) inside) in
      subst (λ ps. Ordered from to (merge_words ps)) (ok_inj same)
        (Ordered-append from (from + c.duration_ms) to _ (merge_words tail) mine
          (run_all-Ordered plan tail (from + c.duration_ms) to honest tiles.1 later))

  -- If the backend answers each chunk with words in order within the chunk, then the merged words
  -- of the whole source start in order, from 0 to its duration.
  pub chunked_words-Ordered :
      (encode : Codec → ℕ → ℕ → Result (Unit {0}) ℕ) (total : ℕ) (c : AudioConstraints)
      (words : List Word)
      → IsChunkRelative
      → chunked_words run_one encode total c ≡ ok words
      → Ordered 0 total words
  unfolding chunked_words
  chunked_words-Ordered encode total c words honest e =
      let (plan, made, rest) = >>=-eq-ok (plan_requests encode total c) _ e in
      let (parts, heard, same) = >>=-eq-ok (run_all run_one plan) _ rest in
      subst (Ordered 0 total) (ok_inj same) (
        run_all-Ordered plan parts 0 total honest
          (plan_requests-IsPlan encode total c plan made).tiles heard)

-- The indexes count up from a number.
abbrev pub Indexed : ℕ → List TranscriptLine → Type 0
Indexed at [] = Unit {0}
Indexed at (ln ∷ lines) = (ln.index ≡ at) × Indexed (at + 1) lines

abbrev pub texts : List TranscriptLine → List (List ℕ)
texts lines = map (λ (ln : TranscriptLine). ln.source_text) lines

abbrev pub all_texts : List (List TranscriptLine × ℕ) → List (List ℕ)
all_texts [] = []
all_texts ((lines, offset) ∷ parts) = texts lines ++ all_texts parts

shift_lines-Indexed :
    (at offset : ℕ) (lines rest : List TranscriptLine)
    → Indexed (at + length lines) rest
    → Indexed at (shift_lines at offset lines ++ rest)
shift_lines-Indexed at offset [] rest h = subst (λ n. Indexed n rest) (omega arith) h
shift_lines-Indexed at offset (ln ∷ lines) rest h = (
  refl,
  shift_lines-Indexed (at + 1) offset lines rest (subst (λ n. Indexed n rest) (omega arith) h),
)

shift_lines-texts :
    (at offset : ℕ) (lines rest : List TranscriptLine)
    → texts (shift_lines at offset lines ++ rest) ≡ texts lines ++ texts rest
shift_lines-texts at offset [] rest = refl
shift_lines-texts at offset (ln ∷ lines) rest =
    ap (λ ts. ln.source_text ∷ ts) (shift_lines-texts (at + 1) offset lines rest)

merge_lines_from_lem :
    (at : ℕ) (parts : List (List TranscriptLine × ℕ))
    → Indexed at (merge_lines_from at parts) × (texts (merge_lines_from at parts) ≡ all_texts parts)
unfolding merge_lines_from
merge_lines_from_lem at [] = (tt, refl)
merge_lines_from_lem at ((lines, offset) ∷ parts) =
    let (indexed, same) = merge_lines_from_lem (at + length lines) parts in
    (
      shift_lines-Indexed at offset lines _ indexed,
      shift_lines-texts at offset lines _ ∙ ap (λ ts. texts lines ++ ts) same,
    )

-- `merge_lines` numbers the lines 0, 1, 2, … and loses or reorders no recognised text.
pub merge_lines_lem :
    (parts : List (List TranscriptLine × ℕ))
    → Indexed 0 (merge_lines parts) × (texts (merge_lines parts) ≡ all_texts parts)
unfolding merge_lines
merge_lines_lem parts = merge_lines_from_lem 0 parts
