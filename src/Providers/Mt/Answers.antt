-- ===== src/Providers/Mt/Answers.antt =====
-- How many texts and how many requests a translation makes.
use open_video_trans.Common.{
  ℕ, zero, suc, ◌+◌, ◌-◌, ◌≤◌, ◌≡◌, refl, subst, ◌∙◌, String, Bool, true, false, Option, none, some,
  List, [], ◌∷◌, ◌++◌, arith, length, length-append, Result, ok, err, ok_inj, if◌then◌else◌,
  Bool-cases, inl, inr,
}
use open_video_trans.Common.Chars.{Text}
use open_video_trans.Providers.Mt.{
  mt_batch, Line, payload_of, slices_from, slices, paid_never_retries, Outcome, then_also, is_full,
  array_or_empty, one_answer, one_by_one, batch_answer, translate_batches, llm_translate,
}

-- A part that returned has so many texts.
abbrev Counts : ℕ → Outcome → Type 0
Counts n (sent, err e) = Unit {0}
Counts n (sent, ok out) = length out ≡ n

then_also-Counts :
    (m n : ℕ) (part later : Outcome)
    → Counts m part
    → Counts n later
    → Counts (m + n) (then_also part later)
then_also-Counts m n (sent, err e) later h g = tt
then_also-Counts m n (sent, ok out) (also, err e) h g = tt
then_also-Counts m n (sent, ok out) (also, ok rest) h g =
    omega (arith, length-append out rest, h, g)

abbrev total : List (List (Text × ℕ)) → ℕ
total [] = 0
total (batch ∷ batches) = length batch + total batches

slices_from-total :
    (size room : ℕ) (current xs : List (Text × ℕ))
    → total (slices_from size room current xs) ≡ length current + length xs
slices_from-total size room current [] = omega arith
slices_from-total size zero current (x ∷ xs) =
    omega (arith, slices_from-total size (size - 1) (x ∷ []) xs)
slices_from-total size (suc room) current (x ∷ xs) =
    omega
      (arith, slices_from-total size room (current ++ x ∷ []) xs, length-append current (x ∷ []))

module _ (paid : Bool) (chat : List Line → Result String (Option (List Text))) where
  one_answer-Counts :
      (t : Text) (asked : List Line) (answer : Result String (Option (List Text)))
      → Counts 1 (one_answer paid chat t asked answer)
  one_answer-Counts t asked (err e) = tt
  one_answer-Counts t asked (ok a) = refl

  one_by_one-Counts : (lines : List (Text × ℕ)) → Counts (length lines) (one_by_one paid chat lines)
  unfolding one_by_one
  one_by_one-Counts [] = refl
  one_by_one-Counts ((t, b) ∷ lines) =
      let asked = payload_of ((t, b) ∷ []) in
      subst
        (λ n.
          Counts n
            (then_also (one_answer paid chat t asked (chat asked)) (one_by_one paid chat lines)))
        (omega arith)
        (then_also-Counts 1 (length lines) (one_answer paid chat t asked (chat asked))
          (one_by_one paid chat lines) (one_answer-Counts t asked (chat asked))
          (one_by_one-Counts lines))

  full-length :
      (n : ℕ) (arr : Option (List Text)) → is_full n arr ≡ true → length (array_or_empty arr) ≡ n
  full-length n none h = cc
  full-length n (some arr) h = ground (arith, h)

  if-Counts :
      (n : ℕ) (b : Bool) (x y : Outcome)
      → (b ≡ true → Counts n x)
      → Counts n y
      → Counts n (if b then x else y)
  if-Counts n true x y h g = h refl
  if-Counts n false x y h g = g

  batch_answer-Counts :
      (batch : List (Text × ℕ)) (asked : List Line) (answer : Result String (Option (List Text)))
      → Counts (length batch) (batch_answer paid chat batch asked answer)
  batch_answer-Counts batch asked (err e) = tt
  batch_answer-Counts batch asked (ok arr) =
      if-Counts (length batch) (is_full (length batch) arr) (asked ∷ [], ok (array_or_empty arr)) _
        (full-length (length batch) arr)
        (if-Counts (length batch) paid (asked ∷ [], err paid_never_retries) _ (λ e. tt)
          (subst (λ n. Counts n (then_also (asked ∷ [], ok []) (one_by_one paid chat batch)))
            (omega arith)
            (then_also-Counts 0 (length batch) (asked ∷ [], ok []) (one_by_one paid chat batch) refl
              (one_by_one-Counts batch))))

  translate_batches-Counts :
      (batches : List (List (Text × ℕ)))
      → Counts (total batches) (translate_batches paid chat batches)
  unfolding translate_batches
  translate_batches-Counts [] = refl
  translate_batches-Counts (batch ∷ batches) =
      then_also-Counts (length batch) (total batches) _ (translate_batches paid chat batches)
        (batch_answer-Counts batch (payload_of batch) (chat (payload_of batch)))
        (translate_batches-Counts batches)

  Counts-length :
      (n : ℕ) (part : Outcome) (out : List Text) → Counts n part → part.1 ≡ ok out → length out ≡ n
  Counts-length n (sent, err e) out h raised = cc
  Counts-length n (sent, ok texts) out h e = subst (λ ts. length ts ≡ n) (ok_inj e) h

  slices-total : (lines : List (Text × ℕ)) → total (slices mt_batch lines) ≡ length lines
  slices-total [] = refl
  slices-total (l ∷ lines) = omega (arith, slices_from-total mt_batch (mt_batch - 1) (l ∷ []) lines)

  -- A translation by a language model that returns has one text for each line, whatever shape the
  -- model's answers have.
  pub length-llm_translate :
      (lines : List (Text × ℕ)) (out : List Text)
      → (llm_translate paid chat lines).1 ≡ ok out
      → length out ≡ length lines
  unfolding llm_translate
  length-llm_translate lines out e =
      Counts-length (total (slices mt_batch lines)) (llm_translate paid chat lines) out
        (translate_batches-Counts (slices mt_batch lines)) e
      ∙ slices-total lines

module _ (chat : List Line → Result String (Option (List Text))) where
  paid_batch_single :
      (batch : List (Text × ℕ)) (asked : List Line) (answer : Result String (Option (List Text)))
      → length (batch_answer true chat batch asked answer).0 ≤ 1
  paid_batch_single batch asked (err e) = omega arith
  paid_batch_single batch asked (ok arr) = elim (Bool-cases (is_full (length batch) arr)) [
    | inl full ↦ rw (full, length) (omega arith)
    | inr short ↦ rw (short, length) (omega arith)
  ]

  then_also-sent :
      (part later : Outcome) → length (then_also part later).0 ≤ length part.0 + length later.0
  then_also-sent (sent, err e) later = omega arith
  then_also-sent (sent, ok out) later = omega (arith, length-append sent later.0)

  paid_batches_single :
      (batches : List (List (Text × ℕ)))
      → length (translate_batches true chat batches).0 ≤ length batches
  unfolding translate_batches
  paid_batches_single [] = omega arith
  paid_batches_single (batch ∷ batches) = omega (
    arith,
    then_also-sent (batch_answer true chat batch (payload_of batch) (chat (payload_of batch)))
        (translate_batches true chat batches),
    paid_batch_single batch (payload_of batch) (chat (payload_of batch)),
    paid_batches_single batches,
  )

  -- A paid model gets one request at most for each batch of forty lines: a malformed answer is never
  -- asked for again.
  pub paid_translate_single :
      (lines : List (Text × ℕ))
      → length (llm_translate true chat lines).0 ≤ length (slices mt_batch lines)
  unfolding llm_translate
  paid_translate_single lines = paid_batches_single (slices mt_batch lines)
