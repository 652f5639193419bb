-- ===== src/Providers/Mt.antt =====
-- packages/provider-adapters/src/provider_adapters/mt.py: the batches of a translation. What a
-- backend answers to a request is given; a translation answers with the requests it made, in order,
-- and its outcome. A budget comes with each text.
pub mod Answers
mod Tests
use open_video_trans.Common.{
  ℕ, zero, suc, ◌+◌, ◌-◌, ◌*◌, ◌/◌, max, String, Bool, true, false, not, ◌&&◌, ◌||◌, Option, none,
  some, List, [], ◌∷◌, ◌++◌, map, eqb, if◌then◌else◌, length, Result, ok, err, ◌>>=◌,
}
use open_video_trans.Common.Chars.{Text, codes, strip, eq_text}
use open_video_trans.Providers.Languages.{CaseMethods, split_dash, first_part}

-- _BATCH
abbrev pub mt_batch : ℕ
mt_batch = 40

-- `_budget_chars(ms)`
unfoldable pub budget_chars : ℕ → ℕ
budget_chars ms = max 8 (15 * ms / 1000)

-- A text with its budget of characters: an entry of `_payload`.
abbrev pub Line : Type 0
Line = Text × ℕ

abbrev pub payload_of : List (Text × ℕ) → List Line
payload_of lines = map (λ (l : Text × ℕ). (l.0, budget_chars l.1)) lines

-- `xs[i:i + n] for i in range(0, len(xs), n)`: the batch that is being filled has so much room.
abbrev pub slices_from {ℓ} : {A : Type ℓ} → ℕ → ℕ → List A → List A → List (List A)
slices_from size room current [] = current ∷ []
slices_from size zero current (x ∷ xs) = current ∷ slices_from size (size - 1) (x ∷ []) xs
slices_from size (suc room) current (x ∷ xs) = slices_from size room (current ++ x ∷ []) xs

abbrev pub slices {ℓ} : {A : Type ℓ} → ℕ → List A → List (List A)
slices size [] = []
slices size (x ∷ xs) = slices_from size (size - 1) (x ∷ []) xs

pub data MtError : Type 0 where
  chat_failed : String → MtError
  paid_never_retries : MtError
  needs_source_language : MtError

abbrev pub Outcome : Type 0
Outcome = List (List Line) × Result MtError (List Text)

-- The requests and the texts of a part, before those of what follows it.
abbrev pub then_also : Outcome → Outcome → Outcome
then_also (sent, err e) later = (sent, err e)
then_also (sent, ok out) later = (sent ++ later.0, do rest ← later.1; ok (out ++ rest))

-- `str(a[0]) if a else t`
abbrev pub first_or : Text → Option (List Text) → Text
first_or t none = t
first_or t (some []) = t
first_or t (some (a ∷ others)) = a

-- The array that `_extract_json_array` finds has one entry for each text.
abbrev pub is_full : ℕ → Option (List Text) → Bool
is_full n none = false
is_full n (some arr) = eqb (length arr) n

abbrev pub array_or_empty : Option (List Text) → List Text
array_or_empty none = []
array_or_empty (some arr) = arr

module _ (paid : Bool) (chat : List Line → Result String (Option (List Text))) where
  abbrev pub one_answer : Text → List Line → Result String (Option (List Text)) → Outcome
  one_answer t asked (err e) = (asked ∷ [], err (chat_failed e))
  one_answer t asked (ok a) = (asked ∷ [], ok (first_or t a ∷ []))

  -- The fallback of a free provider: one request for each line.
  unfoldable pub one_by_one : List (Text × ℕ) → Outcome
  one_by_one [] = ([], ok [])
  one_by_one ((t, b) ∷ lines) =
      let asked = payload_of ((t, b) ∷ []) in
      then_also (one_answer t asked (chat asked)) (one_by_one lines)

  abbrev pub batch_answer :
      List (Text × ℕ) → List Line → Result String (Option (List Text)) → Outcome
  batch_answer batch asked (err e) = (asked ∷ [], err (chat_failed e))
  batch_answer batch asked (ok arr) =
      if is_full (length batch) arr
      then (asked ∷ [], ok (array_or_empty arr))
      else if paid
      then (asked ∷ [], err paid_never_retries)
      else then_also (asked ∷ [], ok []) (one_by_one batch)

  unfoldable pub translate_batches : List (List (Text × ℕ)) → Outcome
  translate_batches [] = ([], ok [])
  translate_batches (batch ∷ batches) =
      then_also (batch_answer batch (payload_of batch) (chat (payload_of batch)))
        (translate_batches batches)

  -- `_LLMTranslator.translate`
  unfoldable pub llm_translate : List (Text × ℕ) → Outcome
  llm_translate lines = translate_batches (slices mt_batch lines)

abbrev pub stripped : Result String Text → Result MtError Text
stripped (err e) = err (chat_failed e)
stripped (ok answer) = ok (strip answer)

abbrev pub prepend : Result MtError Text → Result MtError (List Text) → Result MtError (List Text)
prepend (err e) later = err e
prepend (ok t) (err e) = err e
prepend (ok t) (ok out) = ok (t ∷ out)

-- The loop of `CloudflareMT.translate`: a blank text is not sent.
unfoldable pub m2m_texts : (Text → Result String Text) → List Text → Result MtError (List Text)
m2m_texts request [] = ok []
m2m_texts request (t ∷ texts) =
    let rest = m2m_texts request texts in
    prepend (if eq_text (strip t) [] then ok [] else stripped (request t)) rest

module _ (case : CaseMethods) where
  -- `CloudflareMT.translate`, for what the model answers to a text.
  unfoldable pub cloudflare_translate :
      (Text → Text → Text → Result String Text)
      → List Text
      → Text
      → Text
      → Result MtError (List Text)
  cloudflare_translate request texts source_lang target_lang =
      let src = case.lower (first_part (split_dash source_lang)) in
      let tgt = case.lower (first_part (split_dash target_lang)) in
      if eq_text src [] || eq_text src (codes "auto")
      then err needs_source_language
      else m2m_texts (request src tgt) texts
