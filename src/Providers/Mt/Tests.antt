-- ===== src/Providers/Mt/Tests.antt =====
-- A free and a paid model that answer a batch with one text too few.
use open_video_trans.Common.{
  ℕ, ◌≡◌, refl, String, true, false, Option, some, List, [], ◌∷◌, Result, ok, err,
}
use open_video_trans.Common.Chars.{Text, codes}
use open_video_trans.Providers.Mt.{
  Line, paid_never_retries, budget_chars, one_by_one, translate_batches, llm_translate,
}

program : Unit {0}
unfolding budget_chars one_by_one translate_batches llm_translate
program = tt

abbrev lines : List (Text × ℕ)
lines = (codes "hello", 2000) ∷ (codes "world", 100) ∷ []

abbrev short_chat : List Line → Result String (Option (List Text))
short_chat asked = ok (some (codes "hola" ∷ []))

retried : (llm_translate false short_chat lines).1 ≡ ok (codes "hola" ∷ codes "hola" ∷ [])
unfolding program
retried = refl

refused :
    llm_translate true short_chat lines
    ≡ (((codes "hello", 30) ∷ (codes "world", 8) ∷ []) ∷ [], err paid_never_retries)
unfolding program
refused = refl
