-- ===== src/Kernel/Subtitles/Disclosure.antt =====
-- How a subtitle file opens when it is marked.
use open_video_trans.Common.{
  ℕ, ◌+◌, ◌≤◌, ◌≡◌, refl, subst, Bool, true, false, some, List, [], ◌∷◌, ◌⊎◌, inl, inr, arith,
  Bool-cases, leb, min,
}
use open_video_trans.Common.Chars.{Text, eq_text}
use open_video_trans.Schemas.{DubbingSegment}
use open_video_trans.Kernel.Subtitles.Shown.{Shown, shown_of, contents, contents-segment_cues}
use open_video_trans.Kernel.Subtitles.{
  SrtCue, spoken, first_start, cue_body, segment_cues, srt_cues,
}

-- The numbers count up from a number.
abbrev pub Numbered : ℕ → List SrtCue → Type 0
Numbered n [] = Unit {0}
Numbered n (c ∷ cues) = (c.number ≡ n) × Numbered (n + 1) cues

segment_cues-Numbered :
    (bilingual : Bool) (riding : List Text) (n : ℕ) (segs : List DubbingSegment)
    → Numbered (n + 1) (segment_cues bilingual riding n segs)
unfolding segment_cues
segment_cues-Numbered bilingual riding n [] = tt
segment_cues-Numbered bilingual riding n (s ∷ segs) =
    (refl, segment_cues-Numbered bilingual [] (n + 1) segs)

-- The first window does not open before a time.
abbrev pub OpensAfter : ℕ → Shown → Type 0
OpensAfter ms [] = Unit {0}
OpensAfter ms (window ∷ shown) = ms ≤ window.0

-- The first cue opens with the disclosure. Either the rest of its body and the later cues show what
-- is to be shown, or it is a cue of its own that ends before the first window opens, and the later
-- cues show it.
pub record IsDisclosed (disc : Text) (shown : Shown) (cues : List SrtCue) : Type 0 where
  pub first : SrtCue
  pub later : List SrtCue
  pub others : List Text
  pub split : cues ≡ first ∷ later
  pub opens : first.body ≡ disc ∷ others
  pub clear :
      ((first.start_ms, first.end_ms, others) ∷ contents later ≡ shown)
      ⊎ ((others ≡ []) × (contents later ≡ shown) × OpensAfter first.end_ms shown)

segment_cues-IsDisclosed :
    (segs : List DubbingSegment) (bilingual : Bool) (disc : Text) (shown : Shown)
    → leb 500 (first_start segs) ≡ false
    → contents (segment_cues bilingual [] 0 segs) ≡ shown
    → IsDisclosed disc shown (segment_cues bilingual (disc ∷ []) 0 segs)
unfolding segment_cues
segment_cues-IsDisclosed [] bilingual disc shown early h = let e : true ≡ false = early in cc
segment_cues-IsDisclosed (s ∷ segs) bilingual disc shown early h = record {
  first = record {
    number = 0 + 1;
    start_ms = s.start_ms;
    end_ms = s.end_ms;
    body = disc ∷ cue_body bilingual s;
  };
  later = segment_cues bilingual [] (0 + 1) segs;
  others = cue_body bilingual s;
  split = refl;
  opens = refl;
  clear = inl h;
}

segment_cues-OpensAfter :
    (segs : List DubbingSegment) (bilingual : Bool)
    → OpensAfter (min 3000 (first_start segs)) (contents (segment_cues bilingual [] 1 segs))
unfolding segment_cues
segment_cues-OpensAfter [] bilingual = tt
segment_cues-OpensAfter (s ∷ segs) bilingual = omega arith

leading-IsDisclosed :
    (segs : List DubbingSegment) (bilingual : Bool) (disc : Text) (shown : Shown)
    → contents (segment_cues bilingual [] 1 segs) ≡ shown
    → IsDisclosed disc shown (
        record { number = 1; start_ms = 0; end_ms = min 3000 (first_start segs); body = disc ∷ [] }
        ∷ segment_cues bilingual [] 1 segs)
leading-IsDisclosed segs bilingual disc shown h = record {
  first = record {
    number = 1;
    start_ms = 0;
    end_ms = min 3000 (first_start segs);
    body = disc ∷ [];
  };
  later = segment_cues bilingual [] 1 segs;
  others = [];
  split = refl;
  opens = refl;
  clear = inr (
    refl,
    h,
    subst (OpensAfter (min 3000 (first_start segs))) h (segment_cues-OpensAfter segs bilingual),
  );
}

-- A subtitle file with a disclosure opens with it, whatever the segments are. Its cues show each
-- segment that has a text, in its window and in order, with its translation, or its source text
-- where that is empty, or both in a bilingual file; the disclosure is the first line of the first of
-- these cues, or a cue of its own that ends before the first of them begins. All cues are numbered
-- 1, 2, 3 and so on.
pub srt_cues-IsDisclosed :
    (segments : List DubbingSegment) (bilingual : Bool) (disc : Text)
    → eq_text disc [] ≡ false
    → IsDisclosed disc (shown_of bilingual segments) (srt_cues segments bilingual (some disc))
      × Numbered 1 (srt_cues segments bilingual (some disc))
unfolding srt_cues
srt_cues-IsDisclosed segments bilingual disc given =
    let segs = spoken segments in
    let shown = shown_of bilingual segments in
    elim (Bool-cases (leb 500 (first_start segs))) [
      | inl gap ↦
          rw (given, gap)
            (
              leading-IsDisclosed segs bilingual disc shown
                  (contents-segment_cues bilingual segments 1),
              (refl, segment_cues-Numbered bilingual [] 1 segs),
            )
      | inr tight ↦
          rw (given, tight)
            (
              segment_cues-IsDisclosed segs bilingual disc shown tight
                  (contents-segment_cues bilingual segments 0),
              segment_cues-Numbered bilingual (disc ∷ []) 0 segs,
            )
    ]
