-- ===== src/Kernel/Diarize/Dominant.antt =====
-- The speaker of a line is the one who speaks longest in it.
use open_video_trans.Common.{
  ℕ, ◌+◌, ◌≤◌, ◌<◌, ◌≡◌, refl, sym, subst, ◌∙◌, String, true, false, Option, none, some, List, [],
  ◌∷◌, ◌==◌, ltb, if◌then◌else◌, contains, arith, Bool-cases, inl, inr, eq_iff,
}
use open_video_trans.Kernel.Voices.{sorted_set}
use open_video_trans.Kernel.Voices.Spread.{contains-sorted_set}
use open_video_trans.Kernel.Diarize.{
  SpeakerTurn, overlap, add_overlap, by_speaker, ms_of, largest, first_largest, speaker_keys,
  dominant_speaker,
}

-- How long a speaker speaks between two times, over all turns.
abbrev pub speech : ℕ → ℕ → String → List SpeakerTurn → ℕ
speech start end sid [] = 0
speech start end sid (t ∷ turns) =
    (if sid == t.speaker then overlap start end t else 0) + speech start end sid turns

ms_of-add_overlap :
    (sid s : String) (ms : ℕ) (by : List (String × ℕ))
    → ms_of sid (add_overlap s ms by) ≡ ms_of sid by + (if sid == s then ms else 0)
ms_of-add_overlap sid s ms [] = ground arith
ms_of-add_overlap sid s ms ((k, n) ∷ by) = elim (Bool-cases (s == k)) [
  | inl same ↦
      subst
        (λ u.
          ms_of sid (if u == k then (k, n + ms) ∷ by else (k, n) ∷ add_overlap u ms by)
          ≡ ms_of sid ((k, n) ∷ by) + (if sid == u then ms else 0))
        (sym ((eq_iff s k).0 same)) (ground (arith, (eq_iff k k).1 refl))
  | inr other ↦
      ground (arith, other, eq_iff sid k, eq_iff sid s, eq_iff s k, ms_of-add_overlap sid s ms by)
]

ms_of-by_speaker :
    (start end : ℕ) (sid : String) (by : List (String × ℕ)) (turns : List SpeakerTurn)
    → ms_of sid (by_speaker start end by turns) ≡ ms_of sid by + speech start end sid turns
ms_of-by_speaker start end sid by [] = omega arith
ms_of-by_speaker start end sid by (t ∷ turns) = elim (Bool-cases (ltb 0 (overlap start end t))) [
  | inl some_ms ↦ rw some_ms (
      ms_of-by_speaker start end sid (add_overlap t.speaker (overlap start end t) by) turns
      ∙ omega (arith, ms_of-add_overlap sid t.speaker (overlap start end t) by))
  | inr none_ms ↦ rw none_ms (ms_of-by_speaker start end sid by turns ∙ ground (arith, none_ms))
]

-- A name that the dictionary does not hold has no overlap.
ms_of-keys :
    (sid : String) (by : List (String × ℕ))
    → contains sid (speaker_keys by) ≡ false
    → ms_of sid by ≡ 0
ms_of-keys sid [] h = refl
ms_of-keys sid ((k, n) ∷ by) h = ground (arith, h, ms_of-keys sid by)

largest-ge :
    (by : List (String × ℕ)) (best : String) (speakers : List String)
    → ms_of best by ≤ ms_of (largest by best speakers) by
largest-ge by best [] = omega arith
largest-ge by best (s ∷ speakers) = elim (Bool-cases (ltb (ms_of best by) (ms_of s by))) [
  | inl more ↦ rw more (ground (arith, more, largest-ge by s speakers))
  | inr less ↦ rw less (largest-ge by best speakers)
]

largest-max :
    (by : List (String × ℕ)) (best : String) (speakers : List String) (sid : String)
    → contains sid speakers ≡ true
    → ms_of sid by ≤ ms_of (largest by best speakers) by
largest-max by best [] sid h = cc
largest-max by best (s ∷ speakers) sid h = elim (Bool-cases (sid == s)) [
  | inr other ↦
      largest-max by (if ltb (ms_of best by) (ms_of s by) then s else best) speakers sid
        (ground (arith, h, other))
  | inl same ↦
      subst (λ u. ms_of u by ≤ ms_of (largest by best (s ∷ speakers)) by)
        (sym ((eq_iff sid s).0 same))
        (elim (Bool-cases (ltb (ms_of best by) (ms_of s by))) [
          | inl more ↦ rw more (largest-ge by s speakers)
          | inr less ↦ rw less (ground (arith, less, largest-ge by best speakers))
        ])
]

largest-of :
    (by : List (String × ℕ)) (s : String) (speakers : List String) (sid : String)
    → contains sid (s ∷ speakers) ≡ true
    → ms_of sid by ≤ ms_of (largest by s speakers) by
largest-of by s speakers sid h = elim (Bool-cases (sid == s)) [
  | inr other ↦ largest-max by s speakers sid (ground (arith, h, other))
  | inl same ↦
      subst (λ u. ms_of u by ≤ ms_of (largest by s speakers) by) (sym ((eq_iff sid s).0 same))
        (largest-ge by s speakers)
]

-- The dictionary holds positive times only.
abbrev AllPositive : List (String × ℕ) → Type 0
AllPositive [] = Unit {0}
AllPositive ((k, n) ∷ by) = (0 < n) × AllPositive by

add_overlap-AllPositive :
    (s : String) (ms : ℕ) (by : List (String × ℕ))
    → 0 < ms
    → AllPositive by
    → AllPositive (add_overlap s ms by)
add_overlap-AllPositive s ms [] some_ms h = (some_ms, tt)
add_overlap-AllPositive s ms ((k, n) ∷ by) some_ms h = elim (Bool-cases (s == k)) [
  | inl same ↦ rw same (omega (arith, h.0), h.1)
  | inr other ↦ rw other (h.0, add_overlap-AllPositive s ms by some_ms h.1)
]

by_speaker-AllPositive :
    (start end : ℕ) (by : List (String × ℕ)) (turns : List SpeakerTurn)
    → AllPositive by
    → AllPositive (by_speaker start end by turns)
by_speaker-AllPositive start end by [] h = h
by_speaker-AllPositive start end by (t ∷ turns) h =
    elim (Bool-cases (ltb 0 (overlap start end t))) [
      | inl some_ms ↦ rw some_ms (
          by_speaker-AllPositive start end (add_overlap t.speaker (overlap start end t) by) turns (
            add_overlap-AllPositive t.speaker (overlap start end t) by (ground (arith, some_ms)) h))
      | inr none_ms ↦ rw none_ms (by_speaker-AllPositive start end by turns h)
    ]

ms_of-positive :
    (by : List (String × ℕ)) (sid : String)
    → AllPositive by
    → contains sid (speaker_keys by) ≡ true
    → 0 < ms_of sid by
ms_of-positive [] sid h e = cc
ms_of-positive ((k, n) ∷ by) sid h e = elim (Bool-cases (sid == k)) [
  | inl same ↦ rw same h.0
  | inr other ↦ rw other (ms_of-positive by sid h.1 (ground (arith, e, other)))
]

-- The speaker that is chosen speaks in the line, and nobody speaks longer in it. Nobody is chosen
-- only if nobody speaks.
abbrev pub IsDominant : ℕ → ℕ → List SpeakerTurn → Option String → Type 0
IsDominant start end turns none = (sid : String) → speech start end sid turns ≡ 0
IsDominant start end turns (some s) =
    (0 < speech start end s turns)
    × ((sid : String) → speech start end sid turns ≤ speech start end s turns)

first_largest-IsDominant :
    (start end : ℕ) (turns : List SpeakerTurn) (by : List (String × ℕ)) (speakers : List String)
    → ((sid : String) → ms_of sid by ≡ speech start end sid turns)
    → AllPositive by
    → ((sid : String) → contains sid speakers ≡ contains sid (speaker_keys by))
    → IsDominant start end turns (first_largest by speakers)
first_largest-IsDominant start end turns by [] same positive held =
    λ sid. sym (same sid) ∙ ms_of-keys sid by (sym (held sid))
first_largest-IsDominant start end turns by (s ∷ speakers) same positive held =
    let best = largest by s speakers in
    (
      subst (λ n. 0 < n) (same best)
          (omega (
            arith,
            largest-ge by s speakers,
            ms_of-positive by s positive (sym (held s) ∙ ground (arith, (eq_iff s s).1 refl)),
          )),
      λ sid.
          let value = same sid in
          let top = same best in
          elim (Bool-cases (contains sid (speaker_keys by))) [
            | inr absent ↦ omega (arith, value, ms_of-keys sid by absent)
            | inl held_by ↦
                omega (arith, value, top, largest-of by s speakers sid (held sid ∙ held_by))
          ],
    )

-- A line gets a speaker who speaks in it, longest of all, over all the turns of the diarizer; it
-- keeps its label only if nobody speaks in it.
pub dominant_speaker_lem :
    (start end : ℕ) (turns : List SpeakerTurn)
    → IsDominant start end turns (dominant_speaker start end turns)
unfolding dominant_speaker
dominant_speaker_lem start end turns =
    let by = by_speaker start end [] turns in
    first_largest-IsDominant start end turns by (sorted_set (speaker_keys by))
      (λ sid. omega (arith, ms_of-by_speaker start end sid [] turns))
      (by_speaker-AllPositive start end [] turns tt)
      (λ sid. contains-sorted_set sid (speaker_keys by))
