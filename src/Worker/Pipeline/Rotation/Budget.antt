-- ===== src/Worker/Pipeline/Rotation/Budget.antt =====
-- What each turn of the loop of pipeline.py uses up: providers still allowed, and the pin.
use open_video_trans.Common.{
  ℕ, ◌+◌, ◌≤◌, ◌<◌, String, ◌≡◌, refl, subst, ◌⊎◌, inl, inr, Bool, true, false, none, some, List,
  [], ◌∷◌, eq_iff, arith, if◌then◌else◌, contains, length, Bool-cases, Option-cases,
}
use open_video_trans.Worker.Pipeline.Stages.{StageKind, tts, same_kind}
use open_video_trans.Worker.Pipeline.Routing.{Rotation, minus, affected}
use open_video_trans.Worker.Pipeline.Routing.Picks.{same_kind_iff}
use open_video_trans.Worker.Pipeline.Routing.Reroute.{ExcludesMore, active}
use open_video_trans.Worker.Pipeline.Rotation.{sum_available}

minus_le :
    (names old new : List String)
    → ((x : String) → contains x old ≡ true → contains x new ≡ true)
    → length (minus names new) ≤ length (minus names old)
minus_le [] old new more = omega arith
minus_le (n ∷ names) old new more = ground (arith, minus_le names old new more, more n)

minus_lt :
    (p : String) (names old new : List String)
    → ((x : String) → contains x old ≡ true → contains x new ≡ true)
    → contains p names ≡ true
    → contains p old ≡ false
    → contains p new ≡ true
    → length (minus names new) < length (minus names old)
minus_lt p [] old new more there fresh gone = cc
minus_lt p (n ∷ names) old new more there fresh gone =
    ground (arith, minus_le names old new more, minus_lt p names old new more, more n, eq_iff p n)

length-minus : (names gone : List String) → length (minus names gone) ≤ length names
length-minus [] gone = omega arith
length-minus (n ∷ names) gone = ground (arith, length-minus names gone)

pub from_kind-active :
    (available : StageKind → List String) (wide : Bool) (k : StageKind) (kinds ks : List StageKind)
    → affected available wide k kinds ≡ some ks
    → active available k ks ≡ true
from_kind-active available false k kinds ks e = ground (arith, (same_kind_iff k k).1 refl)
from_kind-active available true k [] ks e = cc
from_kind-active available true k (j ∷ kinds) ks e = elim (Bool-cases (same_kind j k)) [
  | inl same ↦ ground (arith, same_kind_iff j k, same_kind_iff k j)
  | inr apart ↦ from_kind-active available true k kinds ks (ground arith)
]

module _ (available : StageKind → List String) where
  -- The providers that a list of stages may still be routed to.
  unfoldable pub left : Rotation → List StageKind → ℕ
  left st [] = 0
  left st (k ∷ ks) = length (minus (available k) (st.excluded k)) + left st ks

  pub left_le :
      (a b : Rotation) (ks : List StageKind) → ExcludesMore available a b → left b ks ≤ left a ks
  unfolding left
  left_le a b [] more = omega arith
  left_le a b (k ∷ ks) more =
      omega
        (arith, left_le a b ks more, minus_le (available k) (a.excluded k) (b.excluded k) (more k))

  pub left_lt :
      (a b : Rotation) (ks : List StageKind) (j : StageKind) (p : String)
      → ExcludesMore available a b
      → active available j ks ≡ true
      → contains p (available j) ≡ true
      → contains p (a.excluded j) ≡ false
      → contains p (b.excluded j) ≡ true
      → left b ks < left a ks
  unfolding left
  left_lt a b [] j p more on there fresh gone = cc
  left_lt a b (k ∷ ks) j p more on there fresh gone = elim (Bool-cases (same_kind j k)) [
    | inl same ↦
        let e : j ≡ k = (same_kind_iff j k).0 same in
        let here =
          minus_lt p (available j) (a.excluded j) (b.excluded j) (more j) there fresh gone in
        omega (
          arith,
          left_le a b ks more,
          subst
              (λ i.
                length (minus (available i) (b.excluded i))
                < length (minus (available i) (a.excluded i)))
              e here,
        )
    | inr apart ↦ omega (
      arith,
      minus_le (available k) (a.excluded k) (b.excluded k) (more k),
      left_lt a b ks j p more (ground arith) there fresh gone,
    )
  ]

  pub left_start : (st : Rotation) (ks : List StageKind) → left st ks ≤ sum_available available ks
  unfolding left
  left_start st [] = omega arith
  left_start st (k ∷ ks) =
      omega (arith, left_start st ks, length-minus (available k) (st.excluded k))

  -- Whether the pinned provider is still allowed.
  unfoldable pub live : Rotation → ℕ
  live st = elim st.tts_pin [
    | none ↦ 0
    | some pin ↦ if contains pin (st.excluded tts) then 0 else 1
  ]

  pub live_le :
      (a b : Rotation)
      → ExcludesMore available a b
      → (b.tts_pin ≡ a.tts_pin) ⊎ (b.tts_pin ≡ none)
      → live b ≤ live a
  unfolding live
  live_le a b more pin = elim (Option-cases b.tts_pin) [
    | inl dropped ↦ rw dropped (omega arith)
    | inr (p, pinned) ↦
        let before : a.tts_pin ≡ some p = ground arith in
        rw (pinned, before) (ground (arith, more tts p))
  ]

  pub live_lt :
      (a b : Rotation) (p : String)
      → (b.tts_pin ≡ a.tts_pin) ⊎ (b.tts_pin ≡ none)
      → a.tts_pin ≡ some p
      → contains p (a.excluded tts) ≡ false
      → contains p (b.excluded tts) ≡ true
      → live b < live a
  unfolding live
  live_lt a b p pin before fresh gone = elim (Option-cases b.tts_pin) [
    | inl dropped ↦ rw (dropped, before) (rw fresh (omega arith))
    | inr (q, pinned) ↦
        let same : q ≡ p = ground arith in
        rw (pinned, before, same) (rw (fresh, gone) (omega arith))
  ]
