-- ===== src/Kernel/Voices/Spread.antt =====
-- Every speaker gets one of the voices that are allowed.
use Prim.Native.String.{compare}
use Prim.Native.Nat.{Ordering}
use native.Mathlib.Nat.{mod-lt}
use text.Mathlib.TextEquality.{path_by_compare}
use open_video_trans.Common.{
  ℕ, zero, suc, ◌+◌, ◌%◌, ◌<◌, ◌≡◌, refl, sym, ap, subst, ◌∙◌, String, true, ◌||◌, Option, none,
  some, List, [], ◌∷◌, map, length, ok, ◌==◌, if◌then◌else◌, contains, lookup, arith, Bool-cases,
  inl, inr, ok_inj, eq_iff,
}
use open_video_trans.Kernel.Voices.{
  placed, insert_speaker, sorted_set, voice_at, spread, pin_all, offered_voices, pinned_or_offered,
  assign_voices,
}

contains-placed :
    (sid s t : String) (ts : List String) (order : Ordering) (later : List String)
    → compare s t ≡ order
    → contains sid later ≡ (sid == s || contains sid ts)
    → contains sid (placed order s t ts later) ≡ (sid == s || (sid == t || contains sid ts))
contains-placed sid s t ts Ordering.lt later e h = refl
contains-placed sid s t ts Ordering.eq later e h =
    let same : s ≡ t = path_by_compare s t e in
    subst (λ u. (sid == t || contains sid ts) ≡ (sid == u || (sid == t || contains sid ts)))
      (sym same) (ground arith)
contains-placed sid s t ts Ordering.gt later e h = ground (arith, h)

contains-insert :
    (sid s : String) (ts : List String)
    → contains sid (insert_speaker s ts) ≡ (sid == s || contains sid ts)
contains-insert sid s [] = refl
contains-insert sid s (t ∷ ts) =
    contains-placed sid s t ts (compare s t) (insert_speaker s ts) refl (contains-insert sid s ts)

pub contains-sorted_set :
    (sid : String) (xs : List String) → contains sid (sorted_set xs) ≡ contains sid xs
contains-sorted_set sid [] = refl
contains-sorted_set sid (x ∷ xs) =
    contains-insert sid x (sorted_set xs) ∙ ap (λ b. sid == x || b) (contains-sorted_set sid xs)

contains-voice_at :
    (voices : List String) (i : ℕ) → i < length voices → contains (voice_at voices i) voices ≡ true
contains-voice_at [] i h = absurd (omega (arith, h))
contains-voice_at (v ∷ voices) zero h = ground (arith, (eq_iff v v).1 refl)
contains-voice_at (v ∷ voices) (suc i) h =
    ground (arith, contains-voice_at voices i (omega (arith, h)))

-- A speaker has a voice out of some list.
abbrev pub HasVoice : List String → String → List (String × String) → Type 0
HasVoice allowed sid map =
    (voice : String) × (lookup sid map ≡ some voice) × (contains voice allowed ≡ true)

spread-HasVoice :
    (voices : List String) (i : ℕ) (speakers : List String) (sid : String)
    → 0 < length voices
    → contains sid speakers ≡ true
    → HasVoice voices sid (spread voices i speakers)
unfolding spread
spread-HasVoice voices i [] sid some_voice h = cc
spread-HasVoice voices i (s ∷ speakers) sid some_voice h = elim (Bool-cases (sid == s)) [
  | inl here ↦ rw here (
    voice_at voices (i % length voices),
    refl,
    contains-voice_at voices (i % length voices) (mod-lt i some_voice),
  )
  | inr there ↦
      rw there (spread-HasVoice voices (i + 1) speakers sid some_voice (ground (arith, h, there)))
]

pin_all-HasVoice :
    (pin : String) (speakers : List String) (sid : String)
    → contains sid speakers ≡ true
    → HasVoice (pin ∷ []) sid (pin_all pin speakers)
pin_all-HasVoice pin [] sid h = cc
pin_all-HasVoice pin (s ∷ speakers) sid h = elim (Bool-cases (sid == s)) [
  | inl here ↦ rw here (pin, refl, ground (arith, (eq_iff pin pin).1 refl))
  | inr there ↦ rw there (pin_all-HasVoice pin speakers sid (ground (arith, h, there)))
]

-- The voices that a job may use: its pool, else its pinned voice, else the provider's.
abbrev pub pinned_voices : List String → Option String → List String
pinned_voices offered none = offered
pinned_voices offered (some pin) = if pin == "" then offered else pin ∷ []

abbrev pub allowed_voices : List String → Option String → Option (List String) → List String
allowed_voices offered pin (some (v ∷ pool)) = v ∷ pool
allowed_voices offered pin _ = pinned_voices offered pin

offered_voices-HasVoice :
    (offered speakers : List String) (m : List (String × String)) (sid : String)
    → contains sid speakers ≡ true
    → offered_voices offered speakers ≡ ok m
    → HasVoice offered sid m
offered_voices-HasVoice [] speakers m sid h e = cc
offered_voices-HasVoice (v ∷ voices) speakers m sid h e =
    subst (HasVoice (v ∷ voices) sid) (ok_inj e)
      (spread-HasVoice (v ∷ voices) 0 speakers sid (omega arith) h)

pinned_or_offered-HasVoice :
    (offered speakers : List String) (pin : Option String) (m : List (String × String))
    (sid : String)
    → contains sid speakers ≡ true
    → pinned_or_offered offered speakers pin ≡ ok m
    → HasVoice (pinned_voices offered pin) sid m
pinned_or_offered-HasVoice offered speakers none m sid h e =
    offered_voices-HasVoice offered speakers m sid h e
pinned_or_offered-HasVoice offered speakers (some pin) m sid h e = elim (Bool-cases (pin == "")) [
  | inl unset ↦ rw unset (offered_voices-HasVoice offered speakers m sid h (rw unset at e))
  | inr set ↦
      rw set (
        subst (HasVoice (pin ∷ []) sid) (ok_inj (rw set at e))
          (pin_all-HasVoice pin speakers sid h))
]

-- When voices are assigned, every speaker of the job gets one, out of the job's pool, else the
-- pinned voice, else one of the provider's voices for the language.
pub assign_voices-HasVoice :
    (offered ids : List String) (pin : Option String) (pool : Option (List String))
    (m : List (String × String)) (sid : String)
    → contains sid ids ≡ true
    → assign_voices offered ids pin pool ≡ ok m
    → HasVoice (allowed_voices offered pin pool) sid m
unfolding assign_voices
assign_voices-HasVoice offered ids pin none m sid h e =
    pinned_or_offered-HasVoice offered (sorted_set ids) pin m sid (contains-sorted_set sid ids ∙ h)
      e
assign_voices-HasVoice offered ids pin (some []) m sid h e =
    pinned_or_offered-HasVoice offered (sorted_set ids) pin m sid (contains-sorted_set sid ids ∙ h)
      e
assign_voices-HasVoice offered ids pin (some (v ∷ pool)) m sid h e =
    subst (HasVoice (v ∷ pool) sid) (ok_inj e) (
      spread-HasVoice (v ∷ pool) 0 (sorted_set ids) sid (omega arith)
        (contains-sorted_set sid ids ∙ h))
