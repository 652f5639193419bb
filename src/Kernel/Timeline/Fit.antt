-- ===== src/Kernel/Timeline/Fit.antt =====
-- Whether a clip fits its slot after `assign_timing`.
use native.Mathlib.Nat.{mul_comm}
use open_video_trans.Common.{
  ℕ, suc, ◌*◌, ◌≤◌, ◌<◌, ◌≡◌, refl, sym, ap, subst, ◌∙◌, min, max, true, false, Option, none, some,
  List, [], ◌∷◌, arith, ◌⊎◌, inl, inr, Bool-cases, ltb, leb, if◌then◌else◌,
}
use open_video_trans.Kernel.Timeline.{
  Factor, chain_from, or_one, atempo_chain_for, max_speedup, TimingPlan, assign_timing,
}

-- The speed of a chain: the product of its factors.
abbrev pub speed : List Factor → Factor
speed [] = (1, 1)
speed ((a, b) ∷ factors) = (a * (speed factors).0, b * (speed factors).1)

abbrev pub plan_speed : Option (List Factor) → Factor
plan_speed none = (1, 1)
plan_speed (some factors) = speed factors

-- A clip of some length, played at a speed, fits a slot, up to a millionth.
abbrev pub Fits : ℕ → ℕ → Factor → Type 0
Fits actual target s = 1_000_000 * (actual * s.1) ≤ 1_000_001 * (target * s.0)

-- The plan for a clip: its speed is 2 at most; without a review the clip fits, and a review is
-- asked for only where the clip is longer than twice the slot, and then it is played at double
-- speed.
abbrev pub IsPlanFor : ℕ → ℕ → TimingPlan → Type 0
IsPlanFor actual target plan =
    let s = plan_speed plan.atempo_chain in
    (s.0 ≤ 2 * s.1)
    × (((plan.needs_review ≡ false) × Fits actual target s)
        ⊎ ((plan.needs_review ≡ true) × (2 * target < actual) × (s.0 ≡ 2 * s.1)))

chain_capped :
    (fuel a b : ℕ)
    → a ≤ 2 * b
    → chain_from (suc fuel) a b ≡ (if ltb (1_000_001 * b) (1_000_000 * a) then (a, b) ∷ [] else [])
unfolding chain_from
chain_capped fuel a b h =
    let low : ltb (2_000_001 * b) (1_000_000 * a) ≡ false = ground (arith, h) in rw low refl

capped_speed :
    (fuel a b : ℕ)
    → a ≤ 2 * b
    → (speed (or_one (chain_from (suc fuel) a b)) ≡ (a * 1, b * 1))
      ⊎ ((speed (or_one (chain_from (suc fuel) a b)) ≡ (1, 1)) × (1_000_000 * a ≤ 1_000_001 * b))
capped_speed fuel a b h = elim (Bool-cases (ltb (1_000_001 * b) (1_000_000 * a))) [
  | inl faster ↦ rw (chain_capped fuel a b h, faster) (inl refl)
  | inr near ↦ rw (chain_capped fuel a b h, near) (inr (refl, ground (arith, near)))
]

abbrev PlaysFit : ℕ → ℕ → Factor → Type 0
PlaysFit actual target s = (s.0 ≤ 2 * s.1) × Fits actual target s

exact_fit : (actual target : ℕ) → Fits actual target (actual * 1, target * 1)
exact_fit actual target =
    let same : actual * (target * 1) ≡ target * (actual * 1) =
      ap (λ n. actual * n) (omega arith)
      ∙ mul_comm actual target
      ∙ ap (λ n. target * n) (omega arith) in
    omega (arith, same)

fast_chain :
    (actual target : ℕ)
    → target < actual
    → actual ≤ 2 * target
    → PlaysFit actual target (speed (atempo_chain_for actual target 2))
unfolding atempo_chain_for
fast_chain actual target longer fast =
    let capped : min (max actual target) (2 * target) ≡ actual = omega (arith, longer, fast) in
    subst (λ n. PlaysFit actual target (speed (or_one (chain_from (suc n) n target)))) (sym capped)
      (elim (capped_speed actual actual target fast) [
        | inl exact ↦
            subst (PlaysFit actual target) (sym exact)
              (omega (arith, fast), exact_fit actual target)
        | inr near ↦
            subst (PlaysFit actual target) (sym near.0) (omega arith, omega (arith, near.1))
      ])

forced_chain :
    (actual target : ℕ)
    → 1 ≤ target
    → 2 * target < actual
    → (speed (atempo_chain_for actual target 2)).0
      ≡ 2 * (speed (atempo_chain_for actual target 2)).1
unfolding atempo_chain_for
forced_chain actual target some_target longer =
    let capped : min (max actual target) (2 * target) ≡ 2 * target = omega (arith, longer) in
    subst
      (λ n.
        (speed (or_one (chain_from (suc n) n target))).0
        ≡ 2 * (speed (or_one (chain_from (suc n) n target))).1)
      (sym capped)
      (elim (capped_speed (2 * target) (2 * target) target (omega arith)) [
        | inl exact ↦ rw exact (omega arith)
        | inr near ↦ absurd (omega (arith, near.1, some_target))
      ])

-- A clip is played at double speed at most. Unless a review is asked for, it then fits its slot of
-- 1 ms or more, up to a millionth; a review is asked for only for a clip longer than twice the
-- slot, which is played at double speed.
pub assign_timing_lem :
    (actual slot : ℕ) → IsPlanFor actual (max 1 slot) (assign_timing actual slot)
unfolding assign_timing
assign_timing_lem actual slot = elim (Bool-cases (leb actual (max 1 slot))) [
  | inl short ↦ rw short (omega arith, inl (refl, ground (arith, short)))
  | inr long ↦ elim (Bool-cases (leb actual (max_speedup * max 1 slot))) [
    | inl fast ↦
        let chain = fast_chain actual (max 1 slot) (ground (arith, long)) (ground (arith, fast)) in
        rw (long, fast) (chain.0, inl (refl, chain.1))
    | inr slow ↦
        let far : 2 * max 1 slot < actual = ground (arith, slow) in
        let double = forced_chain actual (max 1 slot) (omega arith) far in
        rw (long, slow) (omega (arith, double), inr (refl, far, double))
  ]
]
