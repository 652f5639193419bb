-- ===== src/Worker/Pipeline/Rotation/Termination.antt =====
-- The attempts of pipeline.py suffice: the backstop behind the loop is not reached.
use open_video_trans.Common.{
  ℕ, zero, suc, ◌+◌, ◌≤◌, ◌<◌, String, ◌≡◌, ◌≢◌, refl, sym, ap, ◌∙◌, ◌⊎◌, inl, inr, Bool, true,
  false, Option, none, some, List, [], ◌==◌, Result, err, arith, contains, Bool-cases, Option-cases,
  Result-cases,
}
use open_video_trans.Providers.Circuit.{ProviderAvailability}
use open_video_trans.Worker.Pipeline.Stages.{StageKind, tts, kind_of, sentinel}
use open_video_trans.Worker.Pipeline.Routing.{Rotation, affected, reroute_all}
use open_video_trans.Worker.Pipeline.Routing.Reroute.{IsSoundAt, ExcludesMore, active}
use open_video_trans.Worker.Pipeline.Rotation.{
  Outcome, finished, sentinel_reached, quota_exhausted, unavailable, broken, Failure, max_reroutes,
  Verdict, ended, again, refreshed, exclude_and_reroute, on_quota, on_unavailable, handle, attempt,
  rotate, route_initial, sum_available, reroute_budget, run_attempts,
}
use open_video_trans.Worker.Pipeline.Rotation.Turns.{
  Blame, stages, settled, next_attempt, blamed, Turn, attempt-Turn,
}
use open_video_trans.Worker.Pipeline.Rotation.Safety.{reconcile-IsSoundAt, reconcile_fields, begun}
use open_video_trans.Worker.Pipeline.Rotation.Start.{route_initial_sound}
use open_video_trans.Worker.Pipeline.Rotation.Budget.{
  left, left_le, left_lt, left_start, live, live_le, live_lt, from_kind-active,
}

Verdict-cases :
    (v : Verdict)
    → ((result : Result Failure (Unit {0})) × (st : Rotation) × (v ≡ ended result st))
      ⊎ ((st : Rotation) × (v ≡ again st))
Verdict-cases (ended result st) = inl (result, st, refl)
Verdict-cases (again st) = inr (st, refl)

module _ (later_kinds : List StageKind) (available : StageKind → List String)
    (run : ℕ → Rotation → Outcome) (refresh : ℕ → Option ProviderAvailability) (clock : ℕ → ℕ) where
  abbrev pub job_stages : List StageKind
  job_stages = stages later_kinds available run refresh clock

  abbrev view : Rotation → Rotation
  view st = settled later_kinds available run refresh clock st

  -- The kernel blames only a provider that the plan gives to a stage of the job, and not the
  -- sentinel, for which the resolver raises before any provider is called.
  abbrev pub IsFaithful : Type 0
  IsFaithful =
      (n : ℕ) (st : Rotation) (b : Blame)
      → blamed later_kinds available run refresh clock (run n st) st ≡ some b
      → (active available b.kind job_stages ≡ true)
        × (st.plan b.kind ≡ some b.provider)
        × (b.provider ≢ sentinel)

  abbrev AllSound : Rotation → Type 0
  AllSound st = (k : StageKind) → active available k job_stages ≡ true → IsSoundAt available k st

  abbrev measure : Rotation → ℕ
  measure st = left available st job_stages + live available st

  measure-settled : (st : Rotation) → measure (view st) ≤ measure st
  measure-settled st =
      let fields = reconcile_fields later_kinds available run refresh clock st in
      let more : ExcludesMore available st (view st) =
        λ j x old. rw (ap (λ (f : StageKind → List String). f j) fields.0) old in
      omega (
        arith,
        left_le available st (view st) job_stages more,
        live_le available st (view st) more fields.2,
      )

  live_one : (st : Rotation) → live available st ≤ 1
  unfolding live
  live_one st = elim (Option-cases st.tts_pin) [
    | inl unpinned ↦ rw unpinned (omega arith)
    | inr (pin, pinned) ↦ rw pinned (ground arith)
  ]

  Turn-measure :
      (n : ℕ) (a b : Rotation)
      → IsFaithful
      → AllSound a
      → Turn later_kinds available run refresh clock n a b
      → measure b < measure a
  Turn-measure n a b faithful sound turn =
      let s = view a in
      let (on, planned, real) = faithful n s turn.blame turn.cause in
      let k = turn.blame.kind in
      let p = turn.blame.provider in
      let more = turn.rerouted.more in
      let pin : (b.tts_pin ≡ s.tts_pin) ⊎ (b.tts_pin ≡ none) = inl turn.rerouted.same_pin in
      let gone =
        turn.rerouted.out k
          (from_kind-active available turn.blame.wide k job_stages turn.ks turn.reach) in
      let (q, planned_q, good) =
        reconcile-IsSoundAt later_kinds available run refresh clock k a (sound k on) in
      let same : q ≡ p = ground arith in
      elim good [
        | inl out ↦ absurd (real (sym same ∙ out))
        | inr (clean, inl own) ↦ omega (
          arith,
          measure-settled a,
          live_le available s b more pin,
          left_lt available s b job_stages k p more on (rw (← same) own.1) (rw (← same) clean) gone,
        )
        | inr (clean, inr (here, held)) ↦
            let fresh : contains p (s.excluded tts) ≡ false = rw (← here, ← same) clean in
            let out : contains p (b.excluded tts) ≡ true = rw (← here) gone in
            omega (
              arith,
              measure-settled a,
              left_le available s b job_stages more,
              live_lt available s b p pin (rw (← same) held) fresh out,
            )
      ]

  reroute-ended :
      (wide : Bool) (k : StageKind) (p : String) (st st' : Rotation)
      → exclude_and_reroute later_kinds available run refresh clock wide k p st
        ≢ ended (err max_reroutes) st'
  unfolding exclude_and_reroute
  reroute-ended wide k p st st' e = elim (Option-cases (affected available wide k job_stages)) [
    | inl lost ↦ ground arith
    | inr (ks, found) ↦ elim (Result-cases (reroute_all available p ks st)) [
      | inr (stuck, raised) ↦ ground arith
      | inl (mid, went) ↦ ground arith
    ]
  ]

  handle-ended :
      (n : ℕ) (o : Outcome) (st st' : Rotation)
      → handle later_kinds available run refresh clock n o st ≢ ended (err max_reroutes) st'
  unfolding on_quota on_unavailable
  handle-ended n finished st st' e = cc
  handle-ended n sentinel_reached st st' e = cc
  handle-ended n broken st st' e = cc
  handle-ended n (quota_exhausted provider kind retry) st st' e = reroute-ended true _ _ _ st' e
  handle-ended n (unavailable none) st st' e = cc
  handle-ended n (unavailable (some (name, none))) st st' e = cc
  handle-ended n (unavailable (some (name, some provider))) st st' e =
      elim (Option-cases (kind_of name)) [
        | inl unknown ↦ ground arith
        | inr (k, known) ↦ elim (Bool-cases (provider == "")) [
          | inl empty ↦ ground arith
          | inr named ↦
              reroute-ended false k provider
                (refreshed later_kinds available run refresh clock n st) st' (ground arith)
        ]
      ]

  abbrev step : ℕ → Rotation → Verdict
  step n st = next_attempt later_kinds available run refresh clock n st

  attempt-ended : (n : ℕ) (st st' : Rotation) → step n st ≢ ended (err max_reroutes) st'
  unfolding attempt
  attempt-ended n st st' e = handle-ended n (run n (view st)) (view st) st' e

  rotate_enough :
      (n : ℕ) (st : Rotation)
      → IsFaithful
      → AllSound st
      → measure st < n
      → (rotate later_kinds available run refresh clock n st).0 ≢ err max_reroutes
  unfolding rotate
  rotate_enough zero st faithful sound enough e = absurd (omega (arith, enough))
  rotate_enough (suc n) st faithful sound enough e = elim (Verdict-cases (step n st)) [
    | inl (result, st', stopped) ↦
        let same : result ≡ err max_reroutes = rw (stopped, rotate) at e in
        attempt-ended n st st' (stopped ∙ ap (λ r. ended r st') same)
    | inr (st', goes_on) ↦
        let turn = attempt-Turn later_kinds available run refresh clock n st st' goes_on in
        let sound' : AllSound st' = λ k on.
          turn.rerouted.sound k
            (reconcile-IsSoundAt later_kinds available run refresh clock k st (sound k on)) in
        rotate_enough n st' faithful sound'
          (omega (arith, enough, Turn-measure n st st' faithful sound turn))
          (rw (goes_on, rotate) at e)
  ]

  -- The default budget of re-routes is enough. Nothing is excluded at the start, and the kernel
  -- blames only providers that the plan gives to a stage of the job. Then however often it fails,
  -- the call ends before the attempts run out: the backstop behind the loop is not reached.
  pub run_attempts_enough :
      (start : Rotation)
      → ((j : StageKind) → start.excluded j ≡ [])
      → IsFaithful
      → (run_attempts later_kinds available run refresh clock start).0 ≢ err max_reroutes
  unfolding run_attempts reroute_budget
  run_attempts_enough start clean faithful e =
      elim (Result-cases (route_initial later_kinds available run refresh clock job_stages start)) [
        | inr (st, stuck) ↦ absurd (ground (arith, rw (stuck, run_attempts) at e))
        | inl (st, routed) ↦
            let now = begun later_kinds available run refresh clock st in
            let (sound, _, _) =
              route_initial_sound later_kinds available run refresh clock job_stages start st clean
                routed in
            rotate_enough (suc (sum_available available job_stages + 1)) now faithful
              (λ k on. sound k (inr on))
              (omega (arith, left_start available now job_stages, live_one now))
              (rw (routed, run_attempts) at e)
      ]
