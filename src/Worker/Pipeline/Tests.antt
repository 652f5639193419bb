-- ===== src/Worker/Pipeline/Tests.antt =====
-- The attempt loop of pipeline.py on a job whose first provider answers 429.
use open_video_trans.Common.{
  ℕ, String, ◌≡◌, ◌≢◌, refl, sym, ap, ◌∙◌, subst, ◌⊎◌, inl, inr, true, false, Option, none, some,
  List, [], ◌∷◌, ◌==◌, eq_iff, Result, ok, err, arith, if◌then◌else◌, contains, Bool-cases,
  Option-cases, some_inj,
}
use open_video_trans.Providers.Ladder.{is_paid_provider}
use open_video_trans.Providers.Circuit.{ProviderAvailability, is_exhausted, route_free, route_loop}
use open_video_trans.Worker.Pipeline.Stages.{
  StageKind, asr, mt, tts, sentinel, stage_kinds, infer_kind, deliverables, burned_video,
  dubbed_video, subtitles,
}
use open_video_trans.Worker.Pipeline.Routing.{
  Rotation, pick, route_plan, exclude, reroute_stage, reroute_all,
}
use open_video_trans.Worker.Pipeline.Routing.Reroute.{active}
use open_video_trans.Worker.Pipeline.Rotation.{
  Outcome, finished, quota_exhausted, max_reroutes, Verdict, ended, again, reconcile,
  exclude_and_reroute, on_quota, on_unavailable, attempt, rotate, route_initial, run_attempts,
  reroute_budget, name_or,
}
use open_video_trans.Worker.Pipeline.Rotation.Turns.{Blame, blamed}
use open_video_trans.Worker.Pipeline.Rotation.Safety.{
  kernel_view, begun, first, then_again, kernel_never_paid, blamed_never_again,
}
use open_video_trans.Worker.Pipeline.Rotation.Termination.{IsFaithful, run_attempts_enough}

program : Unit {0}
unfolding stage_kinds infer_kind deliverables pick route_plan exclude reroute_stage reroute_all
    reconcile exclude_and_reroute on_quota on_unavailable attempt rotate route_initial run_attempts
    reroute_budget route_free route_loop is_paid_provider is_exhausted
program = tt

abbrev present : StageKind → List String
present asr = "groq" ∷ "cloudflare" ∷ []
present mt = "cloudflare" ∷ "deepl" ∷ []
present tts = "cloudflare" ∷ "piper" ∷ []

-- The kernel's ASR answers 429 as long as groq is planned for it.
abbrev groq_answer : Option String → Outcome
groq_answer none = finished
groq_answer (some p) = if p == "groq" then quota_exhausted "groq" (some "asr") none else finished

abbrev groq_limited : ℕ → Rotation → Outcome
groq_limited n st = groq_answer (st.plan asr)

abbrev unreachable : ℕ → Option ProviderAvailability
unreachable n = none

abbrev noon : ℕ → ℕ
noon n = 43_200_000

abbrev begin : Rotation
begin = record {
  plan = λ k. some "auto";
  excluded = λ k. [];
  snapshot = record { now_ms = 43_200_000; exhausted_until = [] };
  tts_pin = some "edge_tts";
  tts_voice = some "en-US-AriaNeural";
  voice_pool = none;
  voice_substituted = false;
  trace = [];
}

abbrev later : List StageKind
later = mt ∷ tts ∷ []

abbrev value_of : Result Rotation Rotation → Rotation
value_of (ok st) = st
value_of (err st) = st

abbrev state_of : Verdict → Rotation
state_of (ended result st) = st
state_of (again st) = st

abbrev routed_begin : Rotation
routed_begin =
    value_of (route_initial later present groq_limited unreachable noon (asr ∷ later) begin)

abbrev loop_begin : Rotation
loop_begin = begun later present groq_limited unreachable noon routed_begin

abbrev second : Rotation
second = state_of (attempt later present groq_limited unreachable noon 5 loop_begin)

initially :
    route_initial later present groq_limited unreachable noon (asr ∷ later) begin ≡ ok routed_begin
unfolding program
initially = refl

turned : attempt later present groq_limited unreachable noon 5 loop_begin ≡ again second
unfolding program
turned = refl

second_plan :
    (second.plan asr ≡ some "cloudflare")
    × (second.plan mt ≡ some "deepl")
    × (second.plan tts ≡ some "edge_tts")
unfolding program
second_plan = (refl, refl, refl)

delivered :
    (deliverables "both" "srt" true ≡ dubbed_video ∷ subtitles ∷ [])
    × (deliverables "subtitle_only" "burned" true ≡ burned_video ∷ [])
    × (deliverables "subtitle_only" "burned" false ≡ [])
unfolding program
delivered = (refl, refl, refl)

edge_is_free : (pin : String) → begin.tts_pin ≡ some pin → is_paid_provider pin ≡ false
unfolding program
edge_is_free pin e =
    let same : "edge_tts" ≡ pin = ground arith in subst (λ p. is_paid_provider p ≡ false) same refl

kernel_never_paid_example :
    (p : String) × ((kernel_view later present groq_limited unreachable noon second).plan asr
      ≡ some p)
    × (is_paid_provider p ≡ false)
    × ((p ≡ sentinel)
        ⊎ (contains p
              ((kernel_view later present groq_limited unreachable noon second).excluded asr)
            ≡ false))
kernel_never_paid_example =
    kernel_never_paid later present groq_limited unreachable noon begin routed_begin second asr
      (λ j. refl) edge_is_free initially (then_again 5 turned first) refl

groq_is_real : "groq" ≢ sentinel
groq_is_real e = cc

groq_blamed :
    blamed later present groq_limited unreachable noon
      (groq_limited 5 (kernel_view later present groq_limited unreachable noon loop_begin))
      (kernel_view later present groq_limited unreachable noon loop_begin)
    ≡ some (record { wide = true; kind = asr; provider = "groq" })
unfolding program
groq_blamed = refl

blamed_never_again_example :
    (kernel_view later present groq_limited unreachable noon second).plan asr ≢ some "groq"
blamed_never_again_example =
    blamed_never_again later present groq_limited unreachable noon begin routed_begin loop_begin
      second second 5 (record { wide = true; kind = asr; provider = "groq" }) asr (asr ∷ later)
      (λ j. refl) initially first turned groq_blamed refl refl refl first groq_is_real

module _ (st : Rotation) where
  abbrev Planned : Blame → Type 0
  Planned b =
      (active present b.kind (asr ∷ later) ≡ true)
      × (st.plan b.kind ≡ some b.provider)
      × (b.provider ≢ sentinel)

groq_limited-IsFaithful : IsFaithful later present groq_limited unreachable noon
groq_limited-IsFaithful n st b e =
    let blames : Outcome → Type 0 =
      λ o. blamed later present groq_limited unreachable noon o st ≡ some b in
    elim (Option-cases (st.plan asr)) [
      | inl unplanned ↦
          let quiet : groq_answer (st.plan asr) ≡ finished = ap groq_answer unplanned in
          absurd (ground (arith, subst blames quiet e))
      | inr (p, planned) ↦ elim (Bool-cases (p == "groq")) [
        | inr other ↦
            let quiet : groq_answer (st.plan asr) ≡ finished =
              ap groq_answer planned ∙ rw other refl in
            absurd (ground (arith, subst blames quiet e))
        | inl hit ↦
            let groq : st.plan asr ≡ some "groq" = ground (arith, eq_iff p "groq") in
            let limited : groq_answer (st.plan asr) ≡ quota_exhausted "groq" (some "asr") none =
              ap groq_answer groq in
            let found : Blame = record {
              wide = true;
              kind = asr;
              provider = name_or (st.plan asr) "groq";
            } in
            let same : found ≡ b = some_inj (subst blames limited e) in
            subst (Planned st) same (
              refl,
              groq ∙ ap some (sym (ap (λ o. name_or o "groq") groq)),
              λ out. groq_is_real (sym (ap (λ o. name_or o "groq") groq) ∙ out),
            )
      ]
    ]

run_attempts_enough_example :
    (run_attempts later present groq_limited unreachable noon begin).0 ≢ err max_reroutes
run_attempts_enough_example =
    run_attempts_enough later present groq_limited unreachable noon begin (λ j. refl)
      groq_limited-IsFaithful
