-- ===== src/Worker/Pipeline/Rotation/Turns.antt =====
-- One turn of the attempt loop of pipeline.py: whom it blames, and what it leaves.
use open_video_trans.Common.{
  ℕ, String, ◌≡◌, refl, subst, inl, inr, Bool, true, false, Option, none, some, List, ◌==◌, arith,
  if◌then◌else◌, Bool-cases, Option-cases, Result-cases,
}
use open_video_trans.Providers.Circuit.{ProviderAvailability}
use open_video_trans.Worker.Pipeline.Stages.{StageKind, asr, kind_of, infer_kind}
use open_video_trans.Worker.Pipeline.Routing.{Rotation, log, routed_ok, reroute_all, affected}
use open_video_trans.Worker.Pipeline.Routing.Reroute.{AllRerouted, reroute_all-AllRerouted}
use open_video_trans.Worker.Pipeline.Rotation.{
  Outcome, finished, sentinel_reached, quota_exhausted, unavailable, broken, Verdict, again,
  stage_of, kind_or, name_or, kinds, reconcile, exclude_and_reroute, refreshed, on_quota,
  on_unavailable, handle, attempt,
}

-- What a handler takes for the cause: whether the exclusion is provider-wide, the stage and the
-- provider.
pub record Blame : Type 0 where
  pub wide : Bool
  pub kind : StageKind
  pub provider : String

module _ (later_kinds : List StageKind) (available : StageKind → List String)
    (run : ℕ → Rotation → Outcome) (refresh : ℕ → Option ProviderAvailability) (clock : ℕ → ℕ) where
  abbrev pub stages : List StageKind
  stages = kinds later_kinds available run refresh clock

  abbrev pub settled : Rotation → Rotation
  settled st = reconcile later_kinds available run refresh clock st

  abbrev pub next_attempt : ℕ → Rotation → Verdict
  next_attempt n st = attempt later_kinds available run refresh clock n st

  abbrev blamed_selection : String → Option StageKind → Option Blame
  blamed_selection provider none = none
  blamed_selection provider (some kind) =
      if provider == ""
      then none
      else some (record { wide = false; kind = kind; provider = provider })

  abbrev pub blamed : Outcome → Rotation → Option Blame
  blamed (quota_exhausted provider kind retry) st =
      let k = kind_or (stage_of kind) (infer_kind provider st.plan asr stages) in
      some (record { wide = true; kind = k; provider = name_or (st.plan k) provider })
  blamed (unavailable (some (name, some provider))) st = blamed_selection provider (kind_of name)
  blamed _ st = none

  -- A turn that goes on has blamed a provider and re-routed the affected stages.
  pub record Turn (n : ℕ) (st st' : Rotation) : Type 0 where
    pub blame : Blame
    pub cause : blamed (run n (settled st)) (settled st) ≡ some blame
    pub ks : List StageKind
    pub reach : affected available blame.wide blame.kind stages ≡ some ks
    pub rerouted : AllRerouted available blame.provider ks (settled st) st'

  abbrev Left : Blame → Rotation → Rotation → Type 0
  Left b st st' =
      (ks : List StageKind) × (affected available b.wide b.kind stages ≡ some ks)
      × AllRerouted available b.provider ks st st'

  exclude_and_reroute-again :
      (b : Blame) (st st' : Rotation)
      → exclude_and_reroute later_kinds available run refresh clock b.wide b.kind b.provider st
        ≡ again st'
      → Left b st st'
  unfolding exclude_and_reroute
  exclude_and_reroute-again b st st' e =
      elim (Option-cases (affected available b.wide b.kind stages)) [
        | inl lost ↦ absurd (ground arith)
        | inr (ks, found) ↦ elim (Result-cases (reroute_all available b.provider ks st)) [
          | inr (stuck, raised) ↦ absurd (ground arith)
          | inl (mid, went) ↦
              let a = reroute_all-AllRerouted available b.provider ks st mid went in
              let same : log mid (routed_ok (mid.plan asr)) ≡ st' = ground arith in
              (
                ks,
                found,
                subst (AllRerouted available b.provider ks st) same
                    (record { sound = a.sound; more = a.more; out = a.out; same_pin = a.same_pin }),
              )
        ]
      ]

  handle-again :
      (n : ℕ) (o : Outcome) (st st' : Rotation)
      → handle later_kinds available run refresh clock n o st ≡ again st'
      → (b : Blame) × (blamed o st ≡ some b) × Left b st st'
  unfolding on_quota on_unavailable
  handle-again n finished st st' e = cc
  handle-again n sentinel_reached st st' e = cc
  handle-again n broken st st' e = cc
  handle-again n (quota_exhausted provider kind retry) st st' e =
      let k = kind_or (stage_of kind) (infer_kind provider st.plan asr stages) in
      let b : Blame = record { wide = true; kind = k; provider = name_or (st.plan k) provider } in
      let (ks, found, a) = exclude_and_reroute-again b _ st' e in
      (
        b,
        refl,
        (ks, found, record { sound = a.sound; more = a.more; out = a.out; same_pin = a.same_pin }),
      )
  handle-again n (unavailable none) st st' e = cc
  handle-again n (unavailable (some (name, none))) st st' e = cc
  handle-again n (unavailable (some (name, some provider))) st st' e =
      elim (Option-cases (kind_of name)) [
        | inl unknown ↦ absurd (ground arith)
        | inr (k, known) ↦ elim (Bool-cases (provider == "")) [
          | inl empty ↦ absurd (ground arith)
          | inr named ↦
              let b : Blame = record { wide = false; kind = k; provider = provider } in
              let (ks, found, a) =
                exclude_and_reroute-again b (refreshed later_kinds available run refresh clock n st)
                  st' (ground arith) in
              (
                b,
                ground arith,
                (
                  ks,
                  found,
                  record { sound = a.sound; more = a.more; out = a.out; same_pin = a.same_pin },
                ),
              )
        ]
      ]

  pub attempt-Turn : (n : ℕ) (st st' : Rotation) → next_attempt n st ≡ again st' → Turn n st st'
  unfolding attempt
  attempt-Turn n st st' e =
      let (b, cause, (ks, found, a)) = handle-again n (run n (settled st)) (settled st) st' e in
      record { blame = b; cause = cause; ks = ks; reach = found; rerouted = a }
