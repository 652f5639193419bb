-- ===== src/Worker/Pipeline/Routing/Picks.antt =====
-- What the routing functions of pipeline.py leave in the plan.
use open_video_trans.Common.{
  String, ◌≡◌, refl, sym, ok_inj, ◌⊎◌, inl, inr, ◌↔◌, true, false, Option, none, some, List, [],
  ◌∷◌, eq_iff, ok, arith, contains,
}
use open_video_trans.Providers.Ladder.{is_paid_provider}
use open_video_trans.Providers.Circuit.{ProviderAvailability, Route, routed, failure, route_free}
use open_video_trans.Providers.Circuit.Routing.{route_free_never_paid}
use open_video_trans.Worker.Pipeline.Stages.{
  StageKind, asr, mt, tts, kind_name, same_kind, sentinel, update,
}
use open_video_trans.Worker.Pipeline.Routing.{
  Rotation, minus, provider_of, pick, plan_stage, route_plan,
}

pub same_kind_iff : (j k : StageKind) → (same_kind j k ≡ true) ↔ (j ≡ k)
same_kind_iff j k = ground arith

contains-minus :
    (p : String) (names excluded : List String)
    → contains p (minus names excluded) ≡ true
    → (contains p names ≡ true) × (contains p excluded ≡ false)
contains-minus p [] excluded h = cc
contains-minus p (n ∷ names) excluded h =
    ground (arith, contains-minus p names excluded, eq_iff p n)

provider_of-eq-some :
    (r : Route) (p : String) → provider_of r ≡ some p → (kind : String) × (r ≡ routed p kind)
provider_of-eq-some (routed q kind) p e = (kind, ground arith)
provider_of-eq-some (failure kind reason retry) p e = cc

-- A provider that may be planned for a stage by itself: free, available and not excluded.
pub record IsRouted (available excluded : List String) (p : String) : Type 0 where
  pub free : is_paid_provider p ≡ false
  pub present : contains p available ≡ true
  pub allowed : contains p excluded ≡ false

module _ (available : StageKind → List String) where
  pick-IsRouted :
      (k : StageKind) (s : ProviderAvailability) (excluded : List String) (p : String)
      → pick available k s excluded ≡ some p
      → IsRouted (available k) excluded p
  unfolding pick
  pick-IsRouted k s excluded p e =
      let configured = some (minus (available k) excluded) in
      let (kind, found) = provider_of-eq-some (route_free (kind_name k) s configured) p e in
      let free = route_free_never_paid (kind_name k) s configured p kind found in
      let sides = contains-minus p (available k) excluded free.2 in
      record { free = free.0; present = sides.0; allowed = sides.1 }

  plan_stage-eq-ok :
      (k : StageKind) (st st' : Rotation) (o : Option String)
      → plan_stage available k st o ≡ ok st'
      → (p : String) × (st' ≡ record st { plan = update st.plan k (some p) })
        × ((p ≡ sentinel) ⊎ (o ≡ some p))
  plan_stage-eq-ok k st st' (some p) e = (p, sym (ok_inj e), inr refl)
  plan_stage-eq-ok asr st st' none e = cc
  plan_stage-eq-ok mt st st' none e = (sentinel, sym (ok_inj e), inl refl)
  plan_stage-eq-ok tts st st' none e = (sentinel, sym (ok_inj e), inl refl)

  -- Where `route_plan` returns it has planned the stage on such a provider or on the sentinel, and
  -- changed nothing else.
  pub route_plan-eq-ok :
      (k : StageKind) (st st' : Rotation)
      → route_plan available k st ≡ ok st'
      → (p : String) × (st' ≡ record st { plan = update st.plan k (some p) })
        × ((p ≡ sentinel) ⊎ IsRouted (available k) (st.excluded k) p)
  unfolding route_plan
  route_plan-eq-ok k st st' e =
      let (p, same, source) =
        plan_stage-eq-ok k st st' (pick available k st.snapshot (st.excluded k)) e in
      (
        p,
        same,
        elim source [
          | inl out ↦ inl out
          | inr picked ↦ inr (pick-IsRouted k st.snapshot (st.excluded k) p picked)
        ],
      )
