-- ===== src/Worker/Pipeline/Routing.antt =====
-- `_pick`, `_route_plan` and `_exclude_and_reroute` of pipeline.py.
pub mod Picks
pub mod Reroute
use open_video_trans.Common.{
  ℕ, String, Bool, true, false, not, Option, none, some, List, [], ◌∷◌, ◌++◌, Result, ok, err,
  ◌>>=◌, if◌then◌else◌, contains, keep_if,
}
use open_video_trans.Providers.Circuit.{ProviderAvailability, Route, routed, failure, route_free}
use open_video_trans.Worker.Pipeline.Stages.{
  StageKind, asr, mt, tts, kind_name, same_kind, sentinel, update, is_planned,
}

-- What the loop does besides routing: it reports to the control plane and to the telemetry, and
-- clears the synthesized audio.
pub data Event : Type 0 where
  routed_ok : Option String → Event
  pool_exhausted : Event
  reported : (provider : String) (reset_at_ms : ℕ) → Event
  tts_cleared : Event

-- The local variables of `run_real_pipeline` that the loop changes.
pub record Rotation : Type 0 where
  pub plan : StageKind → Option String
  pub excluded : StageKind → List String
  pub snapshot : ProviderAvailability
  pub tts_pin : Option String
  pub tts_voice : Option String
  pub voice_pool : Option (List String)
  pub voice_substituted : Bool
  pub trace : List Event

abbrev pub log : Rotation → Event → Rotation
log st e = record st { trace = st.trace ++ e ∷ [] }

-- `available - excluded`
abbrev pub minus : List String → List String → List String
minus names excluded = keep_if (λ n. not (contains n excluded)) names

abbrev pub provider_of : Route → Option String
provider_of (routed p kind) = some p
provider_of (failure kind reason retry) = none

-- The available providers of each stage, which `available_providers` answers.
module _ (available : StageKind → List String) where
  unfoldable pub pick : StageKind → ProviderAvailability → List String → Option String
  pick kind snapshot excluded =
      provider_of (route_free (kind_name kind) snapshot (some (minus (available kind) excluded)))

  -- `plan[k] = _route_plan(k, …)`: without a free provider ASR raises FreePoolExhausted, and the
  -- other stages are planned on the sentinel. The exception carries the state that it leaves.
  abbrev pub plan_stage : StageKind → Rotation → Option String → Result Rotation Rotation
  plan_stage k st (some p) = ok (record st { plan = update st.plan k (some p) })
  plan_stage asr st none = err (log st pool_exhausted)
  plan_stage k st none = ok (record st { plan = update st.plan k (some sentinel) })

  unfoldable pub route_plan : StageKind → Rotation → Result Rotation Rotation
  route_plan k st = plan_stage k st (pick k st.snapshot (st.excluded k))

  abbrev pub clear_tts : StageKind → Rotation → Rotation
  clear_tts tts st = log st tts_cleared
  clear_tts k st = st

  unfoldable pub exclude : String → StageKind → Rotation → Rotation
  exclude failed k st = record st { excluded = update st.excluded k (failed ∷ st.excluded k) }

  -- One turn of the `for` loop of `_exclude_and_reroute`.
  unfoldable pub reroute_stage : String → StageKind → Rotation → Result Rotation Rotation
  reroute_stage failed k st =
      let st1 = exclude failed k st in
      if is_planned (st1.plan k) failed then route_plan k (clear_tts k st1) else ok st1

  unfoldable pub reroute_all : String → List StageKind → Rotation → Result Rotation Rotation
  reroute_all failed [] st = ok st
  reroute_all failed (k ∷ ks) st = reroute_stage failed k st >>= reroute_all failed ks

  -- `kinds[kinds.index(kind):]`; a kind that is not among them raises ValueError.
  abbrev pub from_kind : StageKind → List StageKind → Option (List StageKind)
  from_kind kind [] = none
  from_kind kind (k ∷ ks) = if same_kind k kind then some (k ∷ ks) else from_kind kind ks

  abbrev pub affected : Bool → StageKind → List StageKind → Option (List StageKind)
  affected true kind kinds = from_kind kind kinds
  affected false kind kinds = some (kind ∷ [])
