-- ===== src/Worker/Pipeline/Rotation.antt =====
-- `run_real_pipeline` of pipeline.py: the initial route and the loop over the attempts.
pub mod Turns
pub mod Start
pub mod Safety
pub mod Budget
pub mod Termination
use open_video_trans.Common.{
  ℕ, zero, suc, ◌+◌, ◌*◌, String, Bool, true, false, not, ◌&&◌, Option, none, some, List, [], ◌∷◌,
  ◌++◌, ◌==◌, eqb, Result, ok, err, ◌>>=◌, if◌then◌else◌, length,
}
use open_video_trans.Providers.Circuit.{ProviderAvailability}
use open_video_trans.Worker.Pipeline.Stages.{
  StageKind, asr, mt, tts, kind_of, same_kind, update, is_planned, infer_kind,
}
use open_video_trans.Worker.Pipeline.Routing.{
  Event, routed_ok, pool_exhausted, reported, Rotation, log, route_plan, reroute_all, affected,
}

-- How a run of the kernel and the upload of its results end. `unavailable` carries the resolver's
-- `last_select`; `broken` is any other exception.
pub data Outcome : Type 0 where
  finished : Outcome
  sentinel_reached : Outcome
  quota_exhausted : (provider : String) (kind : Option String) (retry_after_ms : Option ℕ) → Outcome
  unavailable : (last_select : Option (String × Option String)) → Outcome
  broken : Outcome

pub data Failure : Type 0 where
  free_pool_exhausted max_reroutes provider_unavailable value_error other_error : Failure

-- The end of the call, with what the loop did, or another turn.
pub data Verdict : Type 0 where
  ended : Result Failure (Unit {0}) → Rotation → Verdict
  again : Rotation → Verdict

abbrev pub stage_of : Option String → Option StageKind
stage_of none = none
stage_of (some name) = kind_of name

abbrev pub kind_or : Option StageKind → StageKind → StageKind
kind_or none k = k
kind_or (some k) other = k

abbrev pub name_or : Option String → String → String
name_or none provider = provider
name_or (some planned) provider = if planned == "" then provider else planned

-- `_DEFAULT_RESET_SEC` in milliseconds, for an exception without a retry time or with 0; a retry
-- time is a whole number of milliseconds.
abbrev pub retry_or_default : Option ℕ → ℕ
retry_or_default none = 3_600_000
retry_or_default (some ms) = if eqb ms 0 then 3_600_000 else ms

abbrev pub fresh : Option ProviderAvailability → ProviderAvailability → ProviderAvailability
fresh none prior = prior
fresh (some snapshot) prior = snapshot

-- The sum that bounds the re-routes.
abbrev pub sum_available : (StageKind → List String) → List StageKind → ℕ
sum_available available [] = 0
sum_available available (k ∷ ks) = length (available k) + sum_available available ks

-- The stages after the first, which is always ASR; what the providers, the kernel, the control
-- plane and the clock answer in the attempt with so many attempts left.
module _ (later_kinds : List StageKind) (available : StageKind → List String)
    (run : ℕ → Rotation → Outcome) (refresh : ℕ → Option ProviderAvailability) (clock : ℕ → ℕ) where
  abbrev pub kinds : List StageKind
  kinds = asr ∷ later_kinds

  -- The soft pin is dropped once its provider no longer holds the tts stage.
  unfoldable pub reconcile : Rotation → Rotation
  reconcile st = elim st.tts_pin [
    | none ↦ st
    | some pin ↦ if is_planned (st.plan tts) pin then st else record st {
      tts_pin = none;
      tts_voice = none;
      voice_pool = none;
      voice_substituted = true;
    }
  ]

  abbrev pub emit_ok : Result Rotation Rotation → Verdict
  emit_ok (ok st) = again (log st (routed_ok (st.plan asr)))
  emit_ok (err st) = ended (err free_pool_exhausted) st

  -- `_exclude_and_reroute(kind, failed, …)`
  unfoldable pub exclude_and_reroute : Bool → StageKind → String → Rotation → Verdict
  exclude_and_reroute provider_wide kind failed st =
      elim (affected available provider_wide kind kinds) [
        | none ↦ ended (err value_error) st
        | some ks ↦ emit_ok (reroute_all available failed ks st)
      ]

  abbrev pub refreshed : ℕ → Rotation → Rotation
  refreshed n st = record st { snapshot = fresh (refresh n) st.snapshot }

  -- The handler of QuotaExhausted.
  unfoldable pub on_quota : ℕ → String → Option String → Option ℕ → Rotation → Verdict
  on_quota n provider exc_kind retry st =
      let kind = kind_or (stage_of exc_kind) (infer_kind provider st.plan asr kinds) in
      let failed = name_or (st.plan kind) provider in
      exclude_and_reroute true kind failed
        (refreshed n (log st (reported failed (clock n + retry_or_default retry))))

  -- The handler of ProviderUnavailable.
  unfoldable pub on_unavailable : ℕ → Option (String × Option String) → Rotation → Verdict
  on_unavailable n (some (name, some provider)) st = elim (kind_of name) [
    | none ↦ ended (err provider_unavailable) st
    | some kind ↦
        if provider == ""
        then ended (err provider_unavailable) st
        else exclude_and_reroute false kind provider (refreshed n st)
  ]
  on_unavailable n _ st = ended (err provider_unavailable) st

  abbrev pub handle : ℕ → Outcome → Rotation → Verdict
  handle n finished st = ended (ok tt) st
  handle n sentinel_reached st = ended (err free_pool_exhausted) (log st pool_exhausted)
  handle n (quota_exhausted provider kind retry) st = on_quota n provider kind retry st
  handle n (unavailable last_select) st = on_unavailable n last_select st
  handle n broken st = ended (err other_error) st

  -- One turn of the `for` loop.
  unfoldable pub attempt : ℕ → Rotation → Verdict
  attempt n st = let st1 = reconcile st in handle n (run n st1) st1

  -- The loop with so many attempts left.
  unfoldable pub rotate : ℕ → Rotation → Result Failure (Unit {0}) × Rotation
  rotate zero st = (err max_reroutes, log st pool_exhausted)
  rotate (suc n) st = elim (attempt n st) [
    | ended result st' ↦ (result, st')
    | again st' ↦ rotate n st'
  ]

  abbrev pub route_tts : Option String → Rotation → Result Rotation Rotation
  route_tts none st = route_plan available tts st
  route_tts (some pin) st = ok (record st { plan = update st.plan tts (some pin) })

  -- The initial route: a pinned tts provider is kept.
  unfoldable pub route_initial : List StageKind → Rotation → Result Rotation Rotation
  route_initial [] st = ok st
  route_initial (k ∷ ks) st =
      (if same_kind k tts then route_tts st.tts_pin st else route_plan available k st)
      >>= route_initial ks

  -- The default of `max_reroutes`.
  unfoldable pub reroute_budget : ℕ
  reroute_budget = sum_available available kinds + 1

  -- From the initial route on: the loop makes one attempt more than `max_reroutes`.
  unfoldable pub run_attempts : Rotation → Result Failure (Unit {0}) × Rotation
  run_attempts start = elim (route_initial kinds start) [
    | err st ↦ (err free_pool_exhausted, st)
    | ok st ↦ rotate (suc reroute_budget) (log st (routed_ok (st.plan asr)))
  ]
