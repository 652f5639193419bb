-- ===== src/Worker/Scheduling/Dispatch.antt =====
-- The claim loop of `run_forever` in workers/media-worker/src/media_worker/worker.py: one
-- iteration of the dispatcher, the end of a pool thread's job, and their interleavings.
pub mod Capacity
use open_video_trans.Common.{
  ℕ, zero, suc, String, ◌≡◌, ◌+◌, Bool, true, false, Option, none, some, List, [], ◌∷◌, Result, ok,
  err, if◌then◌else◌,
}
use open_video_trans.Worker.Scheduling.{
  Weight, light, heavy, ClaimPlan, nothing, any, light_only, SlotTracker, is_heavy, weight_class,
  add, remove, plan,
}

-- The fields of a claimed job that the dispatcher reads.
pub record ClaimedJob : Type 0 where
  pub output_mode : String
  pub subtitle_delivery : String

-- What `cp.claim(light_only=…)` does: it raises, or returns a claim or None.
abbrev pub ClaimCall : Type 0
ClaimCall = Bool → Result (Unit {0}) (Option ClaimedJob)

-- The tracker, and the weights of the jobs that pool threads are running.
pub record Dispatcher : Type 0 where
  pub tracker : SlotTracker
  pub running : List Weight

abbrev pub job_weight : ClaimedJob → Weight
job_weight job = weight_class job.output_mode job.subtitle_delivery

-- The slot is reserved before the job is submitted; an exception ends the iteration only.
abbrev pub accept : Result (Unit {0}) (Option ClaimedJob) → Dispatcher → Dispatcher
accept (err _) d = d
accept (ok none) d = d
accept (ok (some job)) d = record {
  tracker = add d.tracker (job_weight job);
  running = job_weight job ∷ d.running;
}

-- One round of the `while` loop.
unfoldable pub iteration : ClaimCall → Dispatcher → Dispatcher
iteration claim d = elim (plan d.tracker) [
  | nothing ↦ d
  | any ↦ accept (claim false) d
  | light_only ↦ accept (claim true) d
]

abbrev pub remove_at : ℕ → List Weight → List Weight
remove_at i [] = []
remove_at zero (w ∷ ws) = ws
remove_at (suc i) (w ∷ ws) = w ∷ remove_at i ws

abbrev pub weight_at : ℕ → List Weight → Option Weight
weight_at i [] = none
weight_at zero (w ∷ ws) = some w
weight_at (suc i) (w ∷ ws) = weight_at i ws

abbrev pub release : ℕ → Option Weight → Dispatcher → Dispatcher
release i none d = d
release i (some weight) d = record {
  tracker = remove d.tracker weight;
  running = remove_at i d.running;
}

-- The `finally` of `_task`: the thread of the i-th running job gives its slot back.
unfoldable pub finish : ℕ → Dispatcher → Dispatcher
finish i d = release i (weight_at i d.running) d

-- The control plane answers a `light_only` claim with a light job only.
pub record HonoursLight (claim : ClaimCall) : Type 0 where
  pub only_light : (job : ClaimedJob) → claim true ≡ ok (some job) → job_weight job ≡ light

pub data Step (d : Dispatcher) : Dispatcher → Type 0 where
  dispatched : (claim : ClaimCall) → HonoursLight claim → Step d (iteration claim d)
  finished : (i : ℕ) → Step d (finish i d)

-- The dispatchers that some sequence of such steps leads to from `first`.
pub data Interleaving (first : Dispatcher) : Dispatcher → Type 0 where
  at_start : Interleaving first first
  one_more :
      {before after : Dispatcher}
      → Step before after
      → Interleaving first before
      → Interleaving first after

abbrev pub count_heavy : List Weight → ℕ
count_heavy [] = 0
count_heavy (w ∷ ws) = if is_heavy w then suc (count_heavy ws) else count_heavy ws

abbrev pub count_light : List Weight → ℕ
count_light [] = 0
count_light (w ∷ ws) = if is_heavy w then count_light ws else suc (count_light ws)

abbrev pub start : SlotTracker → Dispatcher
start t = record { tracker = t; running = [] }
