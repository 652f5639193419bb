-- ===== src/Worker/Scheduling/Dispatch/Capacity.antt =====
-- The slots of scheduling.py under every interleaving of the dispatcher and the pool threads.
use open_video_trans.Common.{
  ℕ, zero, suc, ◌≡◌, refl, ap, ◌+◌, ◌-◌, ◌≤◌, ◌<◌, ltb, min, max, true, false, Option, none, some,
  List, [], ◌∷◌, Result, ok, err, arith, length, if◌then◌else◌,
}
use open_video_trans.Common.Int.{ℤ}
use open_video_trans.Worker.Scheduling.{
  Weight, light, heavy, ClaimPlan, nothing, any, light_only, SlotTracker, is_heavy, heavy_budget,
  plan_claim, new_tracker, add, remove, plan,
}
use open_video_trans.Worker.Scheduling.Dispatch.{
  ClaimCall, ClaimedJob, Dispatcher, job_weight, accept, iteration, remove_at, weight_at, release,
  finish, HonoursLight, Step, dispatched, finished, Interleaving, at_start, one_more, count_heavy,
  count_light, start,
}

-- The counters count the running jobs, and neither limit is passed.
pub record IsSound (concurrency reserve : ℕ) (d : Dispatcher) : Type 0 where
  pub same_concurrency : d.tracker.concurrency ≡ concurrency
  pub same_reserve : d.tracker.reserve ≡ reserve
  pub counted : d.tracker.total ≡ length d.running
  pub counted_heavy : d.tracker.heavy_count ≡ count_heavy d.running
  pub fits : d.tracker.total ≤ concurrency
  pub within_budget : d.tracker.heavy_count ≤ heavy_budget concurrency reserve

length-count : (ws : List Weight) → length ws ≡ count_heavy ws + count_light ws
length-count [] = omega arith
length-count (light ∷ ws) = omega (arith, length-count ws)
length-count (heavy ∷ ws) = omega (arith, length-count ws)

remove_at_counts :
    (i : ℕ) (ws : List Weight) (w : Weight)
    → weight_at i ws ≡ some w
    → (length ws ≡ suc (length (remove_at i ws)))
      × (count_heavy ws ≡ (
          if is_heavy w then suc (count_heavy (remove_at i ws)) else count_heavy (remove_at i ws)))
remove_at_counts i [] w h = cc
remove_at_counts zero (x ∷ ws) w h = ground arith
remove_at_counts (suc i) (x ∷ ws) w h = ground (arith, remove_at_counts i ws w h)

module _ {concurrency reserve : ℕ} {d : Dispatcher} (s : IsSound concurrency reserve d) where
  accept_any :
      (r : Result (Unit {0}) (Option ClaimedJob))
      → plan d.tracker ≡ any
      → IsSound concurrency reserve (accept r d)
  unfolding plan plan_claim add
  accept_any (err e) h = s
  accept_any (ok none) h = s
  accept_any (ok (some job)) h = ground arith

  accept_light :
      (r : Result (Unit {0}) (Option ClaimedJob))
      → plan d.tracker ≡ light_only
      → ((job : ClaimedJob) → r ≡ ok (some job) → job_weight job ≡ light)
      → IsSound concurrency reserve (accept r d)
  unfolding plan plan_claim add
  accept_light (err e) h only = s
  accept_light (ok none) h only = s
  accept_light (ok (some job)) h only = ground (arith, only job refl)

  ClaimPlan-cases :
      (p : ClaimPlan)
      → plan d.tracker ≡ p
      → (claim : ClaimCall) → HonoursLight claim
      → IsSound concurrency reserve (iteration claim d)
  unfolding iteration
  ClaimPlan-cases nothing h claim honest = rw (h, iteration) s
  ClaimPlan-cases any h claim honest = rw (h, iteration) (accept_any (claim false) h)
  ClaimPlan-cases light_only h claim honest =
      rw (h, iteration) (accept_light (claim true) h honest.only_light)

  finish-IsSound : (i : ℕ) → IsSound concurrency reserve (finish i d)
  unfolding finish remove
  finish-IsSound i =
      elim (weight_at i d.running)
          as (λ o. weight_at i d.running ≡ o → IsSound concurrency reserve (release i o d)) [
            | none ↦ λ h. s
            | some w ↦ λ h. ground (arith, remove_at_counts i d.running w h)
          ]
        refl

Step-IsSound :
    {concurrency reserve : ℕ} {d e : Dispatcher}
    → IsSound concurrency reserve d
    → Step d e
    → IsSound concurrency reserve e
Step-IsSound {d = d} s (dispatched claim honest) =
    ClaimPlan-cases s (plan d.tracker) refl claim honest
Step-IsSound s (finished i) = finish-IsSound s i

-- From a tracker that the constructor accepts, after any interleaving of claims and finished jobs,
-- the tracker counts the running jobs, no more jobs run than there are slots, and no more heavy
-- ones than the heavy budget, if the control plane honours `light_only`.
pub Interleaving-IsSound :
    (concurrency reserve : ℤ) (t : SlotTracker) {d : Dispatcher}
    → new_tracker concurrency reserve ≡ ok t
    → Interleaving (start t) d
    → IsSound t.concurrency t.reserve d
unfolding new_tracker heavy_budget
Interleaving-IsSound c r t made at_start = ground arith
Interleaving-IsSound c r t made (one_more st path) =
    Step-IsSound (Interleaving-IsSound c r t made path) st

-- Of c slots with a reserve of r, min r (c - 1) are kept from heavy jobs: none with one slot. While
-- fewer light jobs run than are kept, the heavy jobs leave room for one, and the dispatcher claims.
-- What it claims is any job while fewer heavy jobs run than max (c - r) 1, and a light one after.
pub reserved_slot :
    (concurrency reserve : ℤ) (t : SlotTracker) {d : Dispatcher}
    → new_tracker concurrency reserve ≡ ok t
    → Interleaving (start t) d
    → count_light d.running < min t.reserve (t.concurrency - 1)
    → (count_heavy d.running + min t.reserve (t.concurrency - 1) ≤ t.concurrency)
      × (plan d.tracker ≡ (
          if ltb (count_heavy d.running) (max (t.concurrency - t.reserve) 1)
          then any
          else light_only))
unfolding plan plan_claim heavy_budget
reserved_slot c r t {d} made path free =
    let s = Interleaving-IsSound c r t made path in
    let split = length-count d.running in (ground arith, ground arith)

-- When the last job has finished both counters are back at zero, and the next claim may be a heavy
-- job, whatever the reserve.
pub drained_admits_heavy :
    (concurrency reserve : ℤ) (t : SlotTracker) {d : Dispatcher}
    → new_tracker concurrency reserve ≡ ok t
    → Interleaving (start t) d
    → d.running ≡ []
    → (d.tracker ≡ t) × (plan d.tracker ≡ any)
unfolding new_tracker plan plan_claim heavy_budget
drained_admits_heavy c r t {d} made path empty =
    let s = Interleaving-IsSound c r t made path in
    ground (arith, ap length empty, ap count_heavy empty)
