-- ===== src/Worker/Scheduling.antt =====
-- workers/media-worker/src/media_worker/scheduling.py
pub mod Dispatch
mod Tests
use open_video_trans.Common.{
  ℕ, ◌+◌, ◌-◌, max, String, Bool, true, false, ◌&&◌, ◌==◌, ltb, leb, if◌then◌else◌, Result, ok, err,
}
use open_video_trans.Common.Int.{ℤ, pos, pos_part, ltb_ℤ}

-- The strings LIGHT and HEAVY.
pub data Weight : Type 0 where
  light heavy : Weight

pub data ClaimPlan : Type 0 where
  nothing any light_only : ClaimPlan

unfoldable pub weight_class : String → String → Weight
weight_class output_mode subtitle_delivery =
    if output_mode == "subtitle_only" && subtitle_delivery == "srt" then light else heavy

unfoldable pub heavy_budget : ℕ → ℕ → ℕ
heavy_budget worker_concurrency light_slot_reserve = max (worker_concurrency - light_slot_reserve) 1

unfoldable pub plan_claim : ℕ → ℕ → ℕ → ℕ → ClaimPlan
plan_claim running_total running_heavy worker_concurrency light_slot_reserve =
    if leb worker_concurrency running_total
    then nothing
    else if ltb running_heavy (heavy_budget worker_concurrency light_slot_reserve)
    then any
    else light_only

pub record SlotTracker : Type 0 where
  pub concurrency : ℕ
  pub reserve : ℕ
  pub total : ℕ
  pub heavy_count : ℕ

-- The two messages of ValueError.
pub data TrackerError : Type 0 where
  bad_concurrency bad_reserve : TrackerError

-- `SlotTracker(worker_concurrency, light_slot_reserve)`
unfoldable pub new_tracker : ℤ → ℤ → Result TrackerError SlotTracker
new_tracker worker_concurrency light_slot_reserve =
    if ltb_ℤ worker_concurrency (pos 1)
    then err bad_concurrency
    else if ltb_ℤ light_slot_reserve (pos 0)
    then err bad_reserve
    else ok (record {
      concurrency = pos_part worker_concurrency;
      reserve = pos_part light_slot_reserve;
      total = 0;
      heavy_count = 0;
    })

abbrev pub is_heavy : Weight → Bool
is_heavy light = false
is_heavy heavy = true

unfoldable pub add : SlotTracker → Weight → SlotTracker
add t weight = record t {
  total = t.total + 1;
  heavy_count = if is_heavy weight then t.heavy_count + 1 else t.heavy_count;
}

unfoldable pub remove : SlotTracker → Weight → SlotTracker
remove t weight = record t {
  total = t.total - 1;
  heavy_count = if is_heavy weight then t.heavy_count - 1 else t.heavy_count;
}

unfoldable pub plan : SlotTracker → ClaimPlan
plan t = plan_claim t.total t.heavy_count t.concurrency t.reserve

-- `wait_for_slot` returns at once, without a wait on the condition.
unfoldable pub slot_free : SlotTracker → Bool
slot_free t = ltb t.total t.concurrency
