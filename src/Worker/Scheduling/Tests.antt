-- ===== src/Worker/Scheduling/Tests.antt =====
-- scheduling.py and the dispatcher on small inputs.
use open_video_trans.Common.{
  ◌≡◌, ◌+◌, ◌-◌, ◌≤◌, min, max, refl, ltb, if◌then◌else◌, true, false, none, some, [], ◌∷◌, ok, err,
  arith,
}
use open_video_trans.Common.Int.{pos, negsuc}
use open_video_trans.Worker.Scheduling.{
  heavy, nothing, any, light_only, SlotTracker, bad_concurrency, bad_reserve, weight_class,
  heavy_budget, plan_claim, new_tracker, add, remove, plan, slot_free,
}
use open_video_trans.Worker.Scheduling.Dispatch.{
  ClaimCall, Dispatcher, HonoursLight, iteration, finish, Interleaving, at_start, one_more,
  dispatched, finished, start, count_heavy,
}
use open_video_trans.Worker.Scheduling.Dispatch.Capacity.{
  IsSound, Interleaving-IsSound, reserved_slot,
}

program : Unit {0}
unfolding weight_class heavy_budget plan_claim new_tracker add remove plan slot_free iteration
    finish
program = tt

abbrev two_slots : SlotTracker
two_slots = record { concurrency = 2; reserve = 1; total = 0; heavy_count = 0 }

two_slots_made : new_tracker (pos 2) (pos 1) ≡ ok two_slots
unfolding program
two_slots_made = refl

new_tracker_errors :
    (new_tracker (negsuc 0) (pos 1) ≡ err bad_concurrency)
    × (new_tracker (pos 1) (negsuc 4) ≡ err bad_reserve)
unfolding program
new_tracker_errors = (refl, refl)

-- A queue of dub jobs only: a light-only claim finds nothing.
abbrev dub_jobs : ClaimCall
dub_jobs true = ok none
dub_jobs false = ok (some (record { output_mode = "both"; subtitle_delivery = "srt" }))

dub_jobs-HonoursLight : HonoursLight dub_jobs
dub_jobs-HonoursLight = record { only_light = λ job e. cc }

abbrev one_dub : Dispatcher
one_dub = record {
  tracker = record { concurrency = 2; reserve = 1; total = 1; heavy_count = 1 };
  running = heavy ∷ [];
}

one_dub_next : iteration dub_jobs (start two_slots) ≡ one_dub
unfolding program
one_dub_next = refl

one_dub_reached : Interleaving (start two_slots) one_dub
unfolding program
one_dub_reached = one_more (dispatched dub_jobs dub_jobs-HonoursLight) at_start

full_waits : (plan_claim 2 1 2 1 ≡ nothing) × (slot_free two_slots ≡ true)
unfolding program
full_waits = (refl, refl)

Interleaving-IsSound_example : IsSound 2 1 one_dub
Interleaving-IsSound_example =
    Interleaving-IsSound (pos 2) (pos 1) two_slots two_slots_made one_dub_reached

reserved_slot_example :
    (count_heavy one_dub.running + min 1 (2 - 1) ≤ 2)
    × (plan one_dub.tracker
        ≡ (if ltb (count_heavy one_dub.running) (max (2 - 1) 1) then any else light_only))
reserved_slot_example =
    reserved_slot (pos 2) (pos 1) two_slots two_slots_made one_dub_reached (omega arith)

abbrev drained : Dispatcher
drained = start two_slots

drained_reached : Interleaving (start two_slots) drained
unfolding program
drained_reached = one_more (finished 0) one_dub_reached
