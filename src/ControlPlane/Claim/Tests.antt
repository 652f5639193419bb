-- ===== src/ControlPlane/Claim/Tests.antt =====
-- Two jobs and three consumers.
use open_video_trans.Common.{
  ℕ, ◌≡◌, refl, String, false, none, some, List, [], ◌∷◌, ◌==◌, arith, All,
}
use open_video_trans.ControlPlane.Claim.{
  JobRow, queued, taken, pick_job, claim_one, Request, run_claims,
}
use open_video_trans.ControlPlane.Claim.Lease.{claim_one-exclusive}

program : Unit {0}
unfolding pick_job claim_one run_claims
program = tt

abbrev job : String → ℕ → ℕ → JobRow
job id priority enqueued = record {
  job_id = id;
  status = queued;
  priority = priority;
  enqueue_at = enqueued;
  attempt = 0;
  claim_version = 0;
  lease_expires_at = none;
  started_at = none;
  current_stage = none;
  claimed_by = none;
}

abbrev jobs : List JobRow
jobs = job "a" 0 10 ∷ job "b" 1 20 ∷ []

abbrev first_taken : JobRow
first_taken = taken 100 60 "w1" (job "b" 1 20)

abbrev after_first : List JobRow
after_first = job "a" 0 10 ∷ first_taken ∷ []

claimed : claim_one 100 60 3 "w1" jobs ≡ (after_first, some first_taken)
unfolding program
claimed = refl

abbrev request : ℕ → String → Request
request now consumer = record { now_ms = now; lease_ms = 60; max_attempt = 3; consumer = consumer }

abbrev requests : List Request
requests = request 101 "w2" ∷ request 102 "w3" ∷ []

reclaimed :
    claim_one 160 60 3 "w2" (first_taken ∷ [])
    ≡ (taken 160 60 "w2" first_taken ∷ [], some (taken 160 60 "w2" first_taken))
unfolding program
reclaimed = refl

claim_one-exclusive_example :
    All (λ (r : JobRow). (r.job_id == "b") ≡ false) (run_claims requests after_first)
claim_one-exclusive_example =
    claim_one-exclusive 100 60 3 "w1" jobs after_first first_taken requests ((refl, tt), (tt, tt))
      claimed (omega arith, (omega arith, tt))
