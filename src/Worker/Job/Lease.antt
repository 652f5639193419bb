-- ===== src/Worker/Job/Lease.antt =====
-- Which renewals the heartbeat of worker.py sends, and when it gives the lease up.
use open_video_trans.Common.{
  ℕ, ◌<◌, ◌≡◌, ◌≢◌, refl, ◌↔◌, inl, inr, false, some, List, [], ◌∷◌, leb, All, arith, Bool-cases,
}
use open_video_trans.Worker.Job.{
  Answer, renewed, stale, blip, Tick, Renewals, after_answer, heartbeat_run,
}

after_answer-All :
    (P : ℕ → Type 0) (answer : Answer) (rest : Renewals)
    → All P rest.sent
    → All P (after_answer answer rest).sent
after_answer-All P renewed rest h = h
after_answer-All P stale rest h = tt
after_answer-All P blip rest h = h

after_answer-lost :
    (answer : Answer) (rest : Renewals)
    → ((after_answer answer rest).lost ≡ false) ↔ (answer ≢ stale) × (rest.lost ≡ false)
after_answer-lost renewed rest = (λ e. (λ s. cc, e), λ h. h.1)
after_answer-lost stale rest = (λ e. cc, λ h. absurd (h.0 refl))
after_answer-lost blip rest = (λ e. (λ s. cc, e), λ h. h.1)

-- No renewal is sent at or after the hard cap, whatever the control plane answers.
pub renewals_before_cap :
    (max_total : ℕ) (ticks : List Tick)
    → All (λ t. t < max_total) (heartbeat_run (some max_total) ticks).sent
unfolding heartbeat_run
renewals_before_cap max_total [] = tt
renewals_before_cap max_total (t ∷ ticks) = elim (Bool-cases (leb max_total t.at)) [
  | inl late ↦ rw late tt
  | inr early ↦ rw early (
    ground arith,
    after_answer-All (λ t. t < max_total) t.answer (heartbeat_run (some max_total) ticks)
        (renewals_before_cap max_total ticks),
  )
]

abbrev pub Holds : ℕ → Tick → Type 0
Holds max_total t = (t.at < max_total) × (t.answer ≢ stale)

-- The lease counts as kept exactly if every tick came before the hard cap and none was answered
-- with a stale claim; transient failures do not give it up.
pub kept_lease_iff :
    (max_total : ℕ) (ticks : List Tick)
    → ((heartbeat_run (some max_total) ticks).lost ≡ false) ↔ All (Holds max_total) ticks
unfolding heartbeat_run
kept_lease_iff max_total [] = (λ e. tt, λ h. refl)
kept_lease_iff max_total (t ∷ ticks) =
    let ih = kept_lease_iff max_total ticks in
    elim (Bool-cases (leb max_total t.at)) [
      | inl late ↦ (λ e. ground arith, λ h. ground arith)
      | inr early ↦
          let step = after_answer-lost t.answer (heartbeat_run (some max_total) ticks) in
          let before : t.at < max_total = ground arith in
          rw early (λ e. ((before, (step.0 e).0), ih.0 (step.0 e).1), λ h. step.1 (h.0.1, ih.1 h.1))
    ]
